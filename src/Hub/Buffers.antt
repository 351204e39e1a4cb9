-- ===== src/Hub/Buffers.antt =====
-- What the clients of the hub get over any run of its loop, against the events that concern them.
use fxtrader.Base.{
  inl, inr, ℕ, suc, ltb, String, Option, some, List, [], ◌∷◌, map, length, contains, take, find?,
  ◌≡◌, ◌≢◌, refl, ap, ◌∙◌, arith, eq_iff, Bool-cases, ◌=s=◌, ◌<>◌, if◌then◌else◌,
}
use Prim.Native.Nat.{◌-◌}
use mathlib.Core.Option.{some-injective}
use fxtrader.Outside.{Outside}
use fxtrader.Model.{PriceData}
use fxtrader.Model.Trade.{TradeHistory, BalanceData, OrderStreamResponse}
use fxtrader.Hub.{
  Client, offer, drop_client, is_subscribed, give_price, give_trade, give_balance, give_orders,
  Event, register, unregister, price, trade, balance, order_stream, step, run,
}

module _ {A : Type 0} where
  -- The messages put on a buffer one after the other, the newest first.
  pub pushed : List A → List A → List A
  pushed [] buffer = buffer
  pushed (x ∷ xs) buffer = pushed xs (x ∷ buffer)

  -- A buffer that has been offered the messages: as many of the first as there was room for.
  pub filled : List A → List A → List A
  filled xs buffer = pushed (take (256 - length buffer) xs) buffer

  take_none : (n : ℕ) (xs : List A) → n ≡ 0 → take n xs ≡ []
  take_none n [] h = refl
  take_none n (x ∷ xs) h = rw h refl

  take_one : (n m : ℕ) (x : A) (xs : List A) → n ≡ suc m → take n (x ∷ xs) ≡ x ∷ take m xs
  take_one n m x xs h = rw h refl

  pushed_none :
      (n m : ℕ) (xs ys buffer : List A)
      → n ≡ 0
      → m ≡ 0
      → pushed (take n xs) buffer ≡ pushed (take m ys) buffer
  pushed_none n m xs ys buffer a b = rw (take_none n xs a, take_none m ys b) refl

  filled-offer : (x : A) (xs buffer : List A) → filled xs (offer x buffer) ≡ filled (x ∷ xs) buffer
  unfolding filled pushed offer
  filled-offer x xs buffer = elim (Bool-cases (ltb (length buffer) 256)) [
    | inl room ↦
        rw (room, take_one (256 - length buffer) (256 - suc (length buffer)) x xs (ground arith))
          refl
    | inr full ↦ rw full (
        pushed_none (256 - length buffer) (256 - length buffer) xs (x ∷ xs) buffer (ground arith)
          (ground arith))
  ]

  pub filled_none : (buffer : List A) → filled [] buffer ≡ buffer
  unfolding filled pushed
  filled_none buffer = refl

module _ ⦃o : Outside⦄ where
  open o use {F}

  -- The messages of a run, in their order, that concern a client with these subscriptions.
  pub prices_for : List String → List Event → List (PriceData F)
  prices_for symbols [] = []
  prices_for symbols (price p ∷ es) =
      let rest = prices_for symbols es in if contains symbols p.symbol then p ∷ rest else rest
  prices_for symbols (e ∷ es) = prices_for symbols es

  pub trades_for : List String → List Event → List (TradeHistory F)
  trades_for symbols [] = []
  trades_for symbols (trade t ∷ es) =
      let rest = trades_for symbols es in
      if contains symbols (o.to_hex t.user_id <> (":" <> t.account_type)) then t ∷ rest else rest
  trades_for symbols (e ∷ es) = trades_for symbols es

  pub balances_for : List String → List Event → List (BalanceData F)
  balances_for symbols [] = []
  balances_for symbols (balance b ∷ es) =
      let rest = balances_for symbols es in
      if contains symbols (b.user_id <> (":" <> b.account_type)) then b ∷ rest else rest
  balances_for symbols (e ∷ es) = balances_for symbols es

  pub orders_for : List String → List Event → List (OrderStreamResponse F)
  orders_for symbols [] = []
  orders_for symbols (order_stream r ∷ es) =
      let rest = orders_for symbols es in
      if contains symbols (o.to_hex r.user_id <> (":" <> r.account_type)) then r ∷ rest else rest
  orders_for symbols (e ∷ es) = orders_for symbols es

  -- The client after the events, if it stays registered.
  pub served : List Event → Client F → Client F
  served es c = record c {
    send = filled (prices_for c.symbols es) c.send;
    send_trade = filled (trades_for c.symbols es) c.send_trade;
    send_balance = filled (balances_for c.symbols es) c.send_balance;
    send_orders = filled (orders_for c.symbols es) c.send_orders;
  }

  -- The client registered under an id.
  abbrev pub client_of : String → List (Client F) → Option (Client F)
  client_of id cs = find? (λ c. c.id =s= id) cs

  -- No event registers or unregisters a client with that id.
  abbrev pub Leaves : String → Event → Type 0
  Leaves id (register c) = c.id ≢ id
  Leaves id (unregister c) = c.id ≢ id
  Leaves id (price p) = Unit
  Leaves id (trade t) = Unit
  Leaves id (balance b) = Unit
  Leaves id (order_stream r) = Unit

  abbrev pub AllLeave : String → List Event → Type 0
  AllLeave id [] = Unit
  AllLeave id (e ∷ es) = Leaves id e × AllLeave id es

  client_of-drop_client :
      (id other : String) (cs : List (Client F))
      → other ≢ id
      → client_of id (drop_client other cs) ≡ client_of id cs
  unfolding drop_client
  client_of-drop_client id other [] ne = refl
  client_of-drop_client id other (c ∷ cs) ne =
      ground (arith, eq_iff c.id id, eq_iff c.id other, client_of-drop_client id other cs ne)

  client_of-map :
      (f : Client F → Client F) (id : String) (cs : List (Client F)) (c : Client F)
      → ((d : Client F) → (f d).id ≡ d.id)
      → client_of id cs ≡ some c
      → client_of id (map f cs) ≡ some (f c)
  client_of-map f id [] c same h = ground arith
  client_of-map f id (d ∷ cs) c same h = elim (Bool-cases (d.id =s= id)) [
    | inl e ↦
        rw (ap (λ x. x =s= id) (same d) ∙ e) (ap (λ x. some (f x)) (some-injective _ _ (rw e at h)))
    | inr e ↦ rw (ap (λ x. x =s= id) (same d) ∙ e) (client_of-map f id cs c same (rw e at h))
  ]

  give_price_id : (x : PriceData F) (d : Client F) → (give_price x d).id ≡ d.id
  unfolding give_price
  give_price_id x d = ground arith

  give_trade_id : (x : TradeHistory F) (d : Client F) → (give_trade x d).id ≡ d.id
  unfolding give_trade
  give_trade_id x d = ground arith

  give_balance_id : (x : BalanceData F) (d : Client F) → (give_balance x d).id ≡ d.id
  unfolding give_balance
  give_balance_id x d = ground arith

  give_orders_id : (x : OrderStreamResponse F) (d : Client F) → (give_orders x d).id ≡ d.id
  unfolding give_orders
  give_orders_id x d = ground arith

  module _ (es : List Event) (c : Client F) where
    served-give_price : (p : PriceData F) → served es (give_price p c) ≡ served (price p ∷ es) c
    unfolding give_price is_subscribed served prices_for trades_for balances_for orders_for
    served-give_price p = elim (Bool-cases (contains c.symbols p.symbol)) [
      | inl e ↦ rw (e, filled-offer p (prices_for c.symbols es) c.send) refl
      | inr e ↦ rw e refl
    ]

    served-give_trade : (t : TradeHistory F) → served es (give_trade t c) ≡ served (trade t ∷ es) c
    unfolding give_trade is_subscribed served prices_for trades_for balances_for orders_for
    served-give_trade t =
        elim (Bool-cases (contains c.symbols (o.to_hex t.user_id <> (":" <> t.account_type)))) [
          | inl e ↦ rw (e, filled-offer t (trades_for c.symbols es) c.send_trade) refl
          | inr e ↦ rw e refl
        ]

    served-give_balance :
        (b : BalanceData F) → served es (give_balance b c) ≡ served (balance b ∷ es) c
    unfolding give_balance is_subscribed served prices_for trades_for balances_for orders_for
    served-give_balance b =
        elim (Bool-cases (contains c.symbols (b.user_id <> (":" <> b.account_type)))) [
          | inl e ↦ rw (e, filled-offer b (balances_for c.symbols es) c.send_balance) refl
          | inr e ↦ rw e refl
        ]

    served-give_orders :
        (r : OrderStreamResponse F) → served es (give_orders r c) ≡ served (order_stream r ∷ es) c
    unfolding give_orders is_subscribed served prices_for trades_for balances_for orders_for
    served-give_orders r =
        elim (Bool-cases (contains c.symbols (o.to_hex r.user_id <> (":" <> r.account_type)))) [
          | inl e ↦ rw (e, filled-offer r (orders_for c.symbols es) c.send_orders) refl
          | inr e ↦ rw e refl
        ]

  step_serves :
      (e : Event) (es : List Event) (id : String) (cs : List (Client F)) (c : Client F)
      → Leaves id e
      → client_of id cs ≡ some c
      → (c' : Client F) × (client_of id (step e cs) ≡ some c') × (served es c' ≡ served (e ∷ es) c)
  unfolding step served prices_for trades_for balances_for orders_for
  step_serves (register d) es id cs c ne h =
      (c, ground (arith, eq_iff d.id id, client_of-drop_client id d.id cs ne), refl)
  step_serves (unregister d) es id cs c ne h = (c, client_of-drop_client id d.id cs ne ∙ h, refl)
  step_serves (price p) es id cs c _ h = (
    give_price p c,
    client_of-map (give_price p) id cs c (λ d. give_price_id p d) h,
    served-give_price es c p,
  )
  step_serves (trade t) es id cs c _ h = (
    give_trade t c,
    client_of-map (give_trade t) id cs c (λ d. give_trade_id t d) h,
    served-give_trade es c t,
  )
  step_serves (balance b) es id cs c _ h = (
    give_balance b c,
    client_of-map (give_balance b) id cs c (λ d. give_balance_id b d) h,
    served-give_balance es c b,
  )
  step_serves (order_stream r) es id cs c _ h = (
    give_orders r c,
    client_of-map (give_orders r) id cs c (λ d. give_orders_id r d) h,
    served-give_orders es c r,
  )

  -- After any run in which no client comes or goes under its id, a client that was registered is
  -- registered still, with its subscriptions, and each of its four buffers holds what it held and
  -- then the first of the messages of that kind whose symbol, or whose user and account type, it
  -- is subscribed to, in their order, as many as there was room for in 256: it gets nothing else,
  -- loses no earlier message, and is not touched by what the other clients do.
  pub run_serves :
      (es : List Event) (id : String) (cs : List (Client F)) (c : Client F)
      → AllLeave id es
      → client_of id cs ≡ some c
      → client_of id (run es cs) ≡ some (served es c)
  unfolding run served filled pushed prices_for trades_for balances_for orders_for
  run_serves [] id cs c _ h = h
  run_serves (e ∷ es) id cs c (leaves, later) h =
      let (c', here, same) = step_serves e es id cs c leaves h in
      run_serves es id (step e cs) c' later here ∙ ap some same
