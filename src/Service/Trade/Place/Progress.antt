-- ===== src/Service/Trade/Place/Progress.antt =====
-- An order that meets the conditions is placed: what `PlaceTrade` returns where no call fails and
-- a bridge answers.
use fxtrader.Base.{
  ℕ, suc, String, true, false, some, List, [], ◌∷◌, ◌≡◌, ◌≢◌, refl, sym, ap, subst, arith, eq_iff,
  lookup, lookup-insert, ◌==◌, ◌!=◌, ◌=s=◌, ◌!=s◌,
}
use fxtrader.Base.Result.{Result, ok, err, panic}
use fxtrader.Outside.{Outside}
use fxtrader.Outside.Laws.{NeverFails}
use fxtrader.Model.{User}
use fxtrader.Model.Trade.{TradeHistory, TradeResponse, trade_request}
use fxtrader.World.{World, Action, called}
use fxtrader.Repo.Users
use fxtrader.Repo.Users.{get_user_by_id}
use fxtrader.Repo.Accounts.{get_account_by_name, update_account}
use fxtrader.Repo.Trades.{save_trade, upserted}
use fxtrader.Repo.Others.{get_all_symbols}
use fxtrader.Service.Trade.Channels.{with_channel, await_response, opened, refilled}
use fxtrader.Service.Trade.Place.{
  Order, Accepted, find_parties, check_order, answered, conclude, exchange, request_of, with_status,
  new_trade, spawn_mirror, execute_order, place_trade, charged, cost, accept, or_refund,
  refund_and_raise,
}
use fxtrader.Service.Trade.Place.Checks.{
  IsAllowed, NotPast, AreParties, check_order_iff, check_order_frame,
}
use fxtrader.Service.Trade.Place.Whole.{charge_write}
use fxtrader.Service.Trade.Close.Asked.{send_to_mt5-Sends}

module _ ⦃o : Outside⦄ where
  open o use {F, Coll, new_id}

  -- `primitive.NewObjectID` does not give the zero id.
  abbrev pub IdsAreSet : Type 0
  IdsAreSet = (n : ℕ) → (new_id n == 0) ≡ false

  -- While a method waits, the others leave an answer on every channel that is open and empty, which
  -- says that the trade of the channel is matched.
  abbrev pub AnswersAll : (World → World) → Type 0
  AnswersAll others =
      (key : String) (c : ℕ) (w : World)
      → lookup key w.trade_chans ≡ some c
      → w.channels key c ≡ []
      → (r : TradeResponse F) × ((others w).channels key c ≡ r ∷ [])
        × (r.trade_id ≡ key)
        × (r.status ≡ "MATCHED")

  find_parties_finds :
      (q : Order F) (w : World) (p : Accepted F) (u : User F)
      → NeverFails
      → AreParties q w p
      → o.find_one (User F) (Users.has_id p.user) w.users ≡ some u
      → find_parties q w ≡ (ok p, record w { calls = suc (suc (suc w.calls)) })
  unfolding find_parties get_user_by_id get_account_by_name get_all_symbols
  find_parties_finds q w p u never a found =
      let reads = a.reads in
      let named = a.named in
      let shown = a.shown in
      let owned : (p.account.user_id != p.user) ≡ false = ground (arith, a.owned) in
      let typed : (p.account.account_type !=s q.account_type) ≡ false =
        ground (arith, a.typed, eq_iff p.account.account_type q.account_type) in
      rw
        (
          reads,
          never w.calls,
          found,
          never (suc w.calls),
          named,
          owned,
          typed,
          never (suc (suc w.calls)),
          shown,
        )
        refl

  save_trade_saves :
      (t : TradeHistory F) (w : World)
      → NeverFails
      → (t.id == 0) ≡ false
      → save_trade t w ≡ (ok t, record (called w) { trades = upserted t w.trades })
  unfolding save_trade
  save_trade_saves t w never e = rw (e, never w.calls) refl

  or_refund_ok :
      {A : Type 0} {a : A} {w' : World} (q : Order F) (p : Accepted F) (m : Action A) (w : World)
      → m w ≡ (ok a, w')
      → or_refund q p m w ≡ (ok a, w')
  or_refund_ok {A} q p m w h = ap settled h
    where
      settled : Result A × World → Result A × World
      settled x = elim x.0 as (λ _. Result A × World) [
        | ok a ↦ (ok a, x.1)
        | err e ↦ refund_and_raise q p e x.1
        | panic ↦ (panic, x.1)
      ]

  accept_saves :
      (q : Order F) (p : Accepted F) (t : TradeHistory F) (r : TradeResponse F) (w : World)
      → NeverFails
      → (t.id == 0) ≡ false
      → accept q p t r w ≡ (ok (t, r), record (called w) { trades = upserted t w.trades })
  accept_saves q p t r w never e =
      rw (or_refund_ok q p (save_trade t) w (save_trade_saves t w never e)) refl

  answered_matched :
      (q : Order F) (p : Accepted F) (t : TradeHistory F) (r : TradeResponse F) (w : World)
      → NeverFails
      → (t.id == 0) ≡ false
      → r.trade_id ≡ o.to_hex t.id
      → r.status ≡ "MATCHED"
      → answered q p t r w ≡ (
        ok (with_status "OPEN" r t, r),
        record (called w) { trades = upserted (with_status "OPEN" r t) w.trades },
      )
  unfolding answered
  answered_matched q p t r w never e same matched =
      let there : (r.trade_id =s= o.to_hex t.id) ≡ true = (eq_iff _ _).1 same in
      let open_now : (r.status =s= "MATCHED") ≡ true = (eq_iff _ _).1 matched in
      rw (there, open_now, accept_saves q p (with_status "OPEN" r t) r w never e) refl

  -- The exchange ends with the bridge's answer: the request is the newest that was sent before the
  -- method waits, and the trade is stored as open over what the others have left.
  abbrev pub Opens :
      (World → World)
      → Order F
      → Accepted F
      → TradeHistory F
      → World
      → Result (TradeHistory F × TradeResponse F)
      → World
      → Type 0
  Opens others q p t w x w' =
      (r : TradeResponse F) × (waiting : World) × (x ≡ ok (with_status "OPEN" r t, r))
      × (waiting.sent ≡ trade_request t q.account_name p.account.wallet_id ∷ w.sent)
      × (w'.trades ≡ upserted (with_status "OPEN" r t) (others waiting).trades)
      × (w'.spawned ≡ (others waiting).spawned)

  refilled-own :
      (key : String) (c : ℕ) (buffer : List (TradeResponse F))
      (channels : String → ℕ → List (TradeResponse F))
      → refilled key c buffer channels key c ≡ buffer
  refilled-own key c buffer channels = ground (arith, eq_iff key key)

  module _ (others : World → World) (q : Order F) (p : Accepted F) (t : TradeHistory F) where
    awaited :
        (c : ℕ) (w : World) (r : TradeResponse F)
        → lookup (o.to_hex t.id) w.trade_chans ≡ some c
        → (others w).channels (o.to_hex t.id) c ≡ r ∷ []
        → await_response (o.to_hex t.id) others w ≡ (
          ok (some r),
          record (others w) { channels = refilled (o.to_hex t.id) c [] (others w).channels },
        )
    unfolding await_response
    awaited c w r own h = rw (own, h) refl

    exchange-Opens :
        (c : ℕ) (w : World)
        → NeverFails
        → (t.id == 0) ≡ false
        → AnswersAll others
        → w.connections ≢ []
        → lookup (o.to_hex t.id) w.trade_chans ≡ some c
        → w.channels (o.to_hex t.id) c ≡ []
        → let (x, w') = exchange others q p t w in Opens others q p t w x w'
    unfolding exchange conclude
    exchange-Opens c w never set answers linked own empty =
        let request = trade_request t q.account_name p.account.wallet_id in
        let w1 : World = record (called w) { sent = request ∷ w.sent } in
        let w2 : World = record (called w1) { trades = upserted t w1.trades } in
        let (r, there, same, matched) = answers (o.to_hex t.id) c w2 own empty in
        let w3 : World = record (others w2) {
          channels = refilled (o.to_hex t.id) c [] (others w2).channels;
        } in
        rw
          (
            or_refund_ok q p (request_of q p t) w
                ((send_to_mt5-Sends request w).1 linked (never w.calls)),
            or_refund_ok q p (save_trade t) w1 (save_trade_saves t w1 never set),
            awaited c w2 r own there,
            answered_matched q p t r w3 never set same matched,
          )
          (r, w2, refl, refl, refl, refl)

  -- The order is placed: the trade that is returned is open, of the order's parties and volume, it
  -- is what was stored last, and its mirroring is the newest goroutine.
  abbrev pub Progresses :
      Order F → Accepted F → Result (TradeHistory F × TradeResponse F) → World → Type 0
  Progresses q p x w' =
      (t : TradeHistory F) × (r : TradeResponse F) × (x ≡ ok (t, r))
      × (t.status ≡ "OPEN")
      × (t.user_id ≡ p.user)
      × (t.account_id ≡ p.account.id)
      × (t.symbol ≡ p.symbol.symbol_name)
      × (t.volume ≡ q.volume)
      × ((c : Coll (TradeHistory F)) × (w'.trades ≡ upserted t c))
      × ((rest : List (TradeHistory F × String)) × (w'.spawned ≡ (t, q.account_type) ∷ rest))

  module _ (others : World → World) (q : Order F) (p : Accepted F) where
    execute_order-Progresses :
        (w : World)
        → NeverFails
        → IdsAreSet
        → AnswersAll others
        → w.connections ≢ []
        → let (x, w') = execute_order others q p w in Progresses q p x w'
    unfolding execute_order with_channel update_account spawn_mirror new_trade charged
    execute_order-Progresses w never ids answers linked =
        let id = new_id (suc w.calls) in
        let key = o.to_hex id in
        let t = new_trade q p id (o.clock (suc (suc w.calls))) in
        let w1 : World = record w {
          calls = suc (suc (suc w.calls));
          accounts = charge_write (cost q p.symbol) p.account w.accounts;
        } in
        let (r, waiting, e, _, stored, spawned) =
          exchange-Opens others q p t w1.next_channel (opened key w1) never (ids (suc w.calls))
            answers linked (lookup-insert key w1.next_channel w1.trade_chans)
            (refilled-own key w1.next_channel [] w1.channels) in
        rw (never w.calls, e)
          (
            with_status "OPEN" r t,
            r,
            refl,
            refl,
            refl,
            refl,
            refl,
            refl,
            (_, stored),
            (_, ap (λ s. (with_status "OPEN" r t, q.account_type) ∷ s) spawned),
          )

    -- Where no call fails and new ids are not zero, an order of a user, an account and a symbol
    -- that are there, which meets the conditions, is placed, if some bridge is connected and the
    -- others answer on every open channel that the trade is matched: the trade that is returned is
    -- open and has the order's parties and volume, it is what was stored last, and a
    -- goroutine that mirrors it is the newest.
    pub place_trade-Progresses :
        (u : User F) (w : World)
        → NeverFails
        → IdsAreSet
        → AnswersAll others
        → AreParties q w p
        → o.find_one (User F) (Users.has_id p.user) w.users ≡ some u
        → IsAllowed q p.account p.symbol
        → NotPast (o.clock (suc (suc (suc w.calls)))) q.expiration
        → w.connections ≢ []
        → let (x, w') = place_trade others q w in Progresses q p x w'
    unfolding place_trade
    place_trade-Progresses u w never ids answers parties found allowed later linked =
        let w1 : World = record w { calls = suc (suc (suc w.calls)) } in
        let passes = (check_order_iff q p.account p.symbol w1).1 (allowed, later) in
        let (_, frame) = check_order_frame q p.account p.symbol w1 in
        let w2 = (check_order q p.account p.symbol w1).1 in
        rw (find_parties_finds q w p u never parties found, passes)
          (execute_order-Progresses w2 never ids answers
            (subst (λ v. v.connections ≢ []) (sym frame) linked))
