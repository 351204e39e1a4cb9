-- ===== src/Service/Trade/Place/Exchange.antt =====
-- What `PlaceTrade` does to the accounts from the sending of its request on. Every error after
-- the charge writes the account back with the cost added, on the copy that the method has held
-- since before the charge.
use fxtrader.World.Outcome.{Ends, Ends-bind}
use fxtrader.Base.{
  ℕ, List-cases, String, Option, some, none, List, [], ◌∷◌, ◌≡◌, ◌⊎◌, inl, inr, refl, ◌≢◌, subst,
  ◌∙◌, arith, eq_iff, lookup,
}
use fxtrader.Base.Result.{Error, Result, ok, err, panic, new, driver}
use fxtrader.Outside.{Outside}
use fxtrader.Model.{Account}
use fxtrader.Model.Trade.{TradeHistory, TradeResponse, Request, trade_request}
use fxtrader.World.{World, Action, called, ◌>>=◌}
use fxtrader.Repo.Accounts
use fxtrader.Repo.Accounts.{update_account}
use fxtrader.Repo.Trades.{save_trade}
use fxtrader.Service.Trade.Channels.{send_loop, send_to_mt5, await_response, taken, received}
use fxtrader.Service.Trade.Place.{
  Order, Accepted, cost, refunded, refund_and_raise, or_refund, abandon, answered, conclude,
  request_of, exchange, closed_as, with_status, accept, refusal,
}

module _ ⦃o : Outside⦄ where
  open o use {F, Coll, add, sub}

  -- The account as it was read, less the cost and plus the cost.
  abbrev pub refund_write : F → Account F → Coll (Account F) → Coll (Account F)
  refund_write c a as' =
      (o.update_one (Account F) (Accounts.has_id a.id)
        (Accounts.replaced_by (record a { balance = add (sub a.balance c) c })) as').0

  -- The refund was written, or its write failed, which the code does not look at.
  abbrev pub Refunded : F → Account F → Coll (Account F) → Coll (Account F) → Type 0
  Refunded c a before after = (after ≡ refund_write c a before) ⊎ (after ≡ before)

  save_trade-accounts :
      (t : TradeHistory F) (w : World)
      → ((save_trade t w).0 ≢ panic) × ((save_trade t w).1.accounts ≡ w.accounts)
  unfolding save_trade
  save_trade-accounts t w = ground arith

  send_loop-accounts :
      (r : Request F) (e : Error) (cs : List String) (w : World)
      → ((send_loop r e cs w).0 ≢ panic) × ((send_loop r e cs w).1.accounts ≡ w.accounts)
  unfolding send_loop
  send_loop-accounts r e [] w = ground arith
  send_loop-accounts r e (c ∷ cs) w = ground (arith, send_loop-accounts r driver cs (called w))

  module _ (q : Order F) (p : Accepted F) where
    abbrev Refunds : Coll (Account F) → Coll (Account F) → Type 0
    Refunds = Refunded (cost q p.symbol) p.account

    refund_and_raise_lem :
        {A : Type 0} (e : Error) (w : World)
        → ((refund_and_raise {A = A} q p e w).0 ≡ err e)
          × Refunds w.accounts (refund_and_raise {A = A} q p e w).1.accounts
    unfolding refund_and_raise update_account refunded
    refund_and_raise_lem e w = ground arith

    pub abandon_lem :
        {A : Type 0} (t : TradeHistory F) (reason : String) (e : Error) (w : World)
        → ((abandon {A = A} q p t reason e w).0 ≡ err e)
          × Refunds w.accounts (abandon {A = A} q p t reason e w).1.accounts
    unfolding abandon
    abandon_lem {A} t reason e w =
        let t' = closed_as reason (o.clock w.calls) t in
        let w1 = (save_trade t' (called w)).1 in
        ground (arith, save_trade-accounts t' (called w), refund_and_raise_lem {A = A} e w1)

    accept_lem :
        (t : TradeHistory F) (r : TradeResponse F) (w : World)
        → let (x, w') = accept q p t r w in
          (((t' : TradeHistory F) × (x ≡ ok (t', r)) × (w'.accounts ≡ w.accounts))
            ⊎ ((e : Error) × (x ≡ err e) × Refunds w.accounts w'.accounts))
    accept_lem t r w = after_save (save_trade t w).0 refl
      where
        after_save :
            (s : Result (TradeHistory F))
            → (save_trade t w).0 ≡ s
            → let (x, w') = accept q p t r w in
              (((t' : TradeHistory F) × (x ≡ ok (t', r)) × (w'.accounts ≡ w.accounts))
                ⊎ ((e : Error) × (x ≡ err e) × Refunds w.accounts w'.accounts))
        after_save (ok t') h =
            inl (t', ground (arith, h), ground (arith, h, save_trade-accounts t w))
        after_save (err e) h =
            let w1 = (save_trade t w).1 in
            let (raised, written) = refund_and_raise_lem {A = TradeHistory F} e w1 in
            inr (
              e,
              ground (arith, h, raised),
              ground (arith, h, raised, written, save_trade-accounts t w),
            )
        after_save panic h = absurd ((save_trade-accounts t w).0 h)

    -- How the branches of the `select` end, from the accounts at that moment.
    abbrev Answered :
        TradeHistory F
        → Coll (Account F)
        → Result (TradeHistory F × TradeResponse F)
        → World
        → Type 0
    Answered t before (ok (t', r)) w' =
        (w'.accounts ≡ before)
        × (r.trade_id ≡ o.to_hex t.id)
        × ((r.status ≡ "MATCHED") ⊎ (r.status ≡ "PENDING"))
    Answered t before (err _) w' = Refunds before w'.accounts
    Answered t before panic w' = ⊥

    conclude-Answered :
        (t : TradeHistory F) (r : Option (TradeResponse F)) (w : World)
        → let (x, w') = conclude q p t r w in Answered t w.accounts x w'
    unfolding conclude answered
    conclude-Answered t none w = ground (
      arith,
      abandon_lem {A = TradeHistory F × TradeResponse F} t "TIMEOUT"
          (new "timeout waiting for MT5 trade response") w,
    )
    conclude-Answered t (some r) w = ground (
      arith,
      eq_iff r.trade_id (o.to_hex t.id),
      eq_iff r.status "MATCHED",
      eq_iff r.status "PENDING",
      accept_lem (with_status "OPEN" r t) r w,
      accept_lem (with_status "PENDING" r t) r w,
      refund_and_raise_lem {A = TradeHistory F × TradeResponse F}
          (new "received response for wrong trade ID") w,
      abandon_lem {A = TradeHistory F × TradeResponse F} (with_status r.status r t) r.status
          (refusal r) w,
    )

    -- How the exchange ends, from the accounts `before` it. `waiting` is the state in which the
    -- method begins to wait.
    abbrev pub Exchanged :
        (World → World)
        → TradeHistory F
        → Coll (Account F)
        → Result (TradeHistory F × TradeResponse F)
        → World
        → Type 0
    Exchanged others t before (ok x) w' =
        (waiting : World) × (waiting.accounts ≡ before)
        × (w'.accounts ≡ (others waiting).accounts)
        × ((x.1.status ≡ "MATCHED") ⊎ (x.1.status ≡ "PENDING"))
    Exchanged others t before (err _) w' =
        Refunds before w'.accounts
        ⊎ ((waiting : World) × (waiting.accounts ≡ before)
            × Refunds (others waiting).accounts w'.accounts)
    Exchanged others t before panic w' = ⊥

    module _ (others : World → World) (t : TradeHistory F) (before : Coll (Account F)) where
      await_conclude : TradeHistory F → Action (TradeHistory F × TradeResponse F)
      await_conclude t' = do r ← await_response (o.to_hex t.id) others; conclude q p t' r

      taken_accounts :
          (key : String) (c : ℕ) (x : List (TradeResponse F)) (w : World)
          → (taken key c x w).1.accounts ≡ w.accounts
      taken_accounts key c [] w = refl
      taken_accounts key c (r ∷ rest) w = refl

      received_accounts :
          (key : String) (x : Option ℕ) (w : World) → (received key x w).1.accounts ≡ w.accounts
      received_accounts key none w = refl
      received_accounts key (some c) w = taken_accounts key c (w.channels key c) w

      concluded :
          (t' : TradeHistory F) (waiting : World) (x : Result (TradeHistory F × TradeResponse F))
          (w1 w' : World)
          → waiting.accounts ≡ before
          → w1.accounts ≡ (others waiting).accounts
          → Answered t' w1.accounts x w'
          → Exchanged others t before x w'
      concluded t' waiting (ok x) w1 w' same after h = (waiting, same, h.0 ∙ after, h.2)
      concluded t' waiting (err e) w1 w' same after h =
          inr (waiting, same, subst (λ b. Refunds b w'.accounts) after h)
      concluded t' waiting panic w1 w' same after h = h

      await-Exchanged :
          (t' : TradeHistory F) (waiting : World)
          → waiting.accounts ≡ before
          → let (x, w') = await_conclude t' waiting in Exchanged others t before x w'
      unfolding await_conclude await_response
      await-Exchanged t' waiting same =
          let w1 = others waiting in
          let key = o.to_hex t.id in
          let (r, w2) = received key (lookup key waiting.trade_chans) w1 in
          let (x, w') = conclude q p t' r w2 in
          concluded t' waiting x w2 w' same
            (received_accounts key (lookup key waiting.trade_chans) w1) (conclude-Answered t' r w2)

    abbrev Guarded : {A : Type 0} → Coll (Account F) → Result A → World → Type 0
    Guarded before (ok _) w' = w'.accounts ≡ before
    Guarded before (err _) w' = Refunds before w'.accounts
    Guarded before panic w' = ⊥

    or_refund-Guarded :
        {A : Type 0} (m : Action A) (w : World)
        → (m w).0 ≢ panic
        → (m w).1.accounts ≡ w.accounts
        → Ends (Guarded w.accounts) (or_refund q p m) w
    or_refund-Guarded {A} m w fine same = split (m w).0 refl
      where
        split : (x : Result A) → (m w).0 ≡ x → Ends (Guarded w.accounts) (or_refund q p m) w
        split (ok a) h = ground (arith, h, same)
        split (err e) h = ground (arith, h, same, refund_and_raise_lem {A = A} e (m w).1)
        split panic h = absurd (fine h)

    request-accounts :
        (t : TradeHistory F) (w : World)
        → ((request_of q p t w).0 ≢ panic) × ((request_of q p t w).1.accounts ≡ w.accounts)
    unfolding send_to_mt5
    request-accounts t w = elim (List-cases w.connections) [
      | inl e ↦ ground (arith, e)
      | inr (c, cs, e) ↦ ground (
        arith,
        e,
        send_loop-accounts (trade_request t q.account_name p.account.wallet_id) driver (c ∷ cs) w,
      )
    ]

    -- Whatever the other goroutines do while it waits, the exchange ends with an accepted answer
    -- and the accounts as the others left them, or with an error and the refund written (or its
    -- write failed) over the accounts as they were, or as the others left them.
    pub exchange-Exchanged :
        (others : World → World) (t : TradeHistory F) (w : World)
        → let (x, w') = exchange others q p t w in Exchanged others t w.accounts x w'
    unfolding exchange await_conclude
    exchange-Exchanged others t w =
        let m = or_refund q p (request_of q p t) in
        let (kept, same) = request-accounts t w in
        let sent = or_refund-Guarded (request_of q p t) w kept same in
        Ends-bind P m _ w
          (λ a h.
            let w1 = (m w).1 in
            let still : w1.accounts ≡ w.accounts = subst (λ x. Guarded w.accounts x w1) h sent in
            let (kept', same') = save_trade-accounts t w1 in
            let saved = or_refund-Guarded (save_trade t) w1 kept' same' in
            let w2 = (or_refund q p (save_trade t) w1).1 in
            Ends-bind P (or_refund q p (save_trade t)) _ w1
              (λ t' h'.
                await-Exchanged others t w.accounts t' w2
                  (subst (λ x. Guarded w1.accounts x w2) h' saved ∙ still))
              (λ e h'. inl (
                subst (λ b. Refunds b w2.accounts) still
                  (subst (λ x. Guarded w1.accounts x w2) h' saved)))
              (λ h'. absurd (subst (λ x. Guarded w1.accounts x w2) h' saved)))
          (λ e h. inl (subst (λ x. Guarded w.accounts x (m w).1) h sent))
          (λ h. absurd (subst (λ x. Guarded w.accounts x (m w).1) h sent))
      where
        P : Result (TradeHistory F × TradeResponse F) → World → Type 0
        P = Exchanged others t w.accounts
