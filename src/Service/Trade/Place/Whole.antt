-- ===== src/Service/Trade/Place/Whole.antt =====
-- `PlaceTrade` from its first check to its end.
use fxtrader.World.Outcome.{Ends-bind}
use fxtrader.Base.{ℕ, suc, String, ◌≡◌, ◌⊎◌, inl, inr, refl, ap, subst, ◌∙◌, Bool-cases}
use fxtrader.Base.Result.{Result, ok, err, panic}
use fxtrader.Outside.{Outside}
use fxtrader.Model.{Account}
use fxtrader.Model.Trade.{TradeHistory, TradeResponse}
use fxtrader.World.{World, Action, continue, pure, ◌>>◌}
use fxtrader.Repo.Accounts
use fxtrader.Repo.Accounts.{update_account}
use fxtrader.Service.Trade.Channels.{with_channel, opened, closed}
use fxtrader.Service.Trade.Place.{
  Order, Accepted, cost, required_margin, charged, exchange, spawn_mirror, new_trade, find_parties,
  check_order, execute_order, place_trade,
}
use fxtrader.Service.Trade.Place.Checks.{
  IsAllowed, NotPast, due, AreParties, check_order-IsAllowed, check_order-NotPast,
  find_parties_calls, check_order_frame, find_parties-AreParties, find_parties_frame,
}
use fxtrader.Service.Trade.Place.Exchange.{Refunded, Exchanged, exchange-Exchanged}

module _ ⦃o : Outside⦄ where
  open o use {F, Coll, sub}

  abbrev pub charge_write : F → Account F → Coll (Account F) → Coll (Account F)
  charge_write c a as' =
      (o.update_one (Account F) (Accounts.has_id a.id)
        (Accounts.replaced_by (record a { balance = sub a.balance c })) as').0

  finish : String → TradeHistory F × TradeResponse F → Action (TradeHistory F × TradeResponse F)
  finish type x = spawn_mirror x.0 type >> pure x

  module _ (others : World → World) (q : Order F) where
    -- What `PlaceTrade` has done to the accounts `before` once its checks have passed, by how it
    -- ended. `waiting` is the state in which it began to wait for the bridge's answer.
    abbrev pub Executed :
        Accepted F → Coll (Account F) → Result (TradeHistory F × TradeResponse F) → World → Type 0
    Executed p before (ok x) w' =
        (waiting : World) × (waiting.accounts ≡ charge_write (due q p.symbol) p.account before)
        × (w'.accounts ≡ (others waiting).accounts)
        × ((x.1.status ≡ "MATCHED") ⊎ (x.1.status ≡ "PENDING"))
    Executed p before (err _) w' =
        (w'.accounts ≡ before)
        ⊎ (Refunded (due q p.symbol) p.account (charge_write (due q p.symbol) p.account before)
              w'.accounts
            ⊎ ((waiting : World) × (waiting.accounts
                  ≡ charge_write (due q p.symbol) p.account before)
                × Refunded (due q p.symbol) p.account (others waiting).accounts w'.accounts))
    Executed p before panic w' = ⊥

    module _ (p : Accepted F) (before : Coll (Account F)) where
      abbrev ready : Coll (Account F)
      ready = charge_write (due q p.symbol) p.account before

      closing :
          (t : TradeHistory F) (key : String) (x : Result (TradeHistory F × TradeResponse F))
          (w1 : World)
          → Exchanged q p others t ready x w1
          → let (y, w') = continue x (finish q.account_type) (closed key w1) in
            Executed p before y w'
      unfolding finish spawn_mirror cost required_margin
      closing t key (ok (t', r)) w1 (waiting, same, after, status) = (waiting, same, after, status)
      closing t key (err e) w1 (inl h) = inr (inl h)
      closing t key (err e) w1 (inr h) = inr (inr h)
      closing t key panic w1 h = h

    execute_order-Executed :
        (p : Accepted F) (w : World)
        → let (x, w') = execute_order others q p w in Executed p w.accounts x w'
    unfolding execute_order with_channel update_account charged finish cost required_margin
    execute_order-Executed p w = elim (Bool-cases (o.fails w.calls)) [
      | inl lost ↦ rw lost (inl refl)
      | inr stored ↦
          let id = o.new_id (suc w.calls) in
          let key = o.to_hex id in
          let t = new_trade q p id (o.clock (suc (suc w.calls))) in
          let w1 : World = record w {
            calls = suc (suc (suc w.calls));
            accounts = charge_write (due q p.symbol) p.account w.accounts;
          } in
          let (x, w2) = exchange others q p t (opened key w1) in
          rw stored
            (closing p w.accounts t key x w2 (exchange-Exchanged q p others t (opened key w1)))
    ]

    -- What the clock says when the expiration is checked: the three lookups come before it.
    abbrev pub time_of_check : World → ℕ
    time_of_check w = o.clock (suc (suc (suc w.calls)))

    -- What `PlaceTrade` has done to the accounts of `w`, by how it ended.
    abbrev pub Placed : World → Result (TradeHistory F × TradeResponse F) → World → Type 0
    Placed w (ok x) w' =
        (p : Accepted F) × AreParties q w p
        × IsAllowed q p.account p.symbol
        × NotPast (time_of_check w) q.expiration
        × Executed p w.accounts (ok x) w'
    Placed w (err e) w' =
        (w'.accounts ≡ w.accounts)
        ⊎ ((p : Accepted F) × AreParties q w p
            × IsAllowed q p.account p.symbol
            × NotPast (time_of_check w) q.expiration
            × Executed p w.accounts (err e) w')
    Placed w panic w' = ⊥

    placed :
        (p : Accepted F) (w w1 : World) (x : Result (TradeHistory F × TradeResponse F)) (w' : World)
        → AreParties q w p
        → IsAllowed q p.account p.symbol
        → NotPast (time_of_check w) q.expiration
        → w1.accounts ≡ w.accounts
        → Executed p w1.accounts x w'
        → Placed w x w'
    placed p w w1 (ok x) w' a b c same h =
        (p, a, b, c, subst (λ as'. Executed p as' (ok x) w') same h)
    placed p w w1 (err e) w' a b c same h =
        inr (p, a, b, c, subst (λ as'. Executed p as' (err e) w') same h)
    placed p w w1 panic w' a b c same h = h

    pub place_trade-Placed : (w : World) → let (x, w') = place_trade others q w in Placed w x w'
    unfolding place_trade
    place_trade-Placed w =
        let (fine, frame) = find_parties_frame q w in
        let w1 = (find_parties q w).1 in
        Ends-bind (Placed w) (find_parties q) _ w
          (λ p h.
            let parties = find_parties-AreParties q w p h in
            let (fine', frame') = check_order_frame q p.account p.symbol w1 in
            let w2 = (check_order q p.account p.symbol w1).1 in
            let same : w2.accounts ≡ w.accounts =
              ap (λ v. v.accounts) frame' ∙ ap (λ v. v.accounts) frame in
            Ends-bind (Placed w) (check_order q p.account p.symbol) _ w1
              (λ u h'.
                let (x, w') = execute_order others q p w2 in
                placed p w w2 x w' parties (check_order-IsAllowed q p.account p.symbol w1 h')
                  (subst (λ n. NotPast (o.clock n) q.expiration) (find_parties_calls q w p h)
                    (check_order-NotPast q p.account p.symbol w1 h'))
                  same (execute_order-Executed p w2))
              (λ e h'. inl same) (λ h'. absurd (fine' h')))
          (λ e h. inl (ap (λ v. v.accounts) frame)) (λ h. absurd (fine h))
