-- ===== src/Service/Trade/Respond/Closing.antt =====
-- What the bridge's answer to a close request writes.
use fxtrader.Base.{
  if◌then◌else◌, ℕ, suc, some, ◌≡◌, ◌≢◌, ◌⊎◌, inl, inr, refl, arith, ◌∷◌, ◌=s=◌, =s=_iff,
  Bool-cases,
}
use fxtrader.Base.Result.{Result, ok, err, panic}
use fxtrader.Outside.{Outside}
use fxtrader.Outside.Laws.{UpsertsFound}
use fxtrader.Model.{Account}
use fxtrader.Model.Trade.{TradeHistory, TradeResponse}
use fxtrader.World.{World, Action, trade_update, called, ignore, ◌>>=◌, ◌>>◌}
use fxtrader.Repo.Others.Logging.{ignored_log}
use fxtrader.Service.Trade.Tails.{save_trade_lem, post_response_frame}
use fxtrader.Repo.Accounts
use fxtrader.Repo.Accounts.{get_account_by_id, update_account}
use fxtrader.Repo.Trades.{get_trade_by_id, save_trade, upserted, has_id, set_trade}
use fxtrader.Repo.Others.{log_action}
use fxtrader.Service.Trade.Channels.{post_response}
use fxtrader.Service.Trade.Respond.{
  margin_of, profit_of, closed_by, broadcast, handle_close_trade_response,
}
use fxtrader.Service.Trade.Respond.Answer.{IsAbout, margin}

module _ ⦃o : Outside⦄ where
  open o use {F, Coll, add, sub, mul, neg}

  -- The price difference times the volume, with the sign of the side.
  abbrev pub profit : TradeResponse F → TradeHistory F → F
  profit r t =
      if t.trade_type =s= "SELL"
      then neg (mul (sub r.close_price t.entry_price) t.volume)
      else mul (sub r.close_price t.entry_price) t.volume

  -- The trade as the answer closes it.
  abbrev pub closed_trade : TradeResponse F → TradeHistory F → TradeHistory F
  closed_trade r t = record t {
    status = "CLOSED";
    close_time = some (o.unix r.timestamp);
    close_price = r.close_price;
    close_reason = r.close_reason;
  }

  -- The accounts after the profit and the margin of `t` are paid out in one write.
  abbrev pub settled :
      TradeResponse F → TradeHistory F → Account F → Coll (Account F) → Coll (Account F)
  settled r t a as' =
      (o.update_one (Account F) (Accounts.has_id a.id)
        (Accounts.replaced_by (record a { balance = add a.balance (add (profit r t) (margin t)) }))
        as').0

  abbrev pub ClosingEnds :
      TradeResponse F → TradeHistory F → Account F → World → Result (Unit {0}) → World → Type 0
  ClosingEnds r t a w (ok _) w' =
      (r.status ≡ "SUCCESS")
      × (t.account_type ≡ r.account_type)
      × ((w'.accounts ≡ settled r t a w.accounts) ⊎ (w'.accounts ≡ w.accounts))
      × (w'.trades ≡ upserted (closed_trade r t) w.trades)
      × (w'.broadcasts ≡ trade_update (closed_trade r t) ∷ w.broadcasts)
  ClosingEnds r t a w (err _) w' =
      (w'.trades ≡ w.trades)
      × (w'.broadcasts ≡ w.broadcasts)
      × ((w'.accounts ≡ settled r t a w.accounts) ⊎ (w'.accounts ≡ w.accounts))
  ClosingEnds r t a w panic w' = ⊥

  -- The rest of the handler once the profit is paid.
  store : ℕ → TradeResponse F → TradeHistory F → Action (Unit {0})
  store user r t = do
    t' ← save_trade t
    ignore (log_action user "TradeResponse" "Trade closed" "")
    post_response r.trade_id r
    broadcast (trade_update t')

  abbrev Stores : TradeHistory F → World → Result (Unit {0}) → World → Type 0
  Stores t w (ok _) w' =
      (w'.trades ≡ upserted t w.trades)
      × (w'.accounts ≡ w.accounts)
      × (w'.broadcasts ≡ trade_update t ∷ w.broadcasts)
  Stores t w (err _) w' =
      (w'.trades ≡ w.trades) × (w'.accounts ≡ w.accounts) × (w'.broadcasts ≡ w.broadcasts)
  Stores t w panic w' = ⊥

  store-Stores :
      (user : ℕ) (r : TradeResponse F) (t : TradeHistory F) (w : World)
      → t.id ≢ 0
      → let (x, w') = store user r t w in Stores t w x w'
  unfolding store
  store-Stores user r t w known = elim (save_trade_lem t w known) [
    | inl lost ↦ rw lost (refl, refl, refl)
    | inr stored ↦
        let w1 : World = record (called w) { trades = upserted t w.trades } in
        let w2 = (ignore (log_action user "TradeResponse" "Trade closed" "") w1).1 in
        rw stored (
          ground (
            arith,
            ignored_log user "TradeResponse" "Trade closed" "" w1,
            post_response_frame r.trade_id r w2,
          ))
  ]

  after_reads :
      (r : TradeResponse F) (t : TradeHistory F) (a : Account F) (w : World)
      → t.id ≢ 0
      → r.status ≡ "SUCCESS"
      → t.account_type ≡ r.account_type
      → let paid = record a { balance = add a.balance (add (profit r t) (margin t)) } in
        let (x, w') =
          (ignore (update_account paid) >> store t.user_id r (closed_by r t)) (called (called w)) in
        ClosingEnds r t a w x w'
  unfolding update_account closed_by
  after_reads r t a w known success same =
      let w2 = called (called w) in
      let w3 = called w2 in
      let w4 : World = record w3 { accounts = settled r t a w.accounts } in
      ground (
        arith,
        store-Stores t.user_id r (closed_by r t) w3,
        store-Stores t.user_id r (closed_by r t) w4,
      )

  pub handle_close_trade_response-ClosingEnds :
      (r : TradeResponse F) (i : ℕ) (t : TradeHistory F) (a : Account F) (w : World)
      → IsAbout r w i t a
      → t.id ≢ 0
      → let (x, w') = handle_close_trade_response r w in ClosingEnds r t a w x w'
  unfolding handle_close_trade_response get_account_by_id get_trade_by_id store profit_of margin_of
  handle_close_trade_response-ClosingEnds r i t a w (hex, ht, ha) known =
      elim (Bool-cases (r.status =s= "SUCCESS")) [
        | inr other ↦ rw other (refl, refl, inr refl)
        | inl success ↦ elim (Bool-cases (o.fails w.calls)) [
          | inl lost ↦ rw (success, hex, lost) (refl, refl, inr refl)
          | inr f0 ↦ elim (Bool-cases (t.account_type =s= r.account_type)) [
            | inr other ↦ rw (success, hex, f0, ht, other) (refl, refl, inr refl)
            | inl same ↦ elim (Bool-cases (o.fails (suc w.calls))) [
              | inl lost ↦ rw (success, hex, f0, ht, same, lost) (refl, refl, inr refl)
              | inr f1 ↦
                  rw (success, hex, f0, ht, same, f1, ha)
                    (after_reads r t a w known ((=s=_iff _ _).0 success) ((=s=_iff _ _).0 same))
            ]
          ]
        ]
      ]

  -- If an upsert is found again, a trade with an id that is found and then stored as closed is
  -- found with the status CLOSED and the closing time of the answer, but with the closing price
  -- and the reason that it had before.
  pub upserted-closed_by :
      (found : UpsertsFound) (r : TradeResponse F) (t : TradeHistory F) (c : Coll (TradeHistory F))
      → t.id ≢ 0
      → o.find_one (TradeHistory F) (has_id t.id) c ≡ some t
      → (t' : TradeHistory F) × (o.find_one
            (TradeHistory F)
            (has_id t.id)
            (upserted (closed_by r t) c)
          ≡ some t')
        × (t'.status ≡ "CLOSED")
        × (t'.close_time ≡ some (o.unix r.timestamp))
        × (t'.close_price ≡ t.close_price)
        × (t'.close_reason ≡ t.close_reason)
  unfolding upserted closed_by set_trade has_id
  upserted-closed_by found r t c known e = (
    set_trade (closed_by r t) t,
    found (TradeHistory F) (has_id t.id) (set_trade (closed_by r t)) _ c t e (ground arith),
    refl,
    refl,
    refl,
    refl,
  )
