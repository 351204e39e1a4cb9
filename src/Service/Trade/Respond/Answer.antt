-- ===== src/Service/Trade/Respond/Answer.antt =====
-- What the bridge's answer to a trade request writes.
use fxtrader.Base.{
  ℕ, suc, some, ◌≡◌, ◌≢◌, ◌⊎◌, inl, inr, refl, arith, eq_iff, ◌=s=◌, if◌then◌else◌, Bool-cases,
}
use fxtrader.Base.Int.{pos}
use fxtrader.Base.Result.{Result, ok, err, panic}
use fxtrader.Outside.{Outside}
use fxtrader.Model.{Account}
use fxtrader.Model.Trade.{TradeHistory, TradeResponse}
use fxtrader.World.{World, Action, called, ignore, ◌>>=◌, ◌>>◌}
use fxtrader.Service.Trade.Tails.{save_trade_lem, log_post_frame}
use fxtrader.Repo.Accounts
use fxtrader.Repo.Accounts.{get_account_by_id, update_account}
use fxtrader.Repo.Trades
use fxtrader.Repo.Trades.{get_trade_by_id, save_trade, upserted}
use fxtrader.Repo.Others.{log_action}
use fxtrader.Service.Trade.Channels.{post_response}
use fxtrader.Service.Trade.Respond.{
  less_matched, margin_of, apply_status, reject, handle_trade_response,
}

module _ ⦃o : Outside⦄ where
  open o use {F, Coll, float, add, sub, mul, div, lt}

  -- The trade and the account that an answer is about.
  abbrev pub IsAbout : TradeResponse F → World → ℕ → TradeHistory F → Account F → Type 0
  IsAbout r w i t a =
      (o.from_hex r.trade_id ≡ some i)
      × (o.find_one (TradeHistory F) (Trades.has_id i) w.trades ≡ some t)
      × (o.find_one (Account F) (Accounts.has_id t.account_id) w.accounts ≡ some a)

  -- The margin of what is left of a trade's volume.
  abbrev pub margin : TradeHistory F → F
  margin t = div (mul t.volume t.entry_price) (float t.leverage)

  -- The trade less the volume that the answer says was matched.
  abbrev pub rest_of : TradeResponse F → TradeHistory F → TradeHistory F
  rest_of r t =
      if lt (float (pos 0)) r.matched_volume
      then record t { volume = sub t.volume r.matched_volume }
      else t

  abbrev pub released : TradeHistory F → Account F → Coll (Account F) → Coll (Account F)
  released t a as' =
      (o.update_one (Account F) (Accounts.has_id a.id)
        (Accounts.replaced_by (record a { balance = add a.balance (margin t) })) as').0

  -- The trade that the answer makes of `t`, at a time.
  abbrev pub answered_at : ℕ → TradeResponse F → TradeHistory F → TradeHistory F
  answered_at time r t =
      if r.status =s= "MATCHED"
      then record t { status = "OPEN"; matched_trade_id = r.matched_trade_id }
      else if r.status =s= "PENDING"
      then record t { status = "PENDING" }
      else record t { status = "CLOSED"; close_time = some time; close_reason = r.status }

  abbrev pub AnswerEnds :
      TradeResponse F → TradeHistory F → Account F → World → Result (Unit {0}) → World → Type 0
  AnswerEnds r t a w (ok _) w' =
      (w'.trades ≡ upserted (answered_at (o.clock (suc (suc w.calls))) r (rest_of r t)) w.trades)
      × ((r.status ≡ "MATCHED") ⊎ (r.status ≡ "PENDING") → w'.accounts ≡ w.accounts)
      × ((w'.accounts ≡ w.accounts) ⊎ (w'.accounts ≡ released (rest_of r t) a w.accounts))
  AnswerEnds r t a w (err _) w' =
      (w'.trades ≡ w.trades)
      × ((w'.accounts ≡ w.accounts) ⊎ (w'.accounts ≡ released (rest_of r t) a w.accounts))
  AnswerEnds r t a w panic w' = ⊥

  -- The rest of the handler once the trade has its new fields.
  store : ℕ → TradeResponse F → TradeHistory F → Action (Unit {0})
  store user r t = do
    t' ← save_trade t
    ignore (log_action user "TradeResponse" "Trade status updated" "")
    post_response r.trade_id r

  abbrev Stores : TradeHistory F → World → Result (Unit {0}) → World → Type 0
  Stores t w (ok _) w' = (w'.trades ≡ upserted t w.trades) × (w'.accounts ≡ w.accounts)
  Stores t w (err _) w' = (w'.trades ≡ w.trades) × (w'.accounts ≡ w.accounts)
  Stores t w panic w' = ⊥

  store-Stores :
      (user : ℕ) (r : TradeResponse F) (t : TradeHistory F) (w : World)
      → t.id ≢ 0
      → let (x, w') = store user r t w in Stores t w x w'
  unfolding store
  store-Stores user r t w known = elim (save_trade_lem t w known) [
    | inl lost ↦ rw lost (refl, refl)
    | inr stored ↦
        let w1 : World = record (called w) { trades = upserted t w.trades } in
        rw stored (ground (arith, log_post_frame user "Trade status updated" r w1))
  ]

  after_reads :
      (r : TradeResponse F) (t : TradeHistory F) (a : Account F) (w : World)
      → t.id ≢ 0
      → let (x, w') =
          (apply_status r a (less_matched r t) >>= store t.user_id r) (called (called w)) in
        AnswerEnds r t a w x w'
  unfolding apply_status reject update_account less_matched margin_of
  after_reads r t a w known =
      let time = o.clock (suc (suc w.calls)) in
      let t' = answered_at time r (rest_of r t) in
      let w2 = called (called w) in
      let w3 = called (called w2) in
      let w4 : World = record w3 { accounts = released (rest_of r t) a w.accounts } in
      ground (
        arith,
        eq_iff r.status "MATCHED",
        eq_iff r.status "PENDING",
        eq_iff "PENDING" "MATCHED",
        store-Stores t.user_id r t' w2,
        store-Stores t.user_id r t' w3,
        store-Stores t.user_id r t' w4,
      )

  pub handle_trade_response-AnswerEnds :
      (r : TradeResponse F) (i : ℕ) (t : TradeHistory F) (a : Account F) (w : World)
      → IsAbout r w i t a
      → t.id ≢ 0
      → let (x, w') = handle_trade_response r w in AnswerEnds r t a w x w'
  unfolding handle_trade_response get_account_by_id get_trade_by_id store
  handle_trade_response-AnswerEnds r i t a w (hex, ht, ha) known =
      elim (Bool-cases (o.fails w.calls)) [
        | inl lost ↦ rw (hex, lost) (refl, inl refl)
        | inr f0 ↦ elim (Bool-cases (o.fails (suc w.calls))) [
          | inl lost ↦ rw (hex, f0, ht, lost) (refl, inl refl)
          | inr f1 ↦ rw (hex, f0, ht, f1, ha) (after_reads r t a w known)
        ]
      ]
