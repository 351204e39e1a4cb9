-- ===== src/Service/Trade/Tails.antt =====
-- The calls with which the handlers of the bridge's answers end: the saving of a known trade, the
-- log entry, the posting of the answer on the trade's channel.
use fxtrader.Base.{ℕ, String, ◌≡◌, ◌≢◌, ◌⊎◌, inl, inr, arith, Bool-cases}
use fxtrader.Base.Result.{ok, err, driver}
use fxtrader.Outside.{Outside}
use fxtrader.Model.Trade.{TradeHistory, TradeResponse}
use fxtrader.World.{World, called, ignore, ◌>>◌}
use fxtrader.Repo.Trades.{save_trade, upserted}
use fxtrader.Repo.Others.{log_action}
use fxtrader.Repo.Others.Logging.{ignored_log}
use fxtrader.Service.Trade.Channels.{post_response}

module _ ⦃o : Outside⦄ where
  open o use {F}

  -- A trade with an id is upserted and returned, or the call fails and changes nothing.
  pub save_trade_lem :
      (t : TradeHistory F) (w : World)
      → t.id ≢ 0
      → (save_trade t w ≡ (err driver, called w))
        ⊎ (save_trade t w ≡ (ok t, record (called w) { trades = upserted t w.trades }))
  unfolding save_trade
  save_trade_lem t w known = elim (Bool-cases (o.fails w.calls)) [
    | inl lost ↦ inl (ground (arith, lost))
    | inr stored ↦ inr (ground (arith, stored))
  ]

  pub post_response_frame :
      (key : String) (r : TradeResponse F) (w : World)
      → let (x, w') = post_response key r w in
        (x ≡ ok tt) × (w' ≡ record w { channels = w'.channels })
  unfolding post_response
  post_response_frame key r w = ground arith

  -- The two last calls of both handlers.
  pub log_post_frame :
      (user : ℕ) (description : String) (r : TradeResponse F) (w : World)
      → let (x, w') =
          (ignore (log_action user "TradeResponse" description "") >> post_response r.trade_id r)
            w in
        (x ≡ ok tt) × (w' ≡ record w { calls = w'.calls; logs = w'.logs; channels = w'.channels })
  log_post_frame user description r w =
      let w1 = (ignore (log_action user "TradeResponse" description "") w).1 in
      ground (
        arith,
        ignored_log user "TradeResponse" description "" w,
        post_response_frame r.trade_id r w1,
      )
