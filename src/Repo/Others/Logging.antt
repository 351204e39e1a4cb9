-- ===== src/Repo/Others/Logging.antt =====
-- A log entry whose error is dropped changes the log and the count of calls alone.
use fxtrader.Base.{ℕ, String, ◌≡◌, arith}
use fxtrader.Base.Result.{ok}
use fxtrader.Outside.{Outside}
use fxtrader.World.{World, ignore}
use fxtrader.Repo.Others.{log_action}

module _ ⦃o : Outside⦄ where
  pub ignored_log :
      (user : ℕ) (action description ip : String) (w : World)
      → let (r, w') = ignore (log_action user action description ip) w in
        (r ≡ ok tt) × (w' ≡ record w { calls = w'.calls; logs = w'.logs })
  unfolding log_action
  ignored_log user action description ip w = ground arith
