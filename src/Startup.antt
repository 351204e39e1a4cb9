-- ===== src/Startup.antt =====
-- `main` of backend/cmd/server/main.go up to its services, and how it wires them. A step that
-- fails ends the program. The constructors of the repositories and services keep their arguments.
pub mod Crash
use fxtrader.Base.{ℕ, String, Bool, true, false, Option, if◌then◌else◌}
use fxtrader.Base.Int.{ℤ}
use fxtrader.Base.Result.{Error, wrap}
use fxtrader.Outside.{Outside}
use fxtrader.Model.Trade.{TradeHistory}
use fxtrader.World.{World, Action, pure, crash, ◌>>=◌, ◌>>◌, on_error, ignore, external}
use fxtrader.Config.{Config, load, ensure_admin_user}
use fxtrader.Service.Copy.{mirror_trade}

-- Whether the field `copyTradeService` of a trade service is set: `NewTradeService` stores its last
-- argument there, and no method changes it.
pub record TradeService : Type 0 where
  pub has_copy_trade_service : Bool

unfoldable pub new_trade_service : Bool → TradeService
new_trade_service copies = record { has_copy_trade_service = copies }

pub record Program : Type 0 where
  pub config : Config
  pub trade_service : TradeService

module _ ⦃o : Outside⦄ where
  open o use {F}

  -- A call of the database's client, which has an error or nothing as its result.
  abbrev reached : Action (Unit {0})
  reached = external (pure tt)

  -- The arguments are those of `load` and of `ensure_admin_user`.
  unfoldable pub start_up :
      (String → String)
      → (String → Option ℤ)
      → (String → Option String)
      → (ℕ → String)
      → Action Program
  unfolding new_trade_service
  start_up getenv atoi hash format = do
    config ← on_error (λ w. (load getenv atoi, w)) (wrap "Failed to load config")
    on_error reached (wrap "Failed to connect to MongoDB")
    on_error reached (wrap "Failed to ping MongoDB")
    on_error (ensure_admin_user hash format config.admin_user config.admin_pass)
        (wrap "Failed to ensure admin user")
    pure (record { config = config; trade_service = new_trade_service false })

  -- The goroutine that `PlaceTrade` starts with a trade; it logs an error. A call of a method on a
  -- nil interface panics, and a panic outside a request ends the program.
  unfoldable pub mirror_goroutine :
      TradeService → (World → World) → TradeHistory F × String → Action (Unit {0})
  mirror_goroutine s others x =
      if s.has_copy_trade_service then ignore (mirror_trade others x.0 x.1) else crash
