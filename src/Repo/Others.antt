-- ===== src/Repo/Others.antt =====
-- The repositories of symbols, logs, leader requests, alerts and copy trades.
pub mod Logging
use fxtrader.Base.{ℕ, String, Bool, true, Option, List, ◌==◌, ◌=s=◌, ◌&&◌}
use fxtrader.Base.Result.{ok}
use fxtrader.Outside.{Outside}
use fxtrader.Model.{Symbol, LeaderRequest, Alert, CopyTradeSubscription, CopyTrade, LogEntry}
use fxtrader.World.{Action, gets, ◌>>=◌, now, new_object_id, external}

module _ ⦃o : Outside⦄ where
  open o use {F}

  unfoldable pub any_symbol : Symbol F → Bool
  any_symbol s = true

  unfoldable pub get_all_symbols : Action (List (Symbol F))
  unfolding any_symbol
  get_all_symbols = external (gets λ w. o.find (Symbol F) any_symbol w.symbols)

  -- `LogAction` and `SaveLog`
  unfoldable pub log_action : ℕ → String → String → String → Action (Unit {0})
  log_action user action description ip = do
    i ← new_object_id
    time ← now
    let entry : LogEntry = record {
      id = i;
      user_id = user;
      action = action;
      description = description;
      ip_address = ip;
      timestamp = time;
    }
    external λ w. (ok tt, record w { logs = o.insert_one LogEntry entry w.logs })

  unfoldable pub request_has_id : ℕ → LeaderRequest → Bool
  request_has_id i r = r.id == i

  unfoldable pub save_leader_request : LeaderRequest → Action LeaderRequest
  save_leader_request r = do
    i ← new_object_id
    created ← now
    updated ← now
    let r' = record r { id = i; created_at = created; updated_at = updated }
    external
        λ w. (ok r', record w { leader_requests = o.insert_one LeaderRequest r' w.leader_requests })

  unfoldable pub get_leader_request_by_id : ℕ → Action (Option LeaderRequest)
  get_leader_request_by_id i =
      external (gets λ w. o.find_one LeaderRequest (request_has_id i) w.leader_requests)

  is_pending_request : LeaderRequest → Bool
  is_pending_request r = r.status =s= "PENDING"

  unfoldable pub get_pending_leader_requests : Action (List LeaderRequest)
  unfolding is_pending_request
  get_pending_leader_requests =
      external (gets λ w. o.find LeaderRequest is_pending_request w.leader_requests)

  unfoldable pub replaced_request : LeaderRequest → LeaderRequest → LeaderRequest
  replaced_request r old = r

  unfoldable pub update_leader_request : LeaderRequest → Action (Unit {0})
  update_leader_request r = do
    updated ← now
    external λ w.
        let r' = record r { updated_at = updated } in
        (
          ok tt,
          record w {
            leader_requests =
                (o.update_one LeaderRequest (request_has_id r.id) (replaced_request r')
                  w.leader_requests).0;
          },
        )

  unfoldable pub alert_has_id : ℕ → Alert F → Bool
  alert_has_id i a = a.id == i

  unfoldable pub save_alert : Alert F → Action (Alert F)
  save_alert a = do
    i ← new_object_id
    created ← now
    let a' = record a { id = i; created_at = created }
    external λ w. (ok a', record w { alerts = o.insert_one (Alert F) a' w.alerts })

  unfoldable pub get_alert_by_id : ℕ → Action (Option (Alert F))
  get_alert_by_id i = external (gets λ w. o.find_one (Alert F) (alert_has_id i) w.alerts)

  unfoldable pub is_pending_alert : Alert F → Bool
  is_pending_alert a = a.status =s= "PENDING"

  unfoldable pub get_pending_alerts : Action (List (Alert F))
  get_pending_alerts = external (gets λ w. o.find (Alert F) is_pending_alert w.alerts)

  unfoldable pub set_triggered : Alert F → Alert F → Alert F
  set_triggered a old = record old { status = a.status; triggered_at = a.triggered_at }

  unfoldable pub update_alert : ℕ → Alert F → Action (Unit {0})
  update_alert i a = external λ w. (
    ok tt,
    record w { alerts = (o.update_one (Alert F) (alert_has_id i) (set_triggered a) w.alerts).0 },
  )

  unfoldable pub save_subscription : CopyTradeSubscription F → Action (CopyTradeSubscription F)
  save_subscription s = do
    i ← new_object_id
    created ← now
    let s' = record s { id = i; created_at = created }
    external λ w. (
      ok s',
      record w { subscriptions = o.insert_one (CopyTradeSubscription F) s' w.subscriptions },
    )

  follows : String → CopyTradeSubscription F → Bool
  follows leader s = (s.leader_id =s= leader) && (s.status =s= "ACTIVE")

  unfoldable pub get_active_subscriptions_by_leader_id :
      String → Action (List (CopyTradeSubscription F))
  unfolding follows
  get_active_subscriptions_by_leader_id leader =
      external (gets λ w. o.find (CopyTradeSubscription F) (follows leader) w.subscriptions)

  unfoldable pub save_copy_trade : CopyTrade → Action CopyTrade
  save_copy_trade c = do
    i ← new_object_id
    created ← now
    let c' = record c { id = i; created_at = created }
    external λ w. (ok c', record w { copy_trades = o.insert_one CopyTrade c' w.copy_trades })
