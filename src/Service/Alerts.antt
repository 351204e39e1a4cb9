-- ===== src/Service/Alerts.antt =====
-- `alertService` of service/alert_service.go. Its `notifyFunc` is the constant success that
-- `NewAlertService` sets, so it does not show here.
pub mod Levels
use fxtrader.Base.{
  ℕ, String, Bool, true, false, Option, none, some, List, [], ◌∷◌, ltb, find?, ◌=s=◌, ◌!=s◌, ◌&&◌,
  ◌||◌, if◌then◌else◌,
}
use fxtrader.Base.Int.{pos}
use fxtrader.Base.Result.{Result, ok, err, panic, new}
use fxtrader.Outside.{Outside}
use fxtrader.Model.{Alert, Symbol, PriceData}
use fxtrader.World.{
  World, Action, pure, raise, crash, continue, ◌>>=◌, ◌>>◌, raise_if, on_error, present, ignore,
  attempt, now,
}
use fxtrader.Repo.Others.{
  log_action, get_all_symbols, save_alert, get_alert_by_id, get_pending_alerts, update_alert,
}

module _ ⦃o : Outside⦄ where
  open o use {F, float, le}

  -- `PriceTarget == nil || *PriceTarget <= 0`
  unfoldable pub lacks_target : Option F → Bool
  lacks_target none = true
  lacks_target (some x) = le x (float (pos 0))

  unfoldable pub is_none : {A : Type 0} → Option A → Bool
  is_none none = true
  is_none (some _) = false

  -- `TriggerTime == nil || TriggerTime.Before(time.Now())`
  unfoldable pub check_time : Option ℕ → Action (Unit {0})
  check_time none = raise (new "trigger time required and must be in the future")
  check_time (some t) = do
    time ← now
    raise_if (ltb t time) (new "trigger time required and must be in the future")

  -- The two switches on the type of an alert.
  unfoldable pub check_condition : Alert F → Action (Unit {0})
  unfolding check_time lacks_target is_none
  check_condition a =
      if a.alert_type =s= "PRICE"
      then (do
        raise_if (lacks_target a.condition.price_target)
            (new "price target required and must be positive")
        raise_if (is_none a.condition.sl && is_none a.condition.tp)
            (new "comparison must be ABOVE or BELOW"))
      else if a.alert_type =s= "TIME"
      then check_time a.condition.trigger_time
      else raise (new "invalid alert type")

  unfoldable pub has_symbol_name : String → Symbol F → Bool
  has_symbol_name name s = s.symbol_name =s= name

  unfoldable pub create_alert : String → Alert F → Action (Alert F)
  unfolding check_condition
  create_alert user a = do
    check_condition a
    symbols ← on_error get_all_symbols (λ _. new "failed to fetch symbols")
    symbol ← present (find? (has_symbol_name a.symbol_name) symbols) (new "symbol not found")
    saved ← save_alert (record a { user_id = user; status = "PENDING" })
    ignore (log_action 0 "CreateAlert" "Alert created" "")
    pure saved

  unfoldable pub get_alert : String → Action (Option (Alert F))
  get_alert id = do i ← present (o.from_hex id) (new "invalid alert ID"); get_alert_by_id i

  -- `x <= *p`, `x >= *p`: a nil pointer is a panic
  abbrev le_deref : F → Option F → Result Bool
  le_deref x none = panic
  le_deref x (some y) = ok (le x y)

  abbrev ge_deref : F → Option F → Result Bool
  ge_deref x none = panic
  ge_deref x (some y) = ok (le y x)

  -- Go's `&&` between tests that may panic.
  abbrev and_then : Result Bool → Result Bool → Result Bool
  and_then (ok true) r = r
  and_then (ok false) r = ok false
  and_then (err e) r = err e
  and_then panic r = panic

  abbrev or_both : Result Bool → Result Bool → Result Bool
  or_both (ok a) (ok b) = ok (a || b)
  or_both (ok a) (err e) = err e
  or_both (ok a) panic = panic
  or_both (err e) r = err e
  or_both panic r = panic

  -- The two tests on the prices; both are made.
  unfoldable pub should_trigger : PriceData F → Alert F → Result Bool
  should_trigger p a =
      or_both (and_then (le_deref p.ask a.condition.sl) (ge_deref p.ask a.condition.price_target))
        (and_then (ge_deref p.bid a.condition.tp) (le_deref p.bid a.condition.price_target))

  abbrev of_result : {A : Type 0} → Result A → Action A
  of_result r w = (r, w)

  unfoldable pub triggered : ℕ → Alert F → Alert F
  triggered time a = record a { status = "TRIGGERED"; triggered_at = some time }

  -- The end of a round: a failed update or log entry ends it without an error.
  unfoldable pub trigger : ℕ → String → Alert F → Action (Unit {0})
  trigger time description a =
      ignore (do update_alert a.id (triggered time a); log_action 0 "AlertTriggered" description "")

  abbrev fire : Alert F → Bool → Action (Unit {0})
  fire a false = pure tt
  fire a true = do time ← now; trigger time "Price alert triggered" a

  -- One round of the loop of `ProcessPriceForAlerts`.
  unfoldable pub process_price : PriceData F → Alert F → Action (Unit {0})
  unfolding trigger
  process_price p a =
      if (a.symbol_name !=s p.symbol) || (a.alert_type !=s "PRICE")
      then pure tt
      else (do fires ← of_result (should_trigger p a); fire a fires)

  unfoldable pub for_each : {A : Type 0} → (A → Action (Unit {0})) → List A → Action (Unit {0})
  for_each f [] = pure tt
  for_each f (x ∷ xs) = f x >> for_each f xs

  unfoldable pub process_price_for_alerts : PriceData F → Action (Unit {0})
  unfolding for_each process_price
  process_price_for_alerts p = do alerts ← get_pending_alerts; for_each (process_price p) alerts

  -- `TriggerTime != nil && now.After(*TriggerTime)`
  unfoldable pub is_due : ℕ → Alert F → Bool
  is_due time a =
      (a.alert_type =s= "TIME")
      && (elim a.condition.trigger_time [ none ↦ false | some t ↦ ltb t time ])

  unfoldable pub process_time : ℕ → Alert F → Action (Unit {0})
  unfolding trigger
  process_time time a = if is_due time a then trigger time "Time alert triggered" a else pure tt

  unfoldable pub process_time_based_alerts : Action (Unit {0})
  unfolding for_each process_time
  process_time_based_alerts = do
    alerts ← get_pending_alerts
    time ← now
    for_each (process_time time) alerts
