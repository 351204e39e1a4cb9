-- ===== src/Api/Catalog.antt =====
-- The handlers of alerts, copy trades, symbols, rules, prices and logs: api/alert_handlers.go,
-- api/copy_trade_handlers.go, api/symbol_handlers.go, api/rules_handlers.go, api/handlers.go and
-- api/log_handlers.go.
pub mod Rules
use fxtrader.Base.{ℕ, String, Bool, not, Option, none, some, List, ◌∷◌, ◌=s=◌, ◌||◌, if◌then◌else◌}
use fxtrader.Base.Int.{ℤ, pos, ltb_ℤ}
use fxtrader.Base.Result.{ok}
use fxtrader.Outside.{Outside}
use fxtrader.Model.{Alert, AlertCondition, Symbol, Rule, PriceData}
use fxtrader.World
use fxtrader.World.{World, Action, modify, price_update}
use fxtrader.Repo.Others.{get_all_symbols}
use fxtrader.Repo.Symbols.{
  save_symbol, get_symbol, change_symbol, remove_symbol, save_rule, get_rule, get_all_rules,
  change_rule, remove_rule,
}
use fxtrader.Repo.Pages.{
  get_alerts_by_user_id, get_subscription, get_all_subscriptions, get_subscriptions_by_follower_id,
  get_all_logs, get_logs_by_user_id,
}
use fxtrader.Service.Alerts.{create_alert, get_alert, process_price_for_alerts}
use fxtrader.Service.Copy.{create_subscription}
use fxtrader.Api.{
  Body, Reply, Context, Handler, text_of, pure, ◌>>=◌, ◌>>◌, say, show, tell, call, refuse_if, need,
  bound, logging, reply, follow, Answer,
}

pub record AlertRequest (F : Type 0) : Type 0 where
  pub symbol_name : String
  pub alert_type : String
  pub condition : AlertCondition F
  pub notification_method : String

pub record CopyTradeRequest (F : Type 0) : Type 0 where
  pub leader_id : String
  pub account_type : String
  pub allocated_amount : F

module _ ⦃o : Outside⦄ where
  open o use {F}

  unfoldable pub add_alert : Context → Option (AlertRequest F) → Handler (Reply F)
  add_alert c req = do
    r ← bound req
    a ←
        call
          (create_alert (text_of c.user_id) (record {
            id = 0;
            user_id = "";
            symbol_name = r.symbol_name;
            alert_type = r.alert_type;
            condition = r.condition;
            status = "";
            created_at = 0;
            triggered_at = none;
            notification_method = r.notification_method;
          }))
          (tell 400)
    logging 0 "CreateAlert" "Alert created" c.ip
    pure (say 201 "Alert created")

  unfoldable pub show_alerts : Context → Handler (Reply F)
  show_alerts c = do
    as' ← call (get_alerts_by_user_id (text_of c.user_id)) (tell 400)
    logging 0 "GetUserAlerts" "User alerts retrieved" c.ip
    pure (show 200 (Body.all_alerts as'))

  unfoldable pub show_alert : Context → String → Handler (Reply F)
  show_alert c id = do
    found ← call (get_alert id) (λ _. say 400 "Invalid alert ID")
    a ← need found (say 404 "Alert not found")
    logging 0 "GetAlert" "Alert data retrieved" c.ip
    pure (show 200 (Body.one_alert a))

  unfoldable pub follow_leader :
      (World → World) → Context → Option (CopyTradeRequest F) → Handler (Reply F)
  follow_leader others c req = do
    r ← bound req
    s ←
        call
          (create_subscription others (text_of c.user_id) r.leader_id r.allocated_amount
            r.account_type)
          (tell 400)
    logging 0 "CreateCopySubscription" "Copy trade subscription created" c.ip
    pure (say 201 "Subscription created")

  unfoldable pub show_all_subscriptions : Handler (Reply F)
  show_all_subscriptions = do
    ss ← call get_all_subscriptions (tell 400)
    pure (show 200 (Body.all_subscriptions ss))

  unfoldable pub show_subscriptions : Context → Handler (Reply F)
  show_subscriptions c = do
    ss ← call (get_subscriptions_by_follower_id (text_of c.user_id)) (tell 400)
    logging 0 "GetCopySubscriptions" "User copy subscriptions retrieved" c.ip
    pure (show 200 (Body.all_subscriptions ss))

  unfoldable pub show_subscription : Context → String → Handler (Reply F)
  show_subscription c id = do
    found ← call (get_subscription id) (λ _. say 400 "Invalid subscription ID")
    s ← need found (say 404 "Subscription not found")
    logging 0 "GetCopySubscription" "Copy subscription data retrieved" c.ip
    pure (show 200 (Body.one_subscription s))

  -- `is_clock` is `regexp.MatchString` with the pattern of two digits, a colon and two digits. The
  -- hours are looked at after the symbol is stored.
  unfoldable pub add_symbol : (String → Bool) → String → Option (Symbol F) → Handler (Reply F)
  add_symbol is_clock ip req = do
    r ← bound req
    s ← call (save_symbol r) (λ _. say 500 "Failed to create symbol")
    refuse_if
        (not (is_clock s.trading_hours.close_time) || not (is_clock s.trading_hours.open_time))
        (say 500 "symbol trading hours are not valid")
    logging 0 "CreateSymbol" "Symbol created" ip
    pure (say 201 "Symbol created")

  unfoldable pub show_symbol : String → String → Handler (Reply F)
  show_symbol ip id = do
    found ← call (get_symbol id) (λ _. say 400 "Invalid symbol ID")
    s ← need found (say 404 "Symbol not found")
    logging 0 "GetSymbol" "Symbol data retrieved" ip
    pure (show 200 (Body.one_symbol s))

  unfoldable pub show_symbols : String → Handler (Reply F)
  show_symbols ip = do
    ss ← call get_all_symbols (λ _. say 500 "Failed to retrieve symbols")
    logging 0 "GetAllSymbols" "All symbols retrieved" ip
    pure (show 200 (Body.all_symbols ss))

  unfoldable pub edit_symbol : String → String → Option (Symbol F) → Handler (Reply F)
  edit_symbol ip id req = do
    r ← bound req
    call (change_symbol id r) (λ _. say 500 "Failed to update symbol")
    logging 0 "UpdateSymbol" "Symbol updated" ip
    pure (say 200 "Symbol updated")

  unfoldable pub drop_symbol : String → String → Handler (Reply F)
  drop_symbol ip id = do
    call (remove_symbol id) (λ _. say 500 "Failed to delete symbol")
    logging 0 "DeleteSymbol" "Symbol deleted" ip
    pure (say 200 "Symbol deleted")

  unfoldable pub add_rule : Option Rule → Handler (Reply F)
  add_rule req = do
    r ← bound req
    refuse_if (r.content =s= "") (say 400 "Rule content cannot be empty")
    saved ← call (save_rule r) (λ _. say 500 "Failed to create rule")
    pure (say 201 "Rule created")

  unfoldable pub show_rule : String → Handler (Reply F)
  show_rule id = do
    found ← call (get_rule id) (λ _. say 400 "Invalid rule ID")
    r ← need found (say 404 "Rule not found")
    pure (show 200 (Body.one_rule r))

  unfoldable pub show_rules : Handler (Reply F)
  show_rules = do
    rs ← call get_all_rules (λ _. say 500 "Failed to retrieve rules")
    pure (show 200 (Body.all_rules rs))

  unfoldable pub edit_rule : String → Option Rule → Handler (Reply F)
  edit_rule id req = do
    r ← bound req
    refuse_if (r.content =s= "") (say 400 "Rule content cannot be empty")
    call (change_rule id r) (λ _. say 500 "Failed to update rule")
    pure (say 200 "Rule updated")

  unfoldable pub drop_rule : String → Handler (Reply F)
  drop_rule id = do
    call (remove_rule id) (λ _. say 500 "Failed to delete rule")
    pure (say 200 "Rule deleted")

  -- `ProcessPrice`: the price is kept, given to the hub and then to the alerts.
  unfoldable pub process_new_price : PriceData F → Action (Unit {0})
  process_new_price p =
      World.◌>>◌
        (modify λ w. record w { prices = p ∷ w.prices; broadcasts = price_update p ∷ w.broadcasts })
        (process_price_for_alerts p)

  unfoldable pub take_price : String → Option (PriceData F) → Handler (Reply F)
  unfolding process_new_price
  take_price ip req = do
    p ← bound req
    call (process_new_price p) (λ _. say 500 "Failed to process price")
    logging 0 "ProcessPrice" "Processed new price data" ip
    pure (say 200 "Price received")

  -- A number of the query, as `strconv.Atoi` reads it: at least 1.
  unfoldable pub at_least_one : Option ℤ → String → Handler ℤ
  at_least_one read message = do
    n ← need read (say 400 message)
    refuse_if (ltb_ℤ n (pos 1)) (say 400 message)
    pure n

  unfoldable pub show_logs : Option ℤ → Option ℤ → Handler (Reply F)
  unfolding at_least_one
  show_logs page limit = do
    p ← at_least_one page "Invalid page number"
    l ← at_least_one limit "Invalid limit value"
    ls ← call (get_all_logs p l) (λ _. say 500 "Failed to retrieve logs")
    pure (show 200 (Body.all_logs ls))

  unfoldable pub show_logs_of : String → Option ℤ → Option ℤ → Handler (Reply F)
  unfolding at_least_one
  show_logs_of user page limit = do
    p ← at_least_one page "Invalid page number"
    l ← at_least_one limit "Invalid limit value"
    ls ← call (get_logs_by_user_id user p l) (λ _. say 400 "Invalid user ID")
    pure (show 200 (Body.all_logs ls))
