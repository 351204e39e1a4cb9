-- ===== src/Api/Routes/OfAdmins.antt =====
-- The routes of api/routes.go behind `AdminAuthMiddleware`.
use fxtrader.Base.{String, Option}
use fxtrader.Base.Int.{ℤ}
use fxtrader.Outside.{Outside}
use fxtrader.Model.{User, Symbol, Rule}
use fxtrader.Api.{Reply, Context, Handler}
use fxtrader.Api.Auth.{UserActivationRequest, update_user_activation}
use fxtrader.Api.Users.{edit, show_users, show_me}
use fxtrader.Api.Trades.{show_all_trades, show_trade}
use fxtrader.Api.Reviews.{
  TransactionReviewRequest, show_transactions_of, show_all_transactions, show_transaction,
  show_transaction_by_path, approve, deny, approve_leadership, deny_leadership,
  show_pending_leaderships, show_leaders,
}
use fxtrader.Api.Catalog.{
  show_all_subscriptions, add_symbol, show_symbols, edit_symbol, drop_symbol, add_rule, show_rule,
  show_rules, edit_rule, drop_rule, show_logs, show_logs_of,
}
use fxtrader.Api.Overview.{show_overview, show_all_referrals}
use fxtrader.Api.Routes.Requests.{Libraries, Request}

-- A route with the parameter of its path, the numbers of its query and what its body binds to.
pub data AdminRoute (F : Type 0) : Type 0 where
  get_symbols : AdminRoute F
  post_symbols : Option (Symbol F) → AdminRoute F
  put_symbols_id : String → Option (Symbol F) → AdminRoute F
  delete_symbols_id : String → AdminRoute F
  get_logs : Option ℤ → Option ℤ → AdminRoute F
  get_overview : AdminRoute F
  get_logs_user : String → Option ℤ → Option ℤ → AdminRoute F
  post_rules : Option Rule → AdminRoute F
  get_rules : AdminRoute F
  get_rules_id : String → AdminRoute F
  put_rules_id : String → Option Rule → AdminRoute F
  delete_rules_id : String → AdminRoute F
  get_users : AdminRoute F
  get_users_id : String → AdminRoute F
  put_users_edit : Option (User F) → AdminRoute F
  put_users_activation : Option UserActivationRequest → AdminRoute F
  get_trades : AdminRoute F
  get_trades_id : String → AdminRoute F
  get_transactions : AdminRoute F
  get_transactions_path : String → AdminRoute F
  get_transactions_user : String → AdminRoute F
  get_transactions_id : String → AdminRoute F
  put_transactions_approve : String → Option TransactionReviewRequest → AdminRoute F
  put_transactions_deny : String → Option TransactionReviewRequest → AdminRoute F
  post_leader_approve : String → Option String → AdminRoute F
  post_leader_deny : String → Option String → AdminRoute F
  get_leader_requests : AdminRoute F
  get_copy_trade_leaders : AdminRoute F
  get_copy_trades_all : AdminRoute F
  get_referrals : Option ℤ → Option ℤ → AdminRoute F

module _ ⦃o : Outside⦄ where
  open o use {F}

  -- The handlers, in the context that the authentication has set.
  unfoldable pub handle_admin : Libraries → Request → AdminRoute F → Context → Handler (Reply F)
  handle_admin l q get_symbols c = show_symbols q.ip
  handle_admin l q (post_symbols s) c = add_symbol l.is_clock q.ip s
  handle_admin l q (put_symbols_id x s) c = edit_symbol q.ip x s
  handle_admin l q (delete_symbols_id x) c = drop_symbol q.ip x
  handle_admin l q (get_logs page limit) c = show_logs page limit
  handle_admin l q get_overview c = show_overview c
  handle_admin l q (get_logs_user x page limit) c = show_logs_of x page limit
  handle_admin l q (post_rules r) c = add_rule r
  handle_admin l q get_rules c = show_rules
  handle_admin l q (get_rules_id x) c = show_rule x
  handle_admin l q (put_rules_id x r) c = edit_rule x r
  handle_admin l q (delete_rules_id x) c = drop_rule x
  handle_admin l q get_users c = show_users q.ip
  handle_admin l q (get_users_id x) c = show_me q.ip x
  handle_admin l q (put_users_edit u) c = edit q.ip u
  handle_admin l q (put_users_activation r) c = update_user_activation r
  handle_admin l q get_trades c = show_all_trades c
  handle_admin l q (get_trades_id x) c = show_trade c x
  handle_admin l q get_transactions c = show_all_transactions
  handle_admin l q (get_transactions_path x) c = show_transaction_by_path c x
  handle_admin l q (get_transactions_user x) c = show_transactions_of x
  handle_admin l q (get_transactions_id x) c = show_transaction c x
  handle_admin l q (put_transactions_approve x r) c = approve c x r
  handle_admin l q (put_transactions_deny x r) c = deny c x r
  handle_admin l q (post_leader_approve x r) c = approve_leadership c x r
  handle_admin l q (post_leader_deny x r) c = deny_leadership c x r
  handle_admin l q get_leader_requests c = show_pending_leaderships c
  handle_admin l q get_copy_trade_leaders c = show_leaders c
  handle_admin l q get_copy_trades_all c = show_all_subscriptions
  handle_admin l q (get_referrals page limit) c = show_all_referrals c page limit
