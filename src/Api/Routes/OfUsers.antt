-- ===== src/Api/Routes/OfUsers.antt =====
-- The routes of api/routes.go behind `UserAuthMiddleware`.
use fxtrader.Base.{String, Option}
use fxtrader.Base.Int.{ℤ}
use fxtrader.Outside.{Outside}
use fxtrader.Api.{Reply, Context, Handler, text_of}
use fxtrader.Api.Users.{show_user}
use fxtrader.Api.Accounts.{
  CreateAccountRequest, TransferRequest, open_account, close_account, show_accounts, transfer,
}
use fxtrader.Api.Trades.{
  TradeRequest, ModifyTradeRequest, place, close, stream, modify, show_user_trades, show_trade,
}
use fxtrader.Api.Reviews.{
  TransactionRequest, request_transaction, show_transactions_of, ask_leadership, show_leaders,
}
use fxtrader.Api.Catalog.{
  AlertRequest, CopyTradeRequest, add_alert, show_alerts, show_alert, follow_leader,
  show_subscriptions, show_subscription,
}
use fxtrader.Api.Overview.{show_referrals}
use fxtrader.Api.Routes.Requests.{Libraries, Request}

-- A route with the parameter of its path, the numbers of its query and what its body binds to.
pub data UserRoute (F : Type 0) : Type 0 where
  get_users_id : String → UserRoute F
  post_leader_requests : Option String → UserRoute F
  get_copy_trade_leaders : UserRoute F
  get_referrals : Option ℤ → Option ℤ → UserRoute F
  post_trades : Option (TradeRequest F) → UserRoute F
  get_trades : UserRoute F
  get_trades_id : String → UserRoute F
  put_trades_close : String → UserRoute F
  get_trades_stream : UserRoute F
  put_trades_modify : String → Option (ModifyTradeRequest F) → UserRoute F
  post_transactions : Option (TransactionRequest F) → UserRoute F
  get_transactions : UserRoute F
  post_alerts : Option (AlertRequest F) → UserRoute F
  get_alerts : UserRoute F
  get_alerts_id : String → UserRoute F
  post_copy_trades : Option (CopyTradeRequest F) → UserRoute F
  get_copy_trades : UserRoute F
  get_copy_trades_id : String → UserRoute F
  post_accounts : Option CreateAccountRequest → UserRoute F
  get_accounts : UserRoute F
  delete_accounts_id : String → UserRoute F
  post_accounts_transfer : Option (TransferRequest F) → UserRoute F

module _ ⦃o : Outside⦄ where
  open o use {F}

  -- The handlers, in the context that the authentication has set.
  unfoldable pub handle_user : Libraries → Request → UserRoute F → Context → Handler (Reply F)
  handle_user l q (get_users_id x) c = show_user q.ip x
  handle_user l q (post_leader_requests r) c = ask_leadership c r
  handle_user l q get_copy_trade_leaders c = show_leaders c
  handle_user l q (get_referrals page limit) c = show_referrals l.describe c page limit
  handle_user l q (post_trades r) c = place l.contains q.others c r
  handle_user l q get_trades c = show_user_trades c
  handle_user l q (get_trades_id x) c = show_trade c x
  handle_user l q (put_trades_close x) c = close q.others c x
  handle_user l q get_trades_stream c = stream q.upgrades c
  handle_user l q (put_trades_modify x r) c = modify q.others c x r
  handle_user l q (post_transactions r) c = request_transaction c r
  handle_user l q get_transactions c = show_transactions_of (text_of c.user_id)
  handle_user l q (post_alerts r) c = add_alert c r
  handle_user l q get_alerts c = show_alerts c
  handle_user l q (get_alerts_id x) c = show_alert c x
  handle_user l q (post_copy_trades r) c = follow_leader q.others c r
  handle_user l q get_copy_trades c = show_subscriptions c
  handle_user l q (get_copy_trades_id x) c = show_subscription c x
  handle_user l q (post_accounts r) c = open_account c r
  handle_user l q get_accounts c = show_accounts c
  handle_user l q (delete_accounts_id x) c = close_account c x
  handle_user l q (post_accounts_transfer r) c = transfer l.contains l.driver_text c r
