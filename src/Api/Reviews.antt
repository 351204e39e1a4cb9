-- ===== src/Api/Reviews.antt =====
-- The handlers of transactions and of leader requests: api/transaction_handlers.go and
-- api/leader_handlers.go.
use fxtrader.Base.{ℕ, String, not, Option, none, some, ◌=s=◌, if◌then◌else◌}
use fxtrader.Outside.{Outside}
use fxtrader.Model.{User, Transaction}
use fxtrader.Repo.Users.{get_user_by_id}
use fxtrader.Repo.Pages.{get_transactions_by_user_id, get_all_transactions}
use fxtrader.Service.Transactions.{
  create_transaction, get_transaction, approve_transaction, deny_transaction,
}
use fxtrader.Service.Leaders.{
  create_leader_request, approve_leader_request, deny_leader_request, get_pending,
  get_approved_leaders,
}
use fxtrader.Api.{
  Body, Reply, Context, Handler, text_of, flag_of, pure, ◌>>=◌, ◌>>◌, say, show, tell, call,
  refuse_if, need, bound, deref, quietly, logging, hex_or_zero,
}

pub record TransactionRequest (F : Type 0) : Type 0 where
  pub transaction_type : String
  pub payment_method : String
  pub amount : F
  pub receipt_image : String

pub record TransactionReviewRequest : Type 0 where
  pub reason : String
  pub admin_comment : String

module _ ⦃o : Outside⦄ where
  open o use {F}

  -- The Telegram id of `user, _ := GetUserByID(…)`: a zero user after an error, a nil one if there
  -- is none.
  unfoldable pub telegram_id_of : ℕ → Handler String
  telegram_id_of i = do found ← quietly (get_user_by_id i); read found
    where
      read : Option (Option (User F)) → Handler String
      read none = pure ""
      read (some u) = deref u >>= λ v. pure v.telegram_id

  unfoldable pub request_transaction : Context → Option (TransactionRequest F) → Handler (Reply F)
  unfolding telegram_id_of
  request_transaction c req = do
    r ← bound req
    let user = text_of c.user_id
    telegram ← telegram_id_of (hex_or_zero user)
    let t : Transaction F = record {
      id = 0;
      user_id = "";
      telegram_id = telegram;
      transaction_type = r.transaction_type;
      payment_method = r.payment_method;
      amount = r.amount;
      receipt_image = r.receipt_image;
      status = "";
      request_time = 0;
      response_time = none;
      reason = "";
      admin_comment = "";
    }
    created ← call (create_transaction user t) (tell 400)
    pure (say 201 "Transaction requested")

  -- `GetUserTransactions`, and `GetTransactionsByUser` with the id of the path.
  unfoldable pub show_transactions_of : String → Handler (Reply F)
  show_transactions_of user = do
    ts ← call (get_transactions_by_user_id user) (tell 400)
    pure (show 200 (Body.all_transactions ts))

  unfoldable pub show_all_transactions : Handler (Reply F)
  show_all_transactions = do
    ts ← call get_all_transactions (λ _. say 500 "Failed to retrieve transactions")
    pure (show 200 (Body.all_transactions ts))

  unfoldable pub show_transaction : Context → String → Handler (Reply F)
  show_transaction c id = do
    found ← call (get_transaction id) (λ _. say 400 "Invalid transaction ID")
    t ← need found (say 404 "Transaction not found")
    logging (hex_or_zero (text_of c.user_id)) "GetTransactionByID" "Transaction data retrieved" c.ip
    pure (show 200 (Body.one_transaction t))

  -- The route `/transactions/id/:user_id` has no parameter "id": `c.Param("id")` is "".
  unfoldable pub show_transaction_by_path : Context → String → Handler (Reply F)
  unfolding show_transaction
  show_transaction_by_path c user_id = show_transaction c ""

  -- The text of a reviewed transaction, by its type.
  unfoldable pub review_text : String → String → String → Transaction F → String
  review_text deposit withdrawal other t =
      if t.transaction_type =s= "DEPOSIT"
      then deposit
      else if t.transaction_type =s= "WITHDRAWAL"
      then withdrawal
      else other

  abbrev flat : Option (Option (Transaction F)) → Option (Transaction F)
  flat none = none
  flat (some t) = t

  -- What both reviews do after the service: the amount is read without a test for nil.
  unfoldable pub report_review :
      Context → String → String → String → String → String → Handler (Reply F)
  unfolding review_text
  report_review c id action deposit withdrawal other = do
    found ← quietly (get_transaction id)
    t ← deref (flat found)
    let text = review_text deposit withdrawal other t
    logging 0 action text c.ip
    pure (say 200 text)

  unfoldable pub approve : Context → String → Option TransactionReviewRequest → Handler (Reply F)
  unfolding report_review
  approve c id req = do
    r ← bound req
    call (approve_transaction id r.reason r.admin_comment) (tell 400)
    report_review c id "ApproveTransaction" "Deposit approved" "Withdrawal approved"
        "Transaction approved"

  unfoldable pub deny : Context → String → Option TransactionReviewRequest → Handler (Reply F)
  unfolding report_review
  deny c id req = do
    r ← bound req
    call (deny_transaction id r.reason r.admin_comment) (tell 400)
    report_review c id "DenyTransaction" "Deposit denied" "Withdrawal denied" "Transaction denied"

  -- `if !c.GetBool("is_admin")`
  unfoldable pub admins_only : Context → Handler (Unit {0})
  admins_only c = refuse_if (not (flag_of c.is_admin)) (say 401 "Admin access required")

  -- The request is its reason.
  unfoldable pub ask_leadership : Context → Option String → Handler (Reply F)
  ask_leadership c req = do
    reason ← bound req
    request ← call (create_leader_request (text_of c.user_id) reason) (tell 400)
    logging 0 "CreateLeaderRequest" "Leader request created" c.ip
    pure (say 201 "Leader request created")

  unfoldable pub approve_leadership : Context → String → Option String → Handler (Reply F)
  unfolding admins_only
  approve_leadership c id req = do
    admins_only c
    reason ← bound req
    call (approve_leader_request id reason) (tell 400)
    logging 0 "ApproveLeaderRequest" "Leader request approved" c.ip
    pure (say 200 "Leader request approved")

  unfoldable pub deny_leadership : Context → String → Option String → Handler (Reply F)
  unfolding admins_only
  deny_leadership c id req = do
    admins_only c
    reason ← bound req
    call (deny_leader_request id reason) (tell 400)
    logging 0 "DenyLeaderRequest" "Leader request denied" c.ip
    pure (say 200 "Leader request denied")

  unfoldable pub show_pending_leaderships : Context → Handler (Reply F)
  unfolding admins_only
  show_pending_leaderships c = do
    admins_only c
    rs ← call get_pending (tell 500)
    logging 0 "GetPendingLeaderRequests" "Pending leader requests retrieved" c.ip
    pure (show 200 (Body.all_leader_requests rs))

  unfoldable pub show_leaders : Context → Handler (Reply F)
  show_leaders c = do
    us ← call get_approved_leaders (tell 500)
    logging 0 "GetApprovedLeaders" "Approved leaders retrieved" c.ip
    pure (show 200 (Body.all_users us))
