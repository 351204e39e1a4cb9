-- ===== src/Service/Transactions.antt =====
-- `transactionService` of service/transaction_service.go.
pub mod Review
pub mod Once
pub mod History
pub mod Overdraft
use fxtrader.Base.{ℕ, String, Bool, Option, none, some, ◌=s=◌, ◌!=s◌, ◌&&◌, if◌then◌else◌}
use fxtrader.Base.Int.{pos}
use fxtrader.Base.Result.{new, wrap}
use fxtrader.Outside.{Outside}
use fxtrader.Model.{Transaction}
use fxtrader.World.{Action, pure, ◌>>=◌, ◌>>◌, raise_if, on_error, present, ignore, now}
use fxtrader.Repo.Users.{add_balance, subtract_balance}
use fxtrader.Repo.Transactions.{save_transaction, get_transaction_by_id, update_transaction}
use fxtrader.Repo.Others.{log_action}

module _ ⦃o : Outside⦄ where
  open o use {F, float, le}

  -- The log entries of transactions carry the zero id as user.
  abbrev log : String → String → Action (Unit {0})
  log action description = ignore (log_action 0 action description "")

  unfoldable pub create_transaction : String → Transaction F → Action (Transaction F)
  create_transaction user t = do
    raise_if ((t.transaction_type !=s "DEPOSIT") && (t.transaction_type !=s "WITHDRAWAL"))
        (new "invalid transaction type")
    raise_if ((t.payment_method !=s "CARD_TO_CARD") && (t.payment_method !=s "DEPOSIT_RECEIPT"))
        (new "invalid payment method")
    raise_if (le t.amount (float (pos 0))) (new "amount must be positive")
    raise_if ((t.payment_method =s= "DEPOSIT_RECEIPT") && (t.receipt_image =s= ""))
        (new "receipt image required for deposit receipt method")
    t' ← save_transaction (record t { user_id = user; status = "PENDING" })
    log "CreateTransaction" "Transaction requested"
    pure t'

  unfoldable pub get_transaction : String → Action (Option (Transaction F))
  get_transaction id = do
    i ← present (o.from_hex id) (new "invalid transaction ID")
    get_transaction_by_id i

  -- The checks that `ApproveTransaction` and `DenyTransaction` begin with.
  unfoldable pub pending : String → Action (ℕ × Transaction F)
  pending id = do
    i ← present (o.from_hex id) (new "invalid transaction ID")
    found ← get_transaction_by_id i
    t ← present found (new "transaction not found")
    raise_if (t.status !=s "PENDING") (new "transaction already reviewed")
    pure (i, t)

  unfoldable pub reviewed : String → String → String → ℕ → Transaction F → Transaction F
  reviewed status reason comment time t = record t {
    status = status;
    response_time = some time;
    reason = reason;
    admin_comment = comment;
  }

  -- The switch on the type; another type moves no balance.
  unfoldable pub move_balance : ℕ → Transaction F → Action (Unit {0})
  move_balance user t =
      if t.transaction_type =s= "DEPOSIT"
      then on_error (add_balance user t.amount) (wrap "failed to add deposit to balance")
      else if t.transaction_type =s= "WITHDRAWAL"
      then on_error (subtract_balance user t.amount)
          (wrap "failed to subtract withdrawal from balance")
      else pure tt

  abbrev described : String → String → String → String → String
  described type deposit withdrawal other =
      if type =s= "DEPOSIT" then deposit else if type =s= "WITHDRAWAL" then withdrawal else other

  unfoldable pub approve_transaction : String → String → String → Action (Unit {0})
  unfolding pending move_balance
  approve_transaction id reason comment = do
    (i, t) ← pending id
    time ← now
    update_transaction i (reviewed "APPROVED" reason comment time t)
    user ← present (o.from_hex t.user_id) (new "invalid user ID")
    move_balance user t
    log "ApproveTransaction" (
        described t.transaction_type "Deposit approved" "Withdrawal approved"
          "Transaction approved")

  unfoldable pub deny_transaction : String → String → String → Action (Unit {0})
  unfolding pending
  deny_transaction id reason comment = do
    (i, t) ← pending id
    time ← now
    update_transaction i (reviewed "REJECTED" reason comment time t)
    log "DenyTransaction"
        (described t.transaction_type "Deposit denied" "Withdrawal denied" "Transaction denied")
