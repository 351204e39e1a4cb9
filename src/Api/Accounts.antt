-- ===== src/Api/Accounts.antt =====
-- The handlers of accounts and of transfers: api/user_handlers.go.
pub mod Posted
use fxtrader.Base.{ℕ, String, Bool, false, Option, ◌=s=◌, ◌!=s◌, ◌&&◌, ◌||◌, if◌then◌else◌}
use fxtrader.Base.Int.{pos}
use fxtrader.Base.Result.{Error, new, wrap, with_text, mismatch, driver}
use fxtrader.Outside.{Outside}
use fxtrader.Repo.Accounts.{delete_account, get_account_by_name}
use fxtrader.Service.Leaders.{get_user}
use fxtrader.Service.Users.{create_account, get_accounts}
use fxtrader.Service.Transfer.{transfer_balance}
use fxtrader.Api.{
  Body, Reply, Context, Handler, pure, ◌>>=◌, ◌>>◌, say, show, tell, call, refuse_if, need, bound,
  logging,
}

pub record CreateAccountRequest : Type 0 where
  pub account_name : String
  pub account_type : String

pub record TransferRequest (F : Type 0) : Type 0 where
  pub source_id : String
  pub dest_id : String
  pub amount : F
  pub source_type : String
  pub dest_type : String

-- `err.Error() == "account not found"`
unfoldable pub is_not_found : Error → Bool
is_not_found (new s) = s =s= "account not found"
is_not_found (wrap s e) = false
is_not_found (with_text s t) = false
is_not_found (mismatch s a b) = false
is_not_found driver = false

module _ ⦃o : Outside⦄ where
  open o use {F, float}

  -- The user of the context, as a text and as an id.
  unfoldable pub caller : Context → Handler (String × ℕ)
  caller c = do
    user ← need c.user_id (say 401 "Unauthorized")
    i ← need (o.from_hex user) (say 400 "Invalid user ID")
    pure (user, i)

  unfoldable pub open_account : Context → Option CreateAccountRequest → Handler (Reply F)
  unfolding caller
  open_account c req = do
    r ← bound req
    (user, i) ← caller c
    refuse_if ((r.account_type !=s "demo") && (r.account_type !=s "real"))
        (say 400 "Invalid account type")
    call
        (create_account (record {
          id = 0;
          user_id = i;
          account_name = r.account_name;
          account_type = r.account_type;
          wallet_id = "";
          balance = float (pos 0);
          registration_date = 0;
          is_active = false;
        }))
        (λ _. say 500 "Failed to create account")
    logging i "CreateAccount" "User account created" c.ip
    pure (say 201 "Account created")

  unfoldable pub close_account : Context → String → Handler (Reply F)
  unfolding caller
  close_account c id = do
    (user, i) ← caller c
    account ← need (o.from_hex id) (say 400 "Invalid account ID")
    call (delete_account account i) (λ e.
        if is_not_found e then say 404 "Account not found" else say 500 "Failed to delete account")
    logging 0 "DeleteAccount" "User account deleted" c.ip
    pure (say 200 "Account deleted")

  unfoldable pub show_accounts : Context → Handler (Reply F)
  show_accounts c = do
    user ← need c.user_id (say 401 "Unauthorized")
    found ← call (get_accounts user) (λ _. say 500 "Failed to retrieve accounts")
    logging 0 "GetUsers" "Retrieved user accounts" c.ip
    pure (show 200 (Body.all_accounts found))

  -- Neither "main" nor "demo" nor "real".
  unfoldable pub is_no_type : String → Bool
  is_no_type s = (s !=s "main") && ((s !=s "demo") && (s !=s "real"))

  -- What the handler refuses before it calls the service.
  unfoldable pub check_transfer : TransferRequest F → Handler (Unit {0})
  unfolding is_no_type
  check_transfer r = do
    refuse_if ((r.source_id =s= r.dest_id) && (r.source_type =s= r.dest_type))
        (say 400 "Source and destination cannot be the same")
    refuse_if (is_no_type r.source_type) (say 400 "Invalid source account type")
    refuse_if (is_no_type r.dest_type) (say 400 "Invalid destination account type")

  -- The balance of one side after a transfer.
  unfoldable pub balance_after : String → ℕ → String → String → String → Handler F
  balance_after user i id type message =
      if type =s= "main"
      then (do
        found ← call (get_user user) (λ _. say 500 message)
        u ← need found (say 500 message)
        pure u.balance)
      else (do
        found ← call (get_account_by_name id i) (λ _. say 500 message)
        a ← need found (say 500 message)
        pure a.balance)

  -- `contains` is `strings.Contains`, `driver_text` the text of the database's error.
  module _ (contains : String → String → Bool) (driver_text : String) where
    -- `strings.Contains(err.Error(), t)`, for a `t` that spans no two parts of the text.
    unfoldable pub mentions : String → Error → Bool
    mentions t (new s) = contains s t
    mentions t (wrap s e) = contains s t || mentions t e
    mentions t (with_text s x) = contains s t || contains x t
    mentions t (mismatch s a b) = contains s t || (contains a t || contains b t)
    mentions t driver = contains driver_text t

    -- The switch on the text of the error.
    unfoldable pub transfer_error : Error → Reply F
    unfolding mentions
    transfer_error e =
        if mentions "insufficient balance" e
        then say 403 "Insufficient balance in source account"
        else if mentions "not found" e
        then tell 404 e
        else if mentions "invalid" e || mentions "mismatch" e
        then tell 400 e
        else if mentions "cannot transfer between demo and real" e
        then tell 403 e
        else if mentions "same user" e
        then tell 403 e
        else tell 500 (wrap "Transfer failed" e)

    unfoldable pub transfer : Context → Option (TransferRequest F) → Handler (Reply F)
    unfolding caller check_transfer balance_after
    transfer c req = do
      r ← bound req
      (user, i) ← caller c
      check_transfer r
      call (transfer_balance i r.source_id r.dest_id r.amount r.source_type r.dest_type)
          transfer_error
      source ←
          balance_after user i r.source_id r.source_type "Failed to fetch updated source balance"
      dest ←
          balance_after user i r.dest_id r.dest_type "Failed to fetch updated destination balance"
      logging i "TransferBalance" "Transferred balance within main account" c.ip
      pure (show 200 (Body.both_balances source dest))
