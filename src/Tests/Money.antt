-- ===== src/Tests/Money.antt =====
-- Transfers, the review of transactions and the creation of accounts on the concrete data.
use fxtrader.Base.{none, false, some, ◌≡◌, refl}
use fxtrader.Base.Int.{ℤ, pos, ◌+ℤ◌}
use fxtrader.Base.Result.{ok}
use fxtrader.World.{World}
use fxtrader.Repo.Users
use fxtrader.Repo.Users.{get_user_by_id, add_balance, subtract_balance, update}
use fxtrader.Repo.Transactions
use fxtrader.Repo.Transactions.{get_transaction_by_id, update_transaction, set_review}
use fxtrader.Repo.Others.{log_action}
use fxtrader.Service.Transfer.{transfer_balance}
use fxtrader.Service.Transfer.Effects.{Transferred, books, transfer_balance-Transferred}
use fxtrader.Service.Transfer.Mains.{transfer_between_mains}
use fxtrader.Service.Transactions.{
  approve_transaction, deny_transaction, pending, move_balance, reviewed,
}
use fxtrader.Service.Transactions.Review.{Approved, marked, approve_transaction-Approved}
use fxtrader.Service.Transactions.Once.{Denied, Refused, deny_transaction-Denied, review_once}
use fxtrader.Service.Transactions.Overdraft.{FailsWith, approve_overdraft}
use fxtrader.Service.Users.{create_account}
use fxtrader.Service.Users.Created.{AccountEnds, create_account-AccountEnds}
use fxtrader.Api.{Context}
use fxtrader.Api.Accounts.{TransferRequest, transfer}
use fxtrader.Api.Accounts.Posted.{Settles, transfer-Settles}
use fxtrader.Tests.Demo.{
  demo, demo-FindsMatching, demo-UpdatesFound, demo-NeverFails, ada, wallet, withdrawal, start,
}

transfer_balance-Transferred_example :
    let (r, w') = transfer_balance 1 "main wallet" "" (pos 20) "demo" "main" start in
    Transferred 1 "main wallet" "" (pos 20) "demo" "main" (books start) r (books w')
transfer_balance-Transferred_example =
    transfer_balance-Transferred 1 "main wallet" "" (pos 20) "demo" "main" start

transfer_between_mains_example :
    let (r, w') = transfer_balance 1 "a" "b" (pos 20) "main" "main" start in
    (r ≡ ok tt)
    × (demo.find_one _ (Users.has_id 1) w'.users
        ≡ some (record ada { balance = pos 100 +ℤ pos 20 }))
unfolding Users.has_id
transfer_between_mains_example =
    transfer_between_mains demo-FindsMatching demo-UpdatesFound demo-NeverFails 1 "a" "b" (pos 20)
      ada start refl refl refl

approve_transaction-Approved_example :
    let (r, w') = approve_transaction "4" "seen" "" start in
    Approved "4" "seen" "" start.transactions start.users r w'
approve_transaction-Approved_example = approve_transaction-Approved "4" "seen" "" start

deny_transaction-Denied_example :
    let (r, w') = deny_transaction "4" "no" "" start in
    Denied "4" "no" "" start.transactions start.users r w'
deny_transaction-Denied_example = deny_transaction-Denied "4" "no" "" start

abbrev approved : World
approved = (approve_transaction "4" "seen" "" start).1

review_once_example :
    let (r, w2) = approve_transaction "4" "again" "" approved in
    let (s, w3) = deny_transaction "4" "again" "" approved in
    Refused approved.transactions approved.users r w2
    × Refused approved.transactions approved.users s w3
unfolding approve_transaction add_balance get_transaction_by_id update_transaction log_action
    Transactions.has_id Users.has_id set_review reviewed pending move_balance update
review_once_example =
    review_once demo-FindsMatching demo-UpdatesFound "4" "seen" "" start approved "again" "" refl
      refl

approve_overdraft_example :
    let (r, w') = approve_transaction "3" "seen" "" start in
    FailsWith demo-NeverFails
      (marked 3 "APPROVED" "seen" "" 1001 start.transactions)
      start.users
      r
      w'
unfolding Users.has_id Transactions.has_id
approve_overdraft_example =
    approve_overdraft demo-NeverFails "3" "seen" "" 3 1 withdrawal ada start (refl, refl, refl) refl
      refl refl refl

create_account-AccountEnds_example :
    let (r, w') = create_account wallet start in AccountEnds wallet start r w'
create_account-AccountEnds_example = create_account-AccountEnds wallet start

abbrev poster : Context
poster = record { user_id = some "1"; is_admin = none; account_type = none; ip = "::1" }

abbrev to_main : TransferRequest ℤ
to_main = record {
  source_id = "main wallet";
  dest_id = "";
  amount = pos 20;
  source_type = "demo";
  dest_type = "main";
}

transfer-Settles_example :
    let (x, w') = transfer (λ s t. false) "" poster (some to_main) start in
    Settles (λ s t. false) "" poster to_main "1" 1 start x w'
transfer-Settles_example = transfer-Settles (λ s t. false) "" poster to_main "1" 1 start refl refl
