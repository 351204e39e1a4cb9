-- ===== src/Service/Transactions/Overdraft.antt =====
-- The approval of a withdrawal that the balance does not cover.
use fxtrader.Base.{ℕ, suc, String, true, some, ◌≡◌, arith, eq_iff}
use fxtrader.Base.Result.{Result, ok, err, panic}
use fxtrader.Outside.{Outside}
use fxtrader.Outside.Laws.{NeverFails}
use fxtrader.Model.{User, Transaction}
use fxtrader.World.{World}
use fxtrader.Repo.Users
use fxtrader.Repo.Users.{subtract_balance, get_user_by_id}
use fxtrader.Repo.Transactions.{set_review, update_transaction, get_transaction_by_id}
use fxtrader.Service.Transactions.{reviewed, pending, move_balance, approve_transaction}
use fxtrader.Service.Transactions.Review.{IsPending, marked}

module _ ⦃o : Outside⦄ (up : NeverFails) where
  open o use {F, lt, le, float}

  pending_passes :
      (id : String) (w : World) (i : ℕ) (t : Transaction F)
      → IsPending id w.transactions i t
      → pending id w ≡ (ok (i, t), record w { calls = suc w.calls })
  unfolding pending get_transaction_by_id
  pending_passes id w i t (hex, e, was) = ground (arith, up w.calls, eq_iff t.status "PENDING")

  -- An error, and these transactions and users.
  abbrev pub FailsWith :
      o.Coll (Transaction F) → o.Coll (User F) → Result (Unit {0}) → World → Type 0
  FailsWith ts us (ok _) w' = ⊥
  FailsWith ts us (err _) w' = (w'.transactions ≡ ts) × (w'.users ≡ us)
  FailsWith ts us panic w' = ⊥

  overdraft_fails :
      (user : ℕ) (t : Transaction F) (u : User F) (w : World)
      → t.transaction_type ≡ "WITHDRAWAL"
      → o.find_one (User F) (Users.has_id user) w.users ≡ some u
      → lt u.balance t.amount ≡ true
      → let (r, w') = move_balance user t w in FailsWith w.transactions w.users r w'
  unfolding move_balance subtract_balance get_user_by_id
  overdraft_fails user t u w type e short = ground (
    arith,
    up w.calls,
    eq_iff t.transaction_type "DEPOSIT",
    eq_iff t.transaction_type "WITHDRAWAL",
    eq_iff "WITHDRAWAL" "DEPOSIT",
  )

  -- Where no call fails, the approval of a pending withdrawal of more than the user's main balance
  -- returns an error and moves no balance, and the transaction is stored as approved all the same.
  pub approve_overdraft :
      (id reason comment : String) (i user : ℕ) (t : Transaction F) (u : User F) (w : World)
      → IsPending id w.transactions i t
      → t.transaction_type ≡ "WITHDRAWAL"
      → o.from_hex t.user_id ≡ some user
      → o.find_one (User F) (Users.has_id user) w.users ≡ some u
      → lt u.balance t.amount ≡ true
      → let (r, w') = approve_transaction id reason comment w in
        FailsWith
          (marked i "APPROVED" reason comment (o.clock (suc w.calls)) w.transactions)
          w.users
          r
          w'
  unfolding approve_transaction update_transaction set_review reviewed
  approve_overdraft id reason comment i user t u w p type hex e short = ground (
    arith,
    up (suc (suc w.calls)),
    pending_passes id w i t p,
    overdraft_fails user t u
        (record w {
          calls = suc (suc (suc w.calls));
          transactions = marked i "APPROVED" reason comment (o.clock (suc w.calls)) w.transactions;
        })
        type e short,
  )
