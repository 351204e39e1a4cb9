-- ===== src/Repo/Transactions.antt =====
-- `MongoTransactionRepository` of repository/transaction_repository.go.
use fxtrader.Base.{ℕ, Bool, Option, ◌==◌}
use fxtrader.Base.Result.{ok}
use fxtrader.Outside.{Outside}
use fxtrader.Model.{Transaction}
use fxtrader.World.{Action, gets, ◌>>=◌, now, new_object_id, external}

module _ ⦃o : Outside⦄ where
  open o use {F}

  unfoldable pub has_id : ℕ → Transaction F → Bool
  has_id i t = t.id == i

  -- It returns the document, whose id and time it has set.
  unfoldable pub save_transaction : Transaction F → Action (Transaction F)
  save_transaction t = do
    i ← new_object_id
    time ← now
    let t' = record t { id = i; request_time = time }
    external
        λ w. (ok t', record w { transactions = o.insert_one (Transaction F) t' w.transactions })

  unfoldable pub get_transaction_by_id : ℕ → Action (Option (Transaction F))
  get_transaction_by_id i =
      external (gets λ w. o.find_one (Transaction F) (has_id i) w.transactions)

  -- The `$set` of `UpdateTransaction`.
  unfoldable pub set_review : Transaction F → Transaction F → Transaction F
  set_review t old = record old {
    status = t.status;
    response_time = t.response_time;
    reason = t.reason;
    admin_comment = t.admin_comment;
  }

  unfoldable pub update_transaction : ℕ → Transaction F → Action (Unit {0})
  update_transaction i t = external λ w. (
    ok tt,
    record w {
      transactions = (o.update_one (Transaction F) (has_id i) (set_review t) w.transactions).0;
    },
  )
