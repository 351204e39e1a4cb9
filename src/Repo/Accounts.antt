-- ===== src/Repo/Accounts.antt =====
-- `MongoAccountRepository` of repository/user_repository.go.
use fxtrader.Base.{ℕ, String, Bool, Option, List, ◌==◌, ◌=s=◌, ◌!=s◌, ◌&&◌}
use fxtrader.Base.Int.{pos}
use fxtrader.Base.Result.{ok, new, wrap, with_text}
use fxtrader.Outside.{Outside}
use fxtrader.Model.{Account}
use fxtrader.World.{Action, gets, ◌>>=◌, ◌>>◌, raise_if, on_error, external}

module _ ⦃o : Outside⦄ where
  open o use {F, float}

  -- the filter `{"_id": id}`
  unfoldable pub has_id : ℕ → Account F → Bool
  has_id i a = a.id == i

  unfoldable pub has_name : String → ℕ → Account F → Bool
  has_name name i a = (a.account_name =s= name) && (a.user_id == i)

  unfoldable pub has_user : ℕ → Account F → Bool
  has_user i a = a.user_id == i

  owned_by : ℕ → ℕ → Account F → Bool
  owned_by i user a = (a.id == i) && (a.user_id == user)

  -- `$set` of the whole document
  unfoldable pub replaced_by : Account F → Account F → Account F
  replaced_by a old = a

  unfoldable pub update_account : Account F → Action (Unit {0})
  update_account a = external λ w. (
    ok tt,
    record w { accounts = (o.update_one (Account F) (has_id a.id) (replaced_by a) w.accounts).0 },
  )

  unfoldable pub save_account : Account F → Action (Unit {0})
  save_account a = do
    raise_if ((a.account_type !=s "demo") && (a.account_type !=s "real"))
        (with_text "invalid account type" a.account_type)
    external λ w. (
      ok tt,
      record w {
        accounts = o.insert_one (Account F) (record a { balance = float (pos 0) }) w.accounts;
      },
    )

  unfoldable pub get_account_by_id : ℕ → Action (Option (Account F))
  get_account_by_id i = external (gets λ w. o.find_one (Account F) (has_id i) w.accounts)

  unfoldable pub get_account_by_name : String → ℕ → Action (Option (Account F))
  get_account_by_name name user =
      on_error (external (gets λ w. o.find_one (Account F) (has_name name user) w.accounts))
        (wrap "failed to fetch account by name")

  unfoldable pub get_accounts_by_user_id : ℕ → Action (List (Account F))
  get_accounts_by_user_id user = external (gets λ w. o.find (Account F) (has_user user) w.accounts)

  unfoldable pub delete_account : ℕ → ℕ → Action (Unit {0})
  unfolding owned_by
  delete_account i user = do
    deleted ← on_error (external deleting) (wrap "failed to delete account")
    raise_if (deleted == 0) (new "account not found")
    where
      deleting : Action ℕ
      deleting w =
          let r = o.delete_one (Account F) (owned_by i user) w.accounts in
          (ok r.1, record w { accounts = r.0 })
