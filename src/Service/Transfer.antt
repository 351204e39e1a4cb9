-- ===== src/Service/Transfer.antt =====
-- `transferService.TransferBalance` of service/user_service.go. Its callback runs inside
-- `WithTransaction`, but the repositories do not take the session's context: what they have
-- written stays written when the callback fails or the commit does.
pub mod Effects
pub mod Mains
use fxtrader.Base.{
  ℕ, String, Bool, Option, none, some, ◌!=◌, ◌=s=◌, ◌!=s◌, ◌&&◌, ◌||◌, if◌then◌else◌,
}
use fxtrader.Base.Int.{pos}
use fxtrader.Base.Result.{new, wrap, mismatch}
use fxtrader.Outside.{Outside}
use fxtrader.Model.{Account, User}
use fxtrader.World.{Action, pure, ◌>>=◌, ◌>>◌, raise_if, on_error, present, external}
use fxtrader.Repo.Users.{get_user_by_id, update_user}
use fxtrader.Repo.Accounts.{get_account_by_name, update_account}

-- The documents of one side of a transfer: `none` is the main balance of the user.
pub record Side (F : Type 0) : Type 0 where
  pub user : User F
  pub account : Option (Account F)

module _ ⦃o : Outside⦄ where
  open o use {F, float, add, sub, lt, le}

  unfoldable pub balance_of : Side F → F
  balance_of s = elim s.account [ none ↦ s.user.balance | some a ↦ a.balance ]

  -- `*balance = x`
  unfoldable pub with_balance : F → Side F → Side F
  with_balance x s = elim s.account [
    | none ↦ record s { user = record s.user { balance = x } }
    | some a ↦ record s { account = some (record a { balance = x }) }
  ]

  unfoldable pub load_main : ℕ → String → Action (Side F)
  load_main user message = do
    found ← on_error (get_user_by_id user) (λ _. new message)
    u ← present found (new message)
    pure (record { user = u; account = none })

  unfoldable pub load_source : ℕ → String → String → Action (Side F)
  unfolding load_main
  load_source user id type = if type =s= "main" then load_main user "source user not found" else do
    found ← on_error (get_account_by_name id user) (λ _. new "source account not found")
    a ← present found (new "source account not found")
    raise_if (a.account_type !=s type) (mismatch "source account type mismatch" type a.account_type)
    owner ← on_error (get_user_by_id a.user_id) (λ _. new "source user not found")
    u ← present owner (new "source user not found")
    pure (record { user = u; account = some a })

  unfoldable pub load_dest : ℕ → String → String → Action (Side F)
  unfolding load_main
  load_dest user id type =
      if type =s= "main" then load_main user "destination user not found" else do
        found ← on_error (get_account_by_name id user) (λ _. new "destination account not found")
        a ← present found (new "destination account not found")
        raise_if (a.account_type !=s type)
            (mismatch "destination account type mismatch" type a.account_type)
        owner ← on_error (get_user_by_id user) (λ _. new "destination user not found")
        u ← present owner (new "destination user not found")
        pure (record { user = u; account = some a })

  unfoldable pub save_side : Side F → Action (Unit {0})
  save_side s = elim s.account [ none ↦ update_user s.user | some a ↦ update_account a ]

  unfoldable pub crosses : String → String → Bool
  crosses source dest =
      ((source =s= "demo") && (dest =s= "real")) || ((source =s= "real") && (dest =s= "demo"))

  -- The checks of the callback after both sides are loaded, and its two writes.
  unfoldable pub settle : F → String → String → Side F → Side F → Action (Unit {0})
  settle amount source_type dest_type s d = do
    raise_if (s.user.id != d.user.id) (new "transfers must be within the same user")
    raise_if (crosses source_type dest_type) (new "cannot transfer between demo and real balances")
    raise_if (lt (balance_of s) amount) (new "insufficient balance in source account")
    on_error (save_side (with_balance (sub (balance_of s) amount) s))
        (wrap "failed to update source")
    on_error (save_side (with_balance (add (balance_of d) amount) d))
        (wrap "failed to update destination")

  commit : Action (Unit {0})
  commit = external (pure tt)

  unfoldable pub transfer_balance : ℕ → String → String → F → String → String → Action (Unit {0})
  unfolding commit
  transfer_balance user source_id dest_id amount source_type dest_type = do
    raise_if (le amount (float (pos 0))) (new "amount must be positive")
    on_error (external (pure tt)) (wrap "failed to start session")
    s ← load_source user source_id source_type
    d ← load_dest user dest_id dest_type
    settle amount source_type dest_type s d
    commit
