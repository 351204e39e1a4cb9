-- ===== src/Service/Users.antt =====
-- `userService` and `accountService` of service/user_service.go, and `RegisterWallet`.
pub mod Created
use fxtrader.Base.{ℕ, String, Bool, false, Option, List, ◌==◌, ◌!=◌, ◌!=s◌, ◌&&◌, if◌then◌else◌}
use fxtrader.Base.Int.{pos}
use fxtrader.Base.Result.{driver, new, with_text}
use fxtrader.Outside.{Outside}
use fxtrader.Model.{Account, User}
use fxtrader.World.{Action, pure, ◌>>=◌, ◌>>◌, raise_if, present, now, new_object_id}
use fxtrader.Repo.Users.{save_user}
use fxtrader.Repo.Accounts.{save_account, get_account_by_id, get_accounts_by_user_id}

module _ ⦃o : Outside⦄ where
  open o use {F, float}

  -- A user without an id gets one, with the time, no balance and a referral code; `code` is the
  -- first eight characters of a fresh uuid.
  abbrev pub newcomer : String → User F → Action (User F)
  newcomer code u =
      if u.id == 0
      then (do
        i ← new_object_id
        time ← now
        pure (record u {
          id = i;
          registration_date = time;
          is_active = false;
          balance = float (pos 0);
          bonus = float (pos 0);
          referral_code = code;
        }))
      else pure u

  -- It returns the document that the caller then holds.
  unfoldable pub signup_user : String → User F → Action (User F)
  signup_user code u = do
    u' ← newcomer code u
    save_user u'
    pure (record u' { balance = float (pos 0); bonus = float (pos 0) })

  abbrev identified : Account F → Action (Account F)
  identified a =
      if a.id == 0
      then (do
        i ← new_object_id
        time ← now
        pure (record a { id = i; registration_date = time; is_active = false }))
      else pure a

  unfoldable pub create_account : Account F → Action (Unit {0})
  create_account a = do
    a' ← identified a
    raise_if ((a'.account_type !=s "demo") && (a'.account_type !=s "real"))
        (with_text "invalid account type" a'.account_type)
    save_account a'

  unfoldable pub get_account : String → Action (Option (Account F))
  get_account id = do i ← present (o.from_hex id) driver; get_account_by_id i

  unfoldable pub get_accounts : String → Action (List (Account F))
  get_accounts user = do i ← present (o.from_hex user) driver; get_accounts_by_user_id i
