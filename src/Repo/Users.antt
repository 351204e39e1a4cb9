-- ===== src/Repo/Users.antt =====
-- `MongoUserRepository` of repository/user_repository.go.
use fxtrader.Base.{ℕ, String, Bool, not, Option, List, ◌==◌, ◌=s=◌, if◌then◌else◌}
use fxtrader.Base.Int.{pos}
use fxtrader.Base.Result.{Result, new, wrap}
use fxtrader.Outside.{Outside}
use fxtrader.Model.{User}
use fxtrader.World.{Action, pure, gets, ◌>>=◌, ◌>>◌, raise_if, on_error, present, external}

module _ ⦃o : Outside⦄ where
  open o use {F, float, add, sub, neg, lt, le}

  -- the filter `{"_id": id}`
  unfoldable pub has_id : ℕ → User F → Bool
  has_id i u = u.id == i

  -- `$inc` of the balance
  unfoldable pub inc_balance : F → User F → User F
  inc_balance x u = record u { balance = add u.balance x }

  -- `UpdateOne`, by its matched count
  unfoldable pub update : ℕ → (User F → User F) → Action ℕ
  update i f =
      external λ w.
        let r = o.update_one (User F) (has_id i) f w.users in pure r.1 (record w { users = r.0 })

  unfoldable pub get_user_by_id : ℕ → Action (Option (User F))
  get_user_by_id i = external (gets λ w. o.find_one (User F) (has_id i) w.users)

  unfoldable pub has_username : String → User F → Bool
  has_username name u = u.username =s= name

  unfoldable pub get_user_by_username : String → Action (Option (User F))
  get_user_by_username name =
      on_error (external (gets λ w. o.find_one (User F) (has_username name) w.users))
        (wrap "failed to fetch user by username")

  unfoldable pub has_telegram_id : String → User F → Bool
  has_telegram_id t u = u.telegram_id =s= t

  unfoldable pub get_user_by_telegram_id : String → Action (Option (User F))
  get_user_by_telegram_id t = external (gets λ w. o.find_one (User F) (has_telegram_id t) w.users)

  unfoldable pub is_leader : Bool → User F → Bool
  is_leader b u = if b then u.is_copy_trade_leader else not u.is_copy_trade_leader

  unfoldable pub get_users_by_leader_status : Bool → Action (List (User F))
  get_users_by_leader_status b = external (gets λ w. o.find (User F) (is_leader b) w.users)

  unfoldable pub replaced_by : User F → User F → User F
  replaced_by u old = u

  -- `$set` of the whole document
  unfoldable pub update_user : User F → Action (Unit {0})
  unfolding update
  update_user u = do matched ← update u.id (replaced_by u); pure tt

  unfoldable pub set_active : Bool → User F → User F
  set_active b u = record u { is_active = b }

  unfoldable pub active_user : ℕ → Bool → Action (Unit {0})
  unfolding update
  active_user i b = do matched ← update i (set_active b); pure tt

  -- The fields that `EditUser` writes; the account types and the account type stay.
  unfoldable pub edited : User F → User F → User F
  edited u old = record old {
    username = u.username;
    full_name = u.full_name;
    phone_number = u.phone_number;
    card_number = u.card_number;
    national_id = u.national_id;
    citizenship = u.citizenship;
    residence = u.residence;
    birthday = u.birthday;
    telegram_id = u.telegram_id;
    referral_code = u.referral_code;
    referred_by = u.referred_by;
    registration_date = u.registration_date;
    is_active = u.is_active;
    is_copy_trade_leader = u.is_copy_trade_leader;
    is_copy_pending_trade_leader = u.is_copy_pending_trade_leader;
    balance = u.balance;
    bonus = u.bonus;
    leverage = u.leverage;
    trade_type = u.trade_type;
    wallet_address = u.wallet_address;
  }

  unfoldable pub edit_user : User F → Action (Unit {0})
  unfolding update
  edit_user u = do
    matched ← on_error (update u.id (edited u)) (wrap "failed to update user")
    raise_if (matched == 0) (new "no user found with ID")

  unfoldable pub save_user : User F → Action (Unit {0})
  save_user u = external λ w.
      let u' = record u { balance = float (pos 0); bonus = float (pos 0) } in
      (Result.ok tt, record w { users = o.insert_one (User F) u' w.users })

  unfoldable pub add_balance : ℕ → F → Action (Unit {0})
  unfolding update
  add_balance i amount = do
    raise_if (le amount (float (pos 0))) (new "amount must be positive")
    matched ← on_error (update i (inc_balance amount)) (wrap "failed to add balance")
    raise_if (matched == 0) (new "no user found with ID")

  unfoldable pub subtract_balance : ℕ → F → Action (Unit {0})
  unfolding update get_user_by_id
  subtract_balance i amount = do
    raise_if (le amount (float (pos 0))) (new "amount must be positive")
    found ← on_error (get_user_by_id i) (wrap "failed to fetch user")
    user ← present found (new "no user found with ID")
    raise_if (lt user.balance amount) (new "insufficient balance")
    matched ← on_error (update i (inc_balance (neg amount))) (wrap "failed to subtract balance")
    raise_if (matched == 0) (new "no user found with ID")
