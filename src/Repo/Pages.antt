-- ===== src/Repo/Pages.antt =====
-- The queries that list documents, and their pages: `MongoLogRepository` and `MongoUserRepository`
-- with its referrals, `MongoAdminRepository`, and the lists of the other repositories.
use fxtrader.Base.{ℕ, String, Bool, true, false, Option, List, ◌==◌, ◌=s=◌}
use fxtrader.Base.Int.{ℤ, pos, ◌-ℤ◌, ◌*ℤ◌, wrap64}
use fxtrader.Base.Result.{ok, driver, new}
use fxtrader.Outside.{Outside}
use fxtrader.Model.{User, Transaction, Alert, CopyTradeSubscription, LogEntry, AdminAccount}
use fxtrader.World.{Action, gets, pure, ◌>>=◌, external, present}

-- `(page - 1) * limit` on `int64`
unfoldable pub skip_of : ℤ → ℤ → ℤ
skip_of page limit = wrap64 (wrap64 (page -ℤ pos 1) *ℤ limit)

module _ ⦃o : Outside⦄ where
  open o use {F}

  any_log : LogEntry → Bool
  any_log l = true

  log_of_user : ℕ → LogEntry → Bool
  log_of_user i l = l.user_id == i

  log_time : LogEntry → ℕ
  log_time l = l.timestamp

  unfoldable pub get_all_logs : ℤ → ℤ → Action (List LogEntry)
  unfolding any_log log_time skip_of
  get_all_logs page limit =
      external
        (gets λ w. o.find_sorted_page LogEntry any_log log_time (skip_of page limit) limit w.logs)

  unfoldable pub get_logs_by_user_id : String → ℤ → ℤ → Action (List LogEntry)
  unfolding log_of_user log_time skip_of
  get_logs_by_user_id user page limit = do
    i ← present (o.from_hex user) driver
    external (
        gets λ w.
          o.find_sorted_page LogEntry (log_of_user i) log_time (skip_of page limit) limit w.logs)

  any_user : User F → Bool
  any_user u = true

  unfoldable pub get_all_users : Action (List (User F))
  unfolding any_user
  get_all_users = external (gets λ w. o.find (User F) any_user w.users)

  unfoldable pub has_referral_code : String → User F → Bool
  has_referral_code code u = u.referral_code =s= code

  unfoldable pub get_user_by_referral_code : String → Action (Option (User F))
  get_user_by_referral_code code =
      external (gets λ w. o.find_one (User F) (has_referral_code code) w.users)

  -- The filter `{"referred_by": code}`: the field holds an object id and the value is a text, and
  -- values of two types are never equal.
  unfoldable pub is_referred_by : String → User F → Bool
  is_referred_by code u = false

  unfoldable pub get_users_referred_by : String → ℤ → ℤ → Action (List (User F) × ℕ)
  unfolding skip_of
  get_users_referred_by code page limit = do
    total ← external (gets λ w. o.count (User F) (is_referred_by code) w.users)
    users ←
        external
          (gets λ w. o.find_page (User F) (is_referred_by code) (skip_of page limit) limit w.users)
    pure (users, total)

  unfoldable pub get_all_referrals : ℤ → ℤ → Action (List (User F) × ℕ)
  unfolding any_user skip_of
  get_all_referrals page limit = do
    total ← external (gets λ w. o.count (User F) any_user w.users)
    users ← external (gets λ w. o.find_page (User F) any_user (skip_of page limit) limit w.users)
    pure (users, total)

  unfoldable pub has_admin_name : String → AdminAccount → Bool
  has_admin_name name a = a.username =s= name

  unfoldable pub get_admin_by_username : String → Action (Option AdminAccount)
  get_admin_by_username name =
      external (gets λ w. o.find_one AdminAccount (has_admin_name name) w.admins)

  unfoldable pub save_admin : AdminAccount → Action (Unit {0})
  save_admin a = external λ w. (ok tt, record w { admins = o.insert_one AdminAccount a w.admins })

  unfoldable pub transaction_of_user : ℕ → Transaction F → Bool
  transaction_of_user i t = t.user_id =s= o.to_hex i

  request_time_of : Transaction F → ℕ
  request_time_of t = t.request_time

  -- The service reads the id.
  unfoldable pub get_transactions_by_user_id : String → Action (List (Transaction F))
  unfolding request_time_of
  get_transactions_by_user_id user = do
    i ← present (o.from_hex user) (new "invalid user ID")
    external (
        gets
          λ w. o.find_sorted (Transaction F) (transaction_of_user i) request_time_of w.transactions)

  any_transaction : Transaction F → Bool
  any_transaction t = true

  unfoldable pub get_all_transactions : Action (List (Transaction F))
  unfolding any_transaction request_time_of
  get_all_transactions =
      external
        (gets λ w. o.find_sorted (Transaction F) any_transaction request_time_of w.transactions)

  unfoldable pub alert_of_user : String → Alert F → Bool
  alert_of_user user a = a.user_id =s= user

  alert_time : Alert F → ℕ
  alert_time a = a.created_at

  unfoldable pub get_alerts_by_user_id : String → Action (List (Alert F))
  unfolding alert_time
  get_alerts_by_user_id user =
      external (gets λ w. o.find_sorted (Alert F) (alert_of_user user) alert_time w.alerts)

  unfoldable pub subscription_has_id : ℕ → CopyTradeSubscription F → Bool
  subscription_has_id i s = s.id == i

  unfoldable pub get_subscription : String → Action (Option (CopyTradeSubscription F))
  get_subscription id = do
    i ← present (o.from_hex id) (new "invalid subscription ID")
    external
        (gets λ w. o.find_one (CopyTradeSubscription F) (subscription_has_id i) w.subscriptions)

  any_subscription : CopyTradeSubscription F → Bool
  any_subscription s = true

  unfoldable pub get_all_subscriptions : Action (List (CopyTradeSubscription F))
  unfolding any_subscription
  get_all_subscriptions =
      external (gets λ w. o.find (CopyTradeSubscription F) any_subscription w.subscriptions)

  unfoldable pub is_follower : String → CopyTradeSubscription F → Bool
  is_follower follower s = s.follower_id =s= follower

  unfoldable pub get_subscriptions_by_follower_id : String → Action (List (CopyTradeSubscription F))
  get_subscriptions_by_follower_id follower =
      external (gets λ w. o.find (CopyTradeSubscription F) (is_follower follower) w.subscriptions)
