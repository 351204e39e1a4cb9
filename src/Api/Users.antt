-- ===== src/Api/Users.antt =====
-- The handlers of users: api/user_handlers.go.
pub mod Signup
use fxtrader.Base.{ℕ, String, Bool, false, Option, none, some, [], ◌<>◌, ◌=s=◌, if◌then◌else◌}
use fxtrader.Base.Int.{pos}
use fxtrader.Outside.{Outside}
use fxtrader.Model.{User}
use fxtrader.World.{now}
use fxtrader.Repo.Users.{get_user_by_telegram_id, edit_user}
use fxtrader.Repo.Pages.{get_user_by_referral_code, get_all_users}
use fxtrader.Service.Users.{signup_user}
use fxtrader.Api.{
  Body, Reply, Handler, pure, ◌>>=◌, ◌>>◌, say, show, call, refuse_if, need, bound, logging,
}

module _ ⦃o : Outside⦄ where
  open o use {F, float}

  -- `user.Username == ""`
  unfoldable pub username_of : User F → String
  username_of u = if u.username =s= "" then "user_" <> u.telegram_id else u.username

  -- The fields that a signup takes from the request; the others are zero values.
  unfoldable pub requested : User F → ℕ → String → ℕ → User F
  unfolding username_of
  requested req time code referrer = record {
    id = 0;
    full_name = req.full_name;
    phone_number = req.phone_number;
    telegram_id = req.telegram_id;
    username = username_of req;
    card_number = req.card_number;
    citizenship = req.citizenship;
    national_id = req.national_id;
    residence = req.residence;
    birthday = req.birthday;
    registration_date = time;
    is_active = false;
    is_copy_trade_leader = false;
    account_type = "";
    is_copy_pending_trade_leader = false;
    balance = float (pos 0);
    bonus = float (pos 0);
    leverage = pos 0;
    trade_type = "";
    wallet_address = "";
    referral_code = code;
    referred_by = referrer;
    account_types = [];
  }

  -- The user whose referral code the request names; the zero id without a code.
  unfoldable pub referrer_of : String → Handler ℕ
  referrer_of code = if code =s= "" then pure 0 else (do
    found ← call (get_user_by_referral_code code) (λ _. say 500 "Failed to validate referral code")
    referrer ← need found (say 400 "Invalid referral code")
    pure referrer.id)

  -- `code_of` makes the handler's referral code of a name and a time, `uuid` is the service's.
  unfoldable pub signup :
      (String → ℕ → String) → String → String → Option (User F) → Handler (Reply F)
  unfolding requested referrer_of
  signup code_of uuid ip req = do
    r ← bound req
    existing ←
        call (get_user_by_telegram_id r.telegram_id) (λ _. say 500 "Failed to check existing user")
    refuse_if (is_some existing) (say 409 "User with this Telegram ID already exists")
    time ← call now (λ _. say 500 "")
    referrer ← referrer_of r.referral_code
    stamp ← call now (λ _. say 500 "")
    u ←
        call (signup_user uuid (requested r time (code_of (username_of r) stamp) referrer))
          (λ _. say 500 "Failed to create user")
    logging u.id "UserSignup" "User signed up via Telegram" ip
    pure (show 201 (Body.one_user u))
    where
      is_some : Option (User F) → Bool
      is_some none = false
      is_some (some u) = Bool.true

  -- The route is behind `AdminAuthMiddleware`.
  unfoldable pub edit : String → Option (User F) → Handler (Reply F)
  edit ip req = do
    r ← bound req
    existing ←
        call (get_user_by_telegram_id r.telegram_id) (λ _. say 500 "Failed to check existing user")
    old ← need existing (say 404 "User with this Telegram ID not found")
    let u = record r { id = old.id }
    call (edit_user u) (λ _. say 500 "Failed to edit user")
    logging u.id "UserEdit" "User edited via Telegram" ip
    pure (show 202 (Body.one_user u))

  -- The text of `LoginRequest`.
  unfoldable pub login : String → Option String → Handler (Reply F)
  login ip req = do
    telegram_id ← bound req
    found ← call (get_user_by_telegram_id telegram_id) (λ _. say 500 "Failed to retrieve user")
    u ← need found (say 401 "User not found")
    logging u.id "UserLogin" "User logged in via Telegram" ip
    pure (show 200 (Body.one_user u))

  -- `GetUser`: the id in the path is a Telegram id.
  unfoldable pub show_user : String → String → Handler (Reply F)
  show_user ip id = do
    found ← call (get_user_by_telegram_id id) (λ _. say 400 "Invalid user ID")
    u ← need found (say 404 "User not found")
    logging 0 "GetUser" "User data retrieved" ip
    pure (show 200 (Body.one_user u))

  unfoldable pub show_users : String → Handler (Reply F)
  show_users ip = do
    us ← call get_all_users (λ _. say 500 "Failed to retrieve users")
    logging 0 "GetAllUsers" "Retrieved all users" ip
    pure (show 200 (Body.all_users us))

  unfoldable pub show_me : String → String → Handler (Reply F)
  show_me ip id = do
    refuse_if (id =s= "") (say 400 "Missing user ID")
    found ← call (get_user_by_telegram_id id) (λ _. say 500 "Failed to retrieve user")
    u ← need found (say 404 "User not found")
    logging 0 "GetMe" "Retrieved own profile" ip
    pure (show 200 (Body.one_user u))
