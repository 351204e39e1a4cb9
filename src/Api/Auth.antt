-- ===== src/Api/Auth.antt =====
-- `UserAuthMiddleware` of middleware/user_auth.go and `AdminAuthMiddleware` of
-- middleware/autrh.go, and the login of an admin.
use fxtrader.Base.{ℕ, String, Bool, not, Option, none, some, ltb, ◌=s=◌, ◌!=s◌, if◌then◌else◌}
use fxtrader.Outside.{Outside}
use fxtrader.Repo.Users.{get_user_by_telegram_id, active_user}
use fxtrader.Repo.Pages.{get_admin_by_username}
use fxtrader.Service.Leaders.{get_user}
use fxtrader.Api.{
  Body, Reply, Context, Handler, pure, ◌>>=◌, ◌>>◌, say, show, call, refuse_if, need, bound,
}

-- What `jwt.Parse` and the type assertions read of a token that is valid for the secret.
pub record Claims : Type 0 where
  pub is_admin : Option Bool
  pub user_id : Option String

pub record AdminLoginRequest : Type 0 where
  pub username : String
  pub password : String

pub record UserActivationRequest : Type 0 where
  pub user_id : String
  pub is_active : Bool

module _ ⦃o : Outside⦄ where
  open o use {F}

  -- `X-Telegram-ID` names the user; "" is a missing header.
  unfoldable pub user_auth : String → String → Handler Context
  user_auth header ip = do
    refuse_if (header =s= "") (say 401 "X-Telegram-ID header required")
    found ← call (get_user_by_telegram_id header) (λ _. say 401 "Invalid Telegram ID")
    u ← need found (say 401 "Invalid Telegram ID")
    refuse_if (u.account_type =s= "admin") (say 401 "Admin accounts cannot use user routes")
    refuse_if (not u.is_active) (say 403 "User account is not activated")
    pure (record { user_id = some (o.to_hex u.id); is_admin = none; account_type = none; ip = ip })

  -- A route behind `UserAuthMiddleware`.
  abbrev pub as_user : String → String → (Context → Handler (Reply F)) → Handler (Reply F)
  as_user header ip handler = user_auth header ip >>= handler

  -- `split` is `strings.SplitN(header, " ", 2)` where it gives two parts, `parse` reads a token
  -- that is valid for the secret, and `byte_length` is Go's `len`.
  module _ (split : String → Option (String × String)) (parse : String → Option Claims)
      (byte_length : String → ℕ) where
    unfoldable pub admin_auth : String → String → Handler Context
    admin_auth header ip = do
      refuse_if (ltb 4096 (byte_length header)) (say 401 "Authorization header too long")
      refuse_if (header =s= "") (say 401 "Authorization header required")
      parts ← need (split header) (say 401 "Invalid authorization header; expected Bearer token")
      refuse_if (parts.0 !=s "Bearer")
          (say 401 "Invalid authorization header; expected Bearer token")
      claims ← need (parse parts.1) (say 401 "Invalid or expired token")
      is_admin ← need claims.is_admin (say 401 "Admin access required")
      refuse_if (not is_admin) (say 401 "Admin access required")
      user ← need claims.user_id (say 401 "Invalid user ID in token")
      pure (record { user_id = some user; is_admin = some is_admin; account_type = none; ip = ip })

  -- `matches` is bcrypt's comparison of a hash with a password; `sign` makes the token of an id, or
  -- fails.
  unfoldable pub admin_login :
      (String → String → Bool)
      → (String → Option String)
      → Option AdminLoginRequest
      → Handler (Reply F)
  admin_login matches sign req = do
    r ← bound req
    found ← call (get_admin_by_username r.username) (λ _. say 500 "Failed to retrieve admin")
    a ← need found (say 401 "Invalid credentials")
    refuse_if (a.account_type !=s "admin") (say 401 "Invalid credentials")
    refuse_if (not (matches a.password r.password)) (say 401 "Invalid credentials")
    t ← need (sign (o.to_hex a.id)) (say 500 "Failed to generate token")
    pure (show 200 (Body.token_of t))

  unfoldable pub update_user_activation : Option UserActivationRequest → Handler (Reply F)
  update_user_activation req = do
    r ← bound req
    found ← call (get_user r.user_id) (λ _. say 400 "Invalid user ID")
    u ← need found (say 404 "User not found")
    call (active_user u.id r.is_active) (λ _. say 500 "Failed to update user status")
    pure (say 200 (if r.is_active then "User activated" else "User deactivated"))
