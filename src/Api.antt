-- ===== src/Api.antt =====
-- The HTTP handlers of backend/internal/api and the authentication of backend/internal/middleware.
-- A handler is an action that may reply early. `gin` binds a request: what `ShouldBindJSON` reads
-- is `none` where it returns an error.
pub mod Auth
pub mod Users
pub mod Accounts
pub mod Trades
pub mod Reviews
pub mod Catalog
pub mod Overview
pub mod Access
pub mod Routes
use fxtrader.Base.{ℕ, String, Bool, Option, none, some, List, if◌then◌else◌}
use fxtrader.Base.Int.{ℤ}
use fxtrader.Base.Result.{Error, Result, ok, err, panic}
use fxtrader.Outside.{Outside}
use fxtrader.Model.{
  Account, User, Transaction, Symbol, Rule, LeaderRequest, Alert, CopyTradeSubscription, LogEntry,
}
use fxtrader.Model.Trade.{TradeHistory, TradeResponse}
use fxtrader.World.{World, Action}
use fxtrader.Repo.Others.{log_action}

-- `SymbolUsage` and `OverviewResponse`
pub record SymbolUsage : Type 0 where
  pub symbol_name : String
  pub trade_count : ℕ

pub record OverviewResponse : Type 0 where
  pub user_count : ℕ
  pub total_trades : ℕ
  pub pending_trades : ℕ
  pub total_transactions : ℕ
  pub pending_transactions : ℕ
  pub top_symbols : List SymbolUsage
  pub symbols : ℕ

pub record UserReferralResponse : Type 0 where
  pub user_id : String
  pub username : String
  pub referral_code : String
  pub referred_by : String
  pub referred_users : List String

pub record PaginatedReferralsResponse : Type 0 where
  pub users : List UserReferralResponse
  pub total : ℕ
  pub page : ℤ
  pub limit : ℤ
  pub total_pages : ℤ

-- What a reply holds: a text of this code, the text of an error, or what was asked for.
pub data Body (F : Type 0) : Type 0 where
  said : String → Body F
  failed : Error → Body F
  token_of : String → Body F
  one_user : User F → Body F
  all_users : List (User F) → Body F
  all_accounts : List (Account F) → Body F
  -- the balances of the source and the destination
  both_balances : F → F → Body F
  one_trade : TradeHistory F → Body F
  all_trades : List (TradeHistory F) → Body F
  -- the trade, the bridge's answer and the kind of execution
  placed : TradeHistory F → TradeResponse F → String → Body F
  bridge_answer : TradeResponse F → Body F
  one_transaction : Transaction F → Body F
  all_transactions : List (Transaction F) → Body F
  all_leader_requests : List LeaderRequest → Body F
  one_alert : Alert F → Body F
  all_alerts : List (Alert F) → Body F
  one_subscription : CopyTradeSubscription F → Body F
  all_subscriptions : List (CopyTradeSubscription F) → Body F
  one_symbol : Symbol F → Body F
  all_symbols : List (Symbol F) → Body F
  one_rule : Rule → Body F
  all_rules : List Rule → Body F
  all_logs : List LogEntry → Body F
  overview_of : OverviewResponse → Body F
  referrals_of : UserReferralResponse → Body F
  paged_referrals : PaginatedReferralsResponse → Body F

pub record Reply (F : Type 0) : Type 0 where
  pub code : ℕ
  pub body : Body F

-- What the middleware has set in the context of a request, and the address of its sender.
pub record Context : Type 0 where
  pub user_id : Option String
  pub is_admin : Option Bool
  pub account_type : Option String
  pub ip : String

-- `c.GetString`
abbrev pub text_of : Option String → String
text_of none = ""
text_of (some s) = s

-- `c.GetBool`
abbrev pub flag_of : Option Bool → Bool
flag_of none = Bool.false
flag_of (some b) = b

-- How a part of a handler ends: with a value, with the reply, or with a panic.
pub data Answer (F A : Type 0) : Type 0 where
  go : A → Answer F A
  reply : Reply F → Answer F A
  crashed : Answer F A

module _ ⦃o : Outside⦄ where
  open o use {F}

  abbrev pub Handler : Type 0 → Type 0
  Handler A = World → Answer F A × World

  abbrev pub pure : {A : Type 0} → A → Handler A
  pure a w = (go a, w)

  abbrev pub follow : {A B : Type 0} → Answer F A → (A → Handler B) → Handler B
  follow (go a) f w = f a w
  follow (reply r) f w = (reply r, w)
  follow crashed f w = (crashed, w)

  infixl 5 ◌>>=◌ ◌>>◌
  abbrev pub ◌>>=◌ : {A B : Type 0} → Handler A → (A → Handler B) → Handler B
  ◌>>=◌ m f w = let (r, w') = m w in follow r f w'

  abbrev pub ◌>>◌ : {B : Type 0} → Handler (Unit {0}) → Handler B → Handler B
  m >> k = m >>= λ _. k

  -- `c.JSON(code, gin.H{...})` with a text
  abbrev pub say : ℕ → String → Reply F
  say code text = record { code = code; body = Body.said text }

  abbrev pub show : ℕ → Body F → Reply F
  show code b = record { code = code; body = b }

  -- `c.JSON(code, gin.H{"error": err.Error()})`
  abbrev pub tell : ℕ → Error → Reply F
  tell code e = record { code = code; body = Body.failed e }

  abbrev pub answer_of : {A : Type 0} → Result A → (Error → Reply F) → Answer F A
  answer_of (ok a) bad = go a
  answer_of (err e) bad = reply (bad e)
  answer_of panic bad = crashed

  -- `if err != nil { c.JSON(…); return }`
  abbrev pub call : {A : Type 0} → Action A → (Error → Reply F) → Handler A
  call m bad w = let (r, w') = m w in (answer_of r bad, w')

  -- `if cond { c.JSON(…); return }`
  abbrev pub refuse_if : Bool → Reply F → Handler (Unit {0})
  refuse_if b r w = (if b then reply r else go tt, w)

  -- `if x == nil { c.JSON(…); return }`
  abbrev pub need : {A : Type 0} → Option A → Reply F → Handler A
  need none r w = (reply r, w)
  need (some a) r w = (go a, w)

  -- a nil dereference unless it is there
  abbrev pub deref : {A : Type 0} → Option A → Handler A
  deref none w = (crashed, w)
  deref (some a) w = (go a, w)

  abbrev dropped : {A : Type 0} → Result A → Answer F (Option A)
  dropped (ok a) = go (some a)
  dropped (err e) = go none
  dropped panic = crashed

  -- A call whose error the handler drops: `none` after one.
  abbrev pub quietly : {A : Type 0} → Action A → Handler (Option A)
  quietly m w = let (r, w') = m w in (dropped r, w')

  -- `logService.LogAction`, whose error goes to the log.
  unfoldable pub logging : ℕ → String → String → String → Handler (Unit {0})
  logging user action description ip = do
    _ ← quietly (log_action user action description ip)
    pure tt

  -- What `primitive.ObjectIDFromHex` gives where its error is dropped.
  abbrev pub hex_or_zero : String → ℕ
  hex_or_zero s = elim (o.from_hex s) [ none ↦ 0 | some i ↦ i ]

  -- The body of the request.
  abbrev pub bound : {A : Type 0} → Option A → Handler A
  bound req = need req (say 400 "Invalid JSON")
