-- ===== src/Model.antt =====
-- The documents and messages of backend/internal/models and backend/interfaces. `F` is `float64`,
-- ids are object ids, times are what `time.Now` gives; a nil pointer is `none`.
pub mod Trade
pub mod Retcodes
use fxtrader.Base.{ℕ, String, Bool, Option, List}
use fxtrader.Base.Int.{ℤ}

pub record Account (F : Type 0) : Type 0 where
  pub id : ℕ
  pub user_id : ℕ
  pub account_name : String
  pub account_type : String
  pub wallet_id : String
  pub balance : F
  pub registration_date : ℕ
  pub is_active : Bool

pub record User (F : Type 0) : Type 0 where
  pub id : ℕ
  pub full_name : String
  pub phone_number : String
  pub telegram_id : String
  pub username : String
  pub card_number : String
  pub citizenship : String
  pub national_id : String
  pub residence : String
  pub birthday : String
  pub registration_date : ℕ
  pub is_active : Bool
  pub is_copy_trade_leader : Bool
  pub account_type : String
  pub is_copy_pending_trade_leader : Bool
  pub balance : F
  pub bonus : F
  pub leverage : ℤ
  pub trade_type : String
  pub wallet_address : String
  pub referral_code : String
  pub referred_by : ℕ
  pub account_types : List String

pub record Transaction (F : Type 0) : Type 0 where
  pub id : ℕ
  pub user_id : String
  pub telegram_id : String
  pub transaction_type : String
  pub payment_method : String
  pub amount : F
  pub receipt_image : String
  pub status : String
  pub request_time : ℕ
  pub response_time : Option ℕ
  pub reason : String
  pub admin_comment : String

pub record TradingHours : Type 0 where
  pub unlimited : Bool
  pub open_time : String
  pub close_time : String

pub record Symbol (F : Type 0) : Type 0 where
  pub id : ℕ
  pub symbol_name : String
  pub display_name : String
  pub category : String
  pub denied_accounts : List String
  pub leverage : ℤ
  pub min_lot : F
  pub max_lot : F
  pub spread : F
  pub commission_deposit : F
  pub commission_fee : F
  pub commission_withdrawal : F
  pub trading_hours : TradingHours
  pub is_trading_open : Bool
  pub created_at : ℕ
  pub updated_at : ℕ

pub record Rule : Type 0 where
  pub id : ℕ
  pub content : String
  pub created_at : ℕ

pub record AdminAccount : Type 0 where
  pub id : ℕ
  pub username : String
  pub password : String
  pub account_type : String
  pub registration_date : String

pub record LeaderRequest : Type 0 where
  pub id : ℕ
  pub user_id : String
  pub reason : String
  pub telegram_id : String
  pub status : String
  pub admin_reason : String
  pub created_at : ℕ
  pub updated_at : ℕ

pub record AlertCondition (F : Type 0) : Type 0 where
  pub price_target : Option F
  pub sl : Option F
  pub tp : Option F
  pub trigger_time : Option ℕ

pub record Alert (F : Type 0) : Type 0 where
  pub id : ℕ
  pub user_id : String
  pub symbol_name : String
  pub alert_type : String
  pub condition : AlertCondition F
  pub status : String
  pub created_at : ℕ
  pub triggered_at : Option ℕ
  pub notification_method : String

pub record PriceData (F : Type 0) : Type 0 where
  pub symbol : String
  pub ask : F
  pub bid : F
  pub timestamp : ℕ

pub record CopyTradeSubscription (F : Type 0) : Type 0 where
  pub id : ℕ
  pub follower_id : String
  pub leader_id : String
  pub account_type : String
  pub follower_id_telegram : String
  pub leader_id_telegram : String
  pub allocated_amount : F
  pub status : String
  pub created_at : ℕ

pub record CopyTrade : Type 0 where
  pub id : ℕ
  pub subscription_id : ℕ
  pub leader_trade_id : ℕ
  pub follower_trade_id : ℕ
  pub created_at : ℕ

-- `LogEntry`; the metadata map is left out, since no code reads it.
pub record LogEntry : Type 0 where
  pub id : ℕ
  pub user_id : ℕ
  pub action : String
  pub description : String
  pub ip_address : String
  pub timestamp : ℕ
