-- ===== src/Model/Trade.antt =====
-- Trades and the messages about them: models/trade.go, models/client.go, models/balance.go and
-- interfaces/interfaces.go.
use fxtrader.Base.{ℕ, String, Option, List}
use fxtrader.Base.Int.{ℤ}

pub record TradeHistory (F : Type 0) : Type 0 where
  pub id : ℕ
  pub user_id : ℕ
  pub symbol : String
  pub account_id : ℕ
  pub trade_type : String
  pub order_type : String
  pub leverage : ℤ
  pub volume : F
  pub entry_price : F
  pub close_price : F
  pub stop_loss : F
  pub take_profit : F
  pub profit : F
  pub open_time : ℕ
  pub close_time : Option ℕ
  pub close_reason : String
  pub status : String
  pub matched_trade_id : String
  pub expiration : Option ℕ
  pub account_type : String
  pub execution_type : String

pub record TradeResponse (F : Type 0) : Type 0 where
  pub trade_id : String
  pub user_id : String
  pub matched_trade_id : String
  pub trade_retcode : ℕ
  pub timestamp : F
  pub matched_volume : F
  pub account_type : String
  pub account_id : String
  pub status : String
  pub close_price : F
  pub close_reason : String

pub record BalanceResponse (F : Type 0) : Type 0 where
  pub user_id : String
  pub account_id : String
  pub account_type : String
  pub balance : F

pub record BalanceData (F : Type 0) : Type 0 where
  pub user_id : String
  pub account_type : String
  pub balance : F
  pub timestamp : ℕ

pub record TradeStream (F : Type 0) : Type 0 where
  pub id : ℕ
  pub account_id : ℕ
  pub symbol : String
  pub trade_type : String
  pub order_type : String
  pub volume : F
  pub entry_price : F
  pub stop_loss : F
  pub take_profit : F
  pub profit : F
  pub open_time : ℕ
  pub status : String
  pub account_type : String

pub record OrderStreamResponse (F : Type 0) : Type 0 where
  pub user_id : ℕ
  pub account_type : String
  pub trades : List (TradeStream F)

-- The requests that go to the MetaTrader bridge, by their "type".
pub data Request (F : Type 0) : Type 0 where
  -- the trade, its account's name and wallet
  trade_request : TradeHistory F → String → String → Request F
  -- trade, user, account, account type, wallet
  close_trade_request : String → String → String → String → String → Request F
  -- user, account type
  order_stream_request : String → String → Request F
  -- user, account, account type, wallet
  balance_request : String → String → String → String → Request F
  -- trade, user, account, account type, wallet, entry price, volume
  modify_trade_request : String → String → String → String → String → F → F → Request F
