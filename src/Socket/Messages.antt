-- ===== src/Socket/Messages.antt =====
-- What goes over the socket of the bridges: the messages of socket/socket_server.go.
use fxtrader.Base.{ℕ, String, Option}
use fxtrader.Base.Result.{Error}
use fxtrader.Model.Trade.{TradeResponse, BalanceResponse, OrderStreamResponse, Request}

-- The messages that the server writes, with their Unix times.
pub data Outgoing (F : Type 0) : Type 0 where
  request : Request F → Outgoing F
  ping : ℕ → Outgoing F
  pong : ℕ → Outgoing F
  disconnect : String → ℕ → Outgoing F
  handshake_response : ℕ → Outgoing F
  -- the user, the name of the account and its balance
  balance_response : String → String → F → ℕ → Outgoing F
  problem : Error → ℕ → Outgoing F
  -- `models.ErrorResponse`
  stream_error : Error → Outgoing F

-- What the methods read of a message: a field that is missing or no text is `none`, and so is a
-- structure that the message does not decode into.
pub record Fields (F : Type 0) : Type 0 where
  pub client_id : Option String
  pub account_name : Option String
  pub user_id : Option String
  pub trade_response : Option (TradeResponse F)
  pub balance_response : Option (BalanceResponse F)
  pub order_stream : Option (OrderStreamResponse F)

pub data Incoming (F : Type 0) : Type 0 where
  not_json : Incoming F
  -- without a "type" that is a text
  untyped : Incoming F
  typed : String → Fields F → Incoming F
