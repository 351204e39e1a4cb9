-- ===== src/Api/Trades.antt =====
-- The handlers of trades: api/trade_handlers.go.
use fxtrader.Base.{
  ℕ, String, Bool, false, not, Option, List, ◌=s=◌, ◌!=s◌, ◌&&◌, ◌||◌, if◌then◌else◌,
}
use fxtrader.Base.Int.{ℤ, pos}
use fxtrader.Base.Result.{Error, new, wrap, with_text, mismatch, driver}
use fxtrader.Outside.{Outside}
use fxtrader.Model.Trade.{TradeHistory, TradeResponse}
use fxtrader.World
use fxtrader.World.{World, Action, present}
use fxtrader.Repo.Trades.{get_trade_by_id, get_trades_by_user_id, get_all_trades}
use fxtrader.Service.Trade.Place.{Order, place_trade}
use fxtrader.Service.Trade.Respond.{handle_trade_response}
use fxtrader.Service.Trade.Close.{register_wallet, close_trade, modify_trade}
use fxtrader.Service.Trade.Stream.{stream_trades}
use fxtrader.Api.{
  Body, Reply, Context, Handler, text_of, pure, ◌>>=◌, ◌>>◌, say, show, tell, call, refuse_if, need,
  bound, logging, hex_or_zero,
}

pub record WalletRequest : Type 0 where
  pub account_id : String
  pub wallet_id : String

pub record ModifyTradeRequest (F : Type 0) : Type 0 where
  pub entry_price : F
  pub volume : F
  pub account_type : String
  pub account_id : String

pub record TradeRequest (F : Type 0) : Type 0 where
  pub symbol_name : String
  pub trade_type : String
  pub order_type : String
  pub leverage : ℤ
  pub volume : F
  pub entry_price : F
  pub stop_loss : F
  pub take_profit : F
  pub expiration : Option ℕ
  pub account_type : String
  pub account_id : String

-- `err.Error() == "timeout waiting for modify response"`
unfoldable pub is_timeout : Error → Bool
is_timeout (new s) = s =s= "timeout waiting for modify response"
is_timeout (wrap s e) = false
is_timeout (with_text s t) = false
is_timeout (mismatch s a b) = false
is_timeout driver = false

module _ ⦃o : Outside⦄ where
  open o use {F, float, lt, le}

  -- The methods of the service that read the id; its error is the library's.
  unfoldable pub get_trade : String → Action (Option (TradeHistory F))
  get_trade id = World.◌>>=◌ (present (o.from_hex id) driver) get_trade_by_id

  unfoldable pub get_user_trades : String → Action (List (TradeHistory F))
  get_user_trades user = World.◌>>=◌ (present (o.from_hex user) driver) get_trades_by_user_id

  unfoldable pub add_wallet : (String → ℕ) → Context → Option WalletRequest → Handler (Reply F)
  add_wallet byte_length c req = do
    r ← bound req
    let user = text_of c.user_id
    i ← need (o.from_hex user) (say 400 "Invalid user ID")
    _ ← need (o.from_hex r.account_id) (say 400 "Invalid account ID")
    call (register_wallet byte_length user r.account_id r.wallet_id) (tell 500)
    logging i "RegisterWallet" "Wallet registered for trading" c.ip
    pure (say 200 "Wallet registered")

  unfoldable pub order_of : String → TradeRequest F → Order F
  order_of user r = record {
    user_id = user;
    account_name = r.account_id;
    symbol = r.symbol_name;
    account_type = r.account_type;
    trade_type = r.trade_type;
    order_type = r.order_type;
    leverage = r.leverage;
    volume = r.volume;
    entry_price = r.entry_price;
    stop_loss = r.stop_loss;
    take_profit = r.take_profit;
    expiration = r.expiration;
  }

  -- `contains` is `strings.Contains`.
  unfoldable pub place :
      (String → String → Bool)
      → (World → World)
      → Context
      → Option (TradeRequest F)
      → Handler (Reply F)
  unfolding order_of
  place contains others c req = do
    r ← bound req
    refuse_if ((r.order_type =s= "MARKET") && lt (float (pos 0)) r.entry_price)
        (say 400 "EntryPrice not allowed for MARKET orders")
    refuse_if
        ((contains r.order_type "LIMIT" || contains r.order_type "STOP")
          && le r.entry_price (float (pos 0)))
        (say 400 "EntryPrice required for LIMIT/STOP orders")
    let user = text_of c.user_id
    (t, a) ← call (place_trade others (order_of user r)) (tell 400)
    logging (hex_or_zero user) "PlaceTrade" "Trade order placed" c.ip
    pure (
        show 201
          (Body.placed t a (if r.order_type =s= "MARKET" then "platform" else "user-to-user")))

  unfoldable pub close : (World → World) → Context → String → Handler (Reply F)
  unfolding get_trade
  close others c id = do
    let user = text_of c.user_id
    found ← call (get_trade id) (λ _. say 400 "Invalid trade ID")
    t ← need found (say 404 "Trade not found")
    refuse_if (o.to_hex t.user_id !=s user) (say 403 "Forbidden (trade belongs to another user)")
    a ← call (close_trade others id user t.account_type (o.to_hex t.account_id)) (tell 500)
    logging (hex_or_zero user) "CloseTrade" "Trade close requested" c.ip
    pure (show 200 (Body.bridge_answer a))

  -- `upgrades` is whether the connection becomes a websocket; then there is no reply but what is
  -- written on it, and 101 stands for that. The registration with the hub is not shown.
  unfoldable pub stream : Bool → Context → Handler (Reply F)
  stream upgrades c = do
    let user = text_of c.user_id
    let type = text_of c.account_type
    i ← need (o.from_hex user) (say 400 "invalid user ID")
    refuse_if ((type !=s "DEMO") && (type !=s "REAL")) (say 400 "invalid account type")
    refuse_if (not upgrades) (say 500 "failed to upgrade to WebSocket")
    logging i "StreamTrades" "Trade streaming started" c.ip
    call (stream_trades user type) (tell 101)
    pure (say 101 "trade_stream_started")

  unfoldable pub show_user_trades : Context → Handler (Reply F)
  unfolding get_user_trades
  show_user_trades c = do
    let user = text_of c.user_id
    ts ← call (get_user_trades user) (λ _. say 500 "Failed to retrieve trades")
    logging (hex_or_zero user) "GetUserTrades" "Retrieved user trades" c.ip
    pure (show 200 (Body.all_trades ts))

  unfoldable pub show_trade : Context → String → Handler (Reply F)
  unfolding get_trade
  show_trade c id = do
    found ← call (get_trade id) (λ _. say 400 "Invalid trade ID")
    t ← need found (say 404 "Trade not found")
    logging (hex_or_zero (text_of c.user_id)) "GetTrade" "Trade data retrieved" c.ip
    pure (show 200 (Body.one_trade t))

  unfoldable pub take_trade_response : Option (TradeResponse F) → Handler (Reply F)
  take_trade_response req = do
    r ← bound req
    call (handle_trade_response r) (tell 500)
    pure (say 200 "Response processed")

  unfoldable pub show_all_trades : Context → Handler (Reply F)
  show_all_trades c = do
    ts ← call get_all_trades (λ _. say 500 "Failed to retrieve trades")
    logging (hex_or_zero (text_of c.user_id)) "GetAllTrades" "Retrieved all trades" c.ip
    pure (show 200 (Body.all_trades ts))

  unfoldable pub modify :
      (World → World) → Context → String → Option (ModifyTradeRequest F) → Handler (Reply F)
  modify others c id req = do
    r ← bound req
    a ←
        call
          (modify_trade others (text_of c.user_id) id r.account_type r.account_id r.entry_price
            r.volume)
          (λ e. if is_timeout e then tell 408 e else tell 500 e)
    pure (show 200 (Body.bridge_answer a))
