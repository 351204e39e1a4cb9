-- ===== src/Service/Trade/Respond.antt =====
-- What the bridge's messages do: `HandleTradeResponse`, `HandleCloseTradeResponse`,
-- `HandleBalanceResponse` and `HandleOrderStreamResponse`.
pub mod Answer
pub mod Closing
pub mod Reported
use fxtrader.Base.{
  ℕ, String, Bool, Option, none, some, List, [], ◌∷◌, ◌<>◌, insert, lookup, length, ltb, ◌!=◌,
  ◌=s=◌, ◌!=s◌, if◌then◌else◌,
}
use fxtrader.Base.Int.{pos}
use fxtrader.Base.Result.{Result, ok, err, panic, new, wrap, with_text, mismatch}
use fxtrader.Outside.{Outside}
use fxtrader.Model.{Account}
use fxtrader.Model.Trade.{
  TradeHistory, TradeResponse, BalanceResponse, BalanceData, TradeStream, OrderStreamResponse,
}
use fxtrader.World.{
  World, Action, Channel, Broadcast, pure, raise, modify, continue, ◌>>=◌, ◌>>◌, raise_if, on_error,
  present, ignore, now, attempt,
}
use fxtrader.World.{trade_update, balance_update, order_update}
use fxtrader.Repo.Users.{get_user_by_id}
use fxtrader.Repo.Accounts.{get_account_by_id, update_account}
use fxtrader.Repo.Trades.{get_trade_by_id, save_trade}
use fxtrader.Repo.Others.{log_action}
use fxtrader.Service.Trade.Channels.{post_response}

module _ ⦃o : Outside⦄ where
  open o use {F, float, add, sub, mul, div, neg, lt}

  abbrev pub broadcast : Broadcast F → Action (Unit {0})
  broadcast b = modify λ w. record w { broadcasts = b ∷ w.broadcasts }

  unfoldable pub handle_balance_response : BalanceResponse F → Action (Unit {0})
  handle_balance_response r = do
    user ← present (o.from_hex r.user_id) (new "invalid user ID")
    id ← present (o.from_hex r.account_id) (new "invalid account ID")
    found ← on_error (get_user_by_id user) (wrap "failed to fetch user")
    u ← present found (new "user not found")
    held ← on_error (get_account_by_id id) (wrap "failed to fetch account")
    a ← present held (new "account not found or does not belong to user")
    raise_if (a.user_id != user) (new "account not found or does not belong to user")
    raise_if (a.account_type !=s r.account_type)
        (mismatch "account type mismatch" a.account_type r.account_type)
    on_error (update_account (record a { balance = r.balance }))
        (wrap "failed to update account balance")
    time ← now
    broadcast (
        balance_update (record {
          user_id = r.user_id;
          account_type = r.account_type;
          balance = r.balance;
          timestamp = time;
        }))

  -- `if response.MatchedVolume > 0 { trade.Volume -= response.MatchedVolume }`
  unfoldable pub less_matched : TradeResponse F → TradeHistory F → TradeHistory F
  less_matched r t =
      if lt (float (pos 0)) r.matched_volume
      then record t { volume = sub t.volume r.matched_volume }
      else t

  unfoldable pub margin_of : TradeHistory F → F
  margin_of t = div (mul t.volume t.entry_price) (float t.leverage)

  -- The default branch of the switch: the trade is closed and its margin given back.
  unfoldable pub reject : TradeResponse F → Account F → TradeHistory F → Action (TradeHistory F)
  reject r a t = do
    time ← now
    ignore (update_account (record a { balance = add a.balance (margin_of t) }))
    pure (record t { status = "CLOSED"; close_time = some time; close_reason = r.status })

  -- The switch on the status.
  unfoldable pub apply_status :
      TradeResponse F → Account F → TradeHistory F → Action (TradeHistory F)
  unfolding reject
  apply_status r a t =
      if r.status =s= "MATCHED"
      then pure (record t { status = "OPEN"; matched_trade_id = r.matched_trade_id })
      else if r.status =s= "PENDING"
      then pure (record t { status = "PENDING" })
      else reject r a t

  unfoldable pub handle_trade_response : TradeResponse F → Action (Unit {0})
  unfolding apply_status less_matched
  handle_trade_response r = do
    id ← present (o.from_hex r.trade_id) (new "invalid trade ID")
    found ← get_trade_by_id id
    t ← present found (new "trade not found")
    held ← on_error (get_account_by_id t.account_id) (λ _. new "account not found")
    a ← present held (new "account not found")
    t' ← apply_status r a (less_matched r t)
    t'' ← save_trade t'
    ignore (log_action t.user_id "TradeResponse" "Trade status updated" "")
    post_response r.trade_id r

  unfoldable pub closed_by : TradeResponse F → TradeHistory F → TradeHistory F
  closed_by r t = record t {
    status = "CLOSED";
    close_time = some (o.unix r.timestamp);
    close_price = r.close_price;
    close_reason = r.close_reason;
  }

  unfoldable pub profit_of : TradeResponse F → TradeHistory F → F
  profit_of r t =
      let profit = mul (sub r.close_price t.entry_price) t.volume in
      if t.trade_type =s= "SELL" then neg profit else profit

  unfoldable pub handle_close_trade_response : TradeResponse F → Action (Unit {0})
  handle_close_trade_response r = do
    raise_if (r.status !=s "SUCCESS") (with_text "MT5 failed to close trade" r.status)
    id ← present (o.from_hex r.trade_id) (new "invalid trade ID")
    found ← get_trade_by_id id
    t ← present found (new "trade not found")
    raise_if (t.account_type !=s r.account_type)
        (mismatch "trade account type mismatch" t.account_type r.account_type)
    held ← on_error (get_account_by_id t.account_id) (λ _. new "account not found")
    a ← present held (new "account not found")
    ignore
        (update_account (record a { balance = add a.balance (add (profit_of r t) (margin_of t)) }))
    t' ← save_trade (closed_by r t)
    ignore (log_action t.user_id "TradeResponse" "Trade closed" "")
    post_response r.trade_id r
    broadcast (trade_update t')

  -- The trade that a streamed one becomes.
  unfoldable pub trade_of : ℕ → TradeStream F → TradeHistory F
  trade_of user s = record {
    id = s.id;
    user_id = user;
    symbol = s.symbol;
    account_id = s.account_id;
    trade_type = s.trade_type;
    order_type = s.order_type;
    leverage = pos 0;
    volume = s.volume;
    entry_price = s.entry_price;
    close_price = float (pos 0);
    stop_loss = s.stop_loss;
    take_profit = s.take_profit;
    profit = float (pos 0);
    open_time = s.open_time;
    close_time = none;
    close_reason = "";
    status = s.status;
    matched_trade_id = "";
    expiration = none;
    account_type = s.account_type;
    execution_type = "";
  }

  -- The four fields of a known trade that the stream sets.
  unfoldable pub streamed_into : TradeHistory F → TradeHistory F → TradeHistory F
  streamed_into s t = record t {
    status = s.status;
    account_type = s.account_type;
    account_id = s.account_id;
    volume = s.volume;
  }

  abbrev merged : TradeHistory F → Option (TradeHistory F) → TradeHistory F
  merged s none = s
  merged s (some t) = streamed_into s t

  -- The trade that is broadcast: a new one as saved, else the streamed one.
  abbrev shown : TradeHistory F → TradeHistory F → Option (TradeHistory F) → TradeHistory F
  shown s saved none = saved
  shown s saved (some t) = s

  -- A round of the loop; an error of the database ends the round only.
  unfoldable pub stream_one : OrderStreamResponse F → TradeStream F → Action (Unit {0})
  stream_one r s =
      if s.account_type !=s r.account_type
      then pure tt
      else ignore (do
        found ← get_trade_by_id s.id
        saved ← save_trade (merged (trade_of r.user_id s) found)
        broadcast (trade_update (shown (trade_of r.user_id s) saved found)))

  unfoldable pub stream_all : OrderStreamResponse F → List (TradeStream F) → Action (Unit {0})
  unfolding stream_one
  stream_all r [] = pure tt
  stream_all r (s ∷ ss) = stream_one r s >> stream_all r ss

  -- The key of a stream.
  unfoldable pub stream_key : String → String → String
  stream_key user type = user <> (":" <> type)

  abbrev offered :
      String
      → OrderStreamResponse F
      → Option (Channel (OrderStreamResponse F))
      → World
      → Result (Unit {0}) × World
  offered key r none w = (ok tt, w)
  offered key r (some c) w =
      if c.is_closed
      then (panic, w)
      else if ltb (length c.buffer) 256
      then (
        ok tt,
        record w { order_chans = insert key (record c { buffer = r ∷ c.buffer }) w.order_chans },
      )
      else (ok tt, w)

  -- The non-blocking send on a stream's channel, of capacity 256. A send on a closed channel
  -- panics, in a `select` too.
  unfoldable pub offer : String → OrderStreamResponse F → Action (Unit {0})
  offer key r w = offered key r (lookup key w.order_chans) w

  unfoldable pub handle_order_stream_response : OrderStreamResponse F → Action (Unit {0})
  unfolding stream_all
  handle_order_stream_response r = do
    stream_all r r.trades
    ignore (log_action r.user_id "OrderStreamResponse" "Order stream processed" "")
    offer (stream_key (o.to_hex r.user_id) r.account_type) r
    broadcast (order_update r)
