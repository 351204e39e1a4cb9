-- ===== src/Repo/Trades.antt =====
-- `MongoTradeRepository` of repository/trade_repository.go.
pub mod Expiry
use fxtrader.Base.{
  ℕ, String, Bool, true, false, Option, none, some, List, [], ◌∷◌, ltb, ◌==◌, ◌=s=◌, ◌&&◌,
  if◌then◌else◌,
}
use fxtrader.Base.Int.{pos}
use fxtrader.Base.Result.{ok}
use fxtrader.Outside.{Outside}
use fxtrader.Model.Trade.{TradeHistory}
use fxtrader.World.{Action, pure, gets, ◌>>=◌, ◌>>◌, now, new_object_id, external}

module _ ⦃o : Outside⦄ where
  open o use {F, float}

  -- the filter `{"_id": id}`
  unfoldable pub has_id : ℕ → TradeHistory F → Bool
  has_id i t = t.id == i

  unfoldable pub has_user : ℕ → TradeHistory F → Bool
  has_user i t = t.user_id == i

  -- What a document decodes to in the fields that it lacks. The zero time is 0.
  unfoldable pub decoded_empty : ℕ → TradeHistory F
  decoded_empty i = record {
    id = i;
    user_id = 0;
    symbol = "";
    account_id = 0;
    trade_type = "";
    order_type = "";
    leverage = pos 0;
    volume = float (pos 0);
    entry_price = float (pos 0);
    close_price = float (pos 0);
    stop_loss = float (pos 0);
    take_profit = float (pos 0);
    profit = float (pos 0);
    open_time = 0;
    close_time = none;
    close_reason = "";
    status = "";
    matched_trade_id = "";
    expiration = none;
    account_type = "";
    execution_type = "";
  }

  -- The `$set` of `SaveTrade`. Its keys "trade_id" and "timestamp" are no fields of a trade.
  unfoldable pub set_trade : TradeHistory F → TradeHistory F → TradeHistory F
  set_trade t old = record old {
    account_id = t.account_id;
    account_type = t.account_type;
    trade_type = t.trade_type;
    order_type = t.order_type;
    symbol = t.symbol;
    leverage = t.leverage;
    entry_price = t.entry_price;
    status = t.status;
    volume = t.volume;
    matched_trade_id = t.matched_trade_id;
    close_time = t.close_time;
    stop_loss = t.stop_loss;
    user_id = t.user_id;
    profit = t.profit;
    take_profit = t.take_profit;
    expiration = t.expiration;
  }

  insert_trade : TradeHistory F → Action (TradeHistory F)
  insert_trade t = do
    i ← new_object_id
    opened ← now
    let t' = record t { id = i; open_time = opened }
    external λ w. (ok t', record w { trades = o.insert_one (TradeHistory F) t' w.trades })

  -- The collection after the upsert of `SaveTrade`.
  unfoldable pub upserted : TradeHistory F → o.Coll (TradeHistory F) → o.Coll (TradeHistory F)
  upserted t c =
      o.upsert_one (TradeHistory F) (has_id t.id) (set_trade t) (set_trade t (decoded_empty t.id)) c

  upsert_trade : TradeHistory F → Action (TradeHistory F)
  upsert_trade t = external λ w. (ok t, record w { trades = upserted t w.trades })

  -- It returns the trade, whose id and opening time an insertion has set.
  unfoldable pub save_trade : TradeHistory F → Action (TradeHistory F)
  unfolding insert_trade upsert_trade
  save_trade t = if t.id == 0 then insert_trade t else upsert_trade t

  unfoldable pub get_trade_by_id : ℕ → Action (Option (TradeHistory F))
  get_trade_by_id i = external (gets λ w. o.find_one (TradeHistory F) (has_id i) w.trades)

  unfoldable pub set_status : String → TradeHistory F → TradeHistory F
  set_status s t = record t { status = s }

  -- `Expiration != nil && Expiration.Before(now) && Status == "PENDING"`
  unfoldable pub has_expired : ℕ → TradeHistory F → Bool
  has_expired time t =
      (elim t.expiration [ none ↦ false | some e ↦ ltb e time ]) && (t.status =s= "PENDING")

  write_expired : ℕ → Action (Unit {0})
  write_expired i = external λ w. (
    ok tt,
    record w {
      trades = (o.update_one (TradeHistory F) (has_id i) (set_status "EXPIRED") w.trades).0;
    },
  )

  -- The loop of `GetTradesByUserID`.
  unfoldable pub expire : ℕ → List (TradeHistory F) → Action (List (TradeHistory F))
  unfolding write_expired has_expired set_status
  expire time [] = pure []
  expire time (t ∷ ts) =
      let rest = expire time ts in
      if has_expired time t
      then (do write_expired t.id; ts' ← rest; pure (set_status "EXPIRED" t ∷ ts'))
      else (do ts' ← rest; pure (t ∷ ts'))

  unfoldable pub get_trades_by_user_id : ℕ → Action (List (TradeHistory F))
  unfolding expire
  get_trades_by_user_id user = do
    trades ← external (gets λ w. o.find (TradeHistory F) (has_user user) w.trades)
    time ← now
    expire time trades

  any_trade : TradeHistory F → Bool
  any_trade t = true

  unfoldable pub get_all_trades : Action (List (TradeHistory F))
  unfolding any_trade
  get_all_trades = external (gets λ w. o.find (TradeHistory F) any_trade w.trades)
