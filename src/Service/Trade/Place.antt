-- ===== src/Service/Trade/Place.antt =====
-- `PlaceTrade`.
pub mod Checks
pub mod Refused
pub mod Progress
pub mod Exchange
pub mod Whole
use fxtrader.Base.{
  ℕ, String, Bool, not, Option, none, some, List, [], ◌∷◌, contains, find?, ltb, ◌==◌, ◌!=◌, ◌=s=◌,
  ◌!=s◌, ◌&&◌, ◌||◌, if◌then◌else◌,
}
use fxtrader.Base.Int.{ℤ, pos, ltb_ℤ}
use fxtrader.Base.Result.{Error, Result, ok, err, new, wrap, mismatch}
use fxtrader.Outside.{Outside}
use fxtrader.Model.{Account, Symbol}
use fxtrader.Model.Retcodes.{retcode_text}
use fxtrader.Model.Trade.{TradeHistory, TradeResponse, trade_request}
use fxtrader.World.{
  World, Action, pure, raise, modify, continue, ◌>>=◌, ◌>>◌, raise_if, on_error, present, ignore,
  now, new_object_id,
}
use fxtrader.Repo.Users.{get_user_by_id}
use fxtrader.Repo.Accounts.{get_account_by_name, update_account}
use fxtrader.Repo.Trades.{save_trade}
use fxtrader.Repo.Others.{get_all_symbols}
use fxtrader.Service.Trade.Channels.{send_to_mt5, with_channel, await_response}

-- The arguments of `PlaceTrade`. Its `accountID` is the name of an account.
pub record Order (F : Type 0) : Type 0 where
  pub user_id : String
  pub account_name : String
  pub symbol : String
  pub account_type : String
  pub trade_type : String
  pub order_type : String
  pub leverage : ℤ
  pub volume : F
  pub entry_price : F
  pub stop_loss : F
  pub take_profit : F
  pub expiration : Option ℕ

-- What the checks have found.
pub record Accepted (F : Type 0) : Type 0 where
  pub user : ℕ
  pub account : Account F
  pub symbol : Symbol F

module _ ⦃o : Outside⦄ where
  open o use {F, float, add, sub, mul, div, lt, le}

  unfoldable pub has_display_name : String → Symbol F → Bool
  has_display_name name s = s.display_name =s= name

  unfoldable pub required_margin : Order F → F
  required_margin q = div (mul q.volume q.entry_price) (float q.leverage)

  -- The margin and the commission.
  unfoldable pub cost : Order F → Symbol F → F
  unfolding required_margin
  cost q s = add (required_margin q) s.commission_fee

  abbrev pub valid_order_types : List String
  valid_order_types = "MARKET" ∷ "BUY_STOP" ∷ "SELL_STOP" ∷ "BUY_LIMIT" ∷ "SELL_LIMIT" ∷ []

  -- The user, the account and the symbol.
  unfoldable pub find_parties : Order F → Action (Accepted F)
  find_parties q = do
    user ← present (o.from_hex q.user_id) (new "invalid user ID")
    found ← on_error (get_user_by_id user) (λ _. new "failed to fetch user")
    u ← present found (new "user not found")
    owned ← on_error (get_account_by_name q.account_name user) (λ _. new "failed to fetch account")
    account ← present owned (new "account not found or does not belong to user")
    raise_if (account.user_id != user) (new "account not found or does not belong to user")
    raise_if (account.account_type !=s q.account_type)
        (mismatch "account type mismatch" account.account_type q.account_type)
    symbols ← on_error get_all_symbols (λ _. new "failed to fetch symbols")
    symbol ← present (find? (has_display_name q.symbol) symbols) (new "symbol not found")
    pure (record { user = user; account = account; symbol = symbol })

  -- `expiration != nil && expiration.Before(time.Now())`
  unfoldable pub check_expiration : Option ℕ → Action (Unit {0})
  check_expiration none = pure tt
  check_expiration (some e) = do
    time ← now
    raise_if (ltb e time) (new "expiration time must be in the future")

  -- The checks on the order's own values, in the order of the code.
  unfoldable pub check_order : Order F → Account F → Symbol F → Action (Unit {0})
  check_order q a s = do
    raise_if (lt a.balance (cost q s)) (new "insufficient balance")
    raise_if ((q.trade_type !=s "BUY") && (q.trade_type !=s "SELL")) (new "invalid trade type")
    raise_if (not (contains valid_order_types q.order_type)) (new "invalid order type")
    raise_if (lt q.volume s.min_lot || lt s.max_lot q.volume) (new "volume out of allowed range")
    raise_if (ltb_ℤ s.leverage q.leverage) (new "leverage exceeds symbol limit")
    raise_if ((q.order_type !=s "MARKET") && le q.entry_price (float (pos 0)))
        (new "entry price required for non-market orders")
    raise_if ((q.order_type =s= "MARKET") && lt (float (pos 0)) q.entry_price)
        (new "entry price not allowed for market orders")
    raise_if (lt q.stop_loss (float (pos 0)) || lt q.take_profit (float (pos 0)))
        (new "stop loss and take profit cannot be negative")
    check_expiration q.expiration

  -- `account.Balance -= cost`, on the copy of the account that the method holds
  unfoldable pub charged : F → Account F → Account F
  charged c a = record a { balance = sub a.balance c }

  -- `account.Balance += cost`, on the same copy
  unfoldable pub refunded : F → Account F → Account F
  unfolding charged
  refunded c a = record a { balance = add (sub a.balance c) c }

  unfoldable pub new_trade : Order F → Accepted F → ℕ → ℕ → TradeHistory F
  new_trade q p id time = record {
    id = id;
    user_id = p.user;
    symbol = p.symbol.symbol_name;
    account_id = p.account.id;
    trade_type = q.trade_type;
    order_type = q.order_type;
    leverage = q.leverage;
    volume = q.volume;
    entry_price = q.entry_price;
    close_price = float (pos 0);
    stop_loss = q.stop_loss;
    take_profit = q.take_profit;
    profit = float (pos 0);
    open_time = time;
    close_time = none;
    close_reason = "";
    status = "PENDING";
    matched_trade_id = "";
    expiration = q.expiration;
    account_type = q.account_type;
    execution_type = "";
  }

  -- An error after the charge: the copy of the account is written back with the cost added.
  unfoldable pub refund_and_raise : {A : Type 0} → Order F → Accepted F → Error → Action A
  refund_and_raise q p e = do
    ignore (update_account (refunded (cost q p.symbol) p.account))
    raise e

  abbrev pub or_refund : {A : Type 0} → Order F → Accepted F → Action A → Action A
  or_refund {A} q p m w = elim (m w).0 as (λ _. Result A × World) [
    | ok a ↦ (ok a, (m w).1)
    | err e ↦ refund_and_raise q p e (m w).1
    | Result.panic ↦ (Result.panic, (m w).1)
  ]

  unfoldable pub closed_as : String → ℕ → TradeHistory F → TradeHistory F
  closed_as reason time t = record t {
    status = "CLOSED";
    close_time = some time;
    close_reason = reason;
  }

  -- The trade is closed, its saving's error is dropped, and the cost is refunded.
  unfoldable pub abandon :
      {A : Type 0} → Order F → Accepted F → TradeHistory F → String → Error → Action A
  unfolding refund_and_raise
  abandon q p t reason e = do
    time ← now
    ignore (save_trade (closed_as reason time t))
    refund_and_raise q p e

  abbrev pub with_status : String → TradeResponse F → TradeHistory F → TradeHistory F
  with_status s r t = record t { status = s; matched_trade_id = r.matched_trade_id }

  abbrev pub accept :
      Order F
      → Accepted F
      → TradeHistory F
      → TradeResponse F
      → Action (TradeHistory F × TradeResponse F)
  accept q p t r = do t' ← or_refund q p (save_trade t); pure (t', r)

  -- `fmt.Errorf("%s", constants.TradeRetcodes[…]["fa"])`
  abbrev pub refusal : TradeResponse F → Error
  refusal r = new (retcode_text r.trade_retcode "fa")

  -- The branch of the `select` that gets an answer.
  unfoldable pub answered :
      Order F
      → Accepted F
      → TradeHistory F
      → TradeResponse F
      → Action (TradeHistory F × TradeResponse F)
  unfolding abandon refund_and_raise
  answered q p t r =
      if r.trade_id !=s o.to_hex t.id
      then refund_and_raise q p (new "received response for wrong trade ID")
      else if r.status =s= "MATCHED"
      then accept q p (with_status "OPEN" r t) r
      else if r.status =s= "PENDING"
      then accept q p (with_status "PENDING" r t) r
      else abandon q p (with_status r.status r t) r.status (refusal r)

  unfoldable pub conclude :
      Order F
      → Accepted F
      → TradeHistory F
      → Option (TradeResponse F)
      → Action (TradeHistory F × TradeResponse F)
  unfolding answered abandon
  conclude q p t (some r) = answered q p t r
  conclude q p t none = abandon q p t "TIMEOUT" (new "timeout waiting for MT5 trade response")

  abbrev pub request_of : Order F → Accepted F → TradeHistory F → Action (Unit {0})
  request_of q p t = send_to_mt5 (trade_request t q.account_name p.account.wallet_id)

  -- From the sending of the request to the answer, while the channel is registered.
  unfoldable pub exchange :
      (World → World)
      → Order F
      → Accepted F
      → TradeHistory F
      → Action (TradeHistory F × TradeResponse F)
  unfolding conclude
  exchange others q p t = do
    or_refund q p (request_of q p t)
    t' ← or_refund q p (save_trade t)
    r ← await_response (o.to_hex t.id) others
    conclude q p t' r

  spawn_mirror : TradeHistory F → String → Action (Unit {0})
  spawn_mirror t type = modify λ w. record w { spawned = (t, type) ∷ w.spawned }

  -- What follows the checks.
  unfoldable pub execute_order :
      (World → World) → Order F → Accepted F → Action (TradeHistory F × TradeResponse F)
  unfolding spawn_mirror
  execute_order others q p = do
    on_error (update_account (charged (cost q p.symbol) p.account))
        (wrap "failed to update account balance")
    id ← new_object_id
    time ← now
    (t, r) ← with_channel (o.to_hex id) (exchange others q p (new_trade q p id time))
    spawn_mirror t q.account_type
    pure (t, r)

  unfoldable pub place_trade : (World → World) → Order F → Action (TradeHistory F × TradeResponse F)
  place_trade others q = do
    p ← find_parties q
    check_order q p.account p.symbol
    execute_order others q p
