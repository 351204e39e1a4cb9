-- ===== src/Service/Trade/Request.antt =====
-- The requests that come as messages: `HandleTradeRequest` and `HandleBalanceRequest`. A field of
-- the wrong type, or none, is `none`.
use fxtrader.Base.{ℕ, String, Option, none, some, ◌=s=◌, ◌!=s◌, if◌then◌else◌}
use fxtrader.Base.Int.{pos}
use fxtrader.Base.Result.{new}
use fxtrader.Outside.{Outside}
use fxtrader.World.{World, Action, pure, ◌>>=◌, ◌>>◌, raise_if, on_error, present}
use fxtrader.Repo.Accounts.{get_account_by_id}
use fxtrader.Service.Trade.Place.{Order, place_trade}
use fxtrader.Service.Trade.Close.{request_balance}

-- `map[string]interface{}`, by the keys that the handlers read.
pub record Message (F : Type 0) : Type 0 where
  pub trade_id : Option String
  pub user_id : Option String
  pub account_id : Option String
  pub symbol : Option String
  pub trade_type : Option String
  pub account_type : Option String
  pub wallet_id : Option String
  pub order_type : Option String
  pub leverage : Option F
  pub volume : Option F
  pub entry_price : Option F
  pub stop_loss : Option F
  pub take_profit : Option F
  pub expiration : Option F

module _ ⦃o : Outside⦄ where
  open o use {F, float, lt}

  -- `exp, ok := …; ok && exp > 0`
  abbrev expiration_of : Option F → Option ℕ
  expiration_of none = none
  expiration_of (some x) = if lt (float (pos 0)) x then some (o.unix x) else none

  -- The type assertions, in order. The trade id is asked for and not used.
  unfoldable pub decode : Message F → Action (Order F × String)
  decode m = do
    _ ← present m.trade_id (new "missing or invalid trade_id")
    user ← present m.user_id (new "missing or invalid user_id")
    account ← present m.account_id (new "missing or invalid account_id")
    symbol ← present m.symbol (new "missing or invalid symbol")
    trade_type ← present m.trade_type (new "missing or invalid trade_type")
    account_type ← present m.account_type (new "missing or invalid account_type")
    wallet ← present m.wallet_id (new "missing or invalid wallet_id")
    raise_if (wallet =s= "") (new "missing or invalid wallet_id")
    order_type ← present m.order_type (new "missing or invalid order_type")
    leverage ← present m.leverage (new "missing or invalid leverage")
    volume ← present m.volume (new "missing or invalid volume")
    entry_price ← present m.entry_price (new "missing or invalid entry_price")
    stop_loss ← present m.stop_loss (new "missing or invalid stop_loss")
    take_profit ← present m.take_profit (new "missing or invalid take_profit")
    pure (
      record {
        user_id = user;
        account_name = account;
        symbol = symbol;
        account_type = account_type;
        trade_type = trade_type;
        order_type = order_type;
        leverage = o.to_int leverage;
        volume = volume;
        entry_price = entry_price;
        stop_loss = stop_loss;
        take_profit = take_profit;
        expiration = expiration_of m.expiration;
      },
      wallet,
    )

  -- The account id of the message goes to `PlaceTrade`, which takes it for a name.
  unfoldable pub handle_trade_request : (World → World) → Message F → Action (Unit {0})
  unfolding decode
  handle_trade_request others m = do
    (q, wallet) ← decode m
    id ← present (o.from_hex q.account_name) (new "invalid account ID")
    held ← on_error (get_account_by_id id) (λ _. new "account not found")
    a ← present held (new "account not found")
    raise_if (a.wallet_id !=s wallet) (new "wallet ID mismatch")
    placed ← place_trade others q
    pure tt

  unfoldable pub handle_balance_request : (World → World) → Message F → Action (Unit {0})
  handle_balance_request others m = do
    user ← present m.user_id (new "missing or invalid user_id")
    account ← present m.account_id (new "missing or invalid account_id")
    type ← present m.account_type (new "missing or invalid account_type")
    balance ← request_balance others user account type
    pure tt
