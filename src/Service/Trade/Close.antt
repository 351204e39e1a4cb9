-- ===== src/Service/Trade/Close.antt =====
-- `CloseTrade`, `ModifyTrade`, `RequestBalance`, `RegisterWallet`, and the requests that come by
-- message: `HandleTradeRequest` and `HandleBalanceRequest`.
pub mod Asked
pub mod Waited
pub mod Balance
use fxtrader.Base.{
  ℕ, String, Bool, Option, none, some, List, [], ◌∷◌, ◌!=◌, ◌=s=◌, ◌!=s◌, ◌&&◌, ◌||◌, ltb,
  if◌then◌else◌,
}
use fxtrader.Base.Int.{pos}
use fxtrader.Base.Result.{Result, ok, err, new, wrap, with_text, mismatch}
use fxtrader.Outside.{Outside}
use fxtrader.Model.{Account}
use fxtrader.Model.Trade.{
  TradeHistory, TradeResponse, BalanceResponse, close_trade_request, balance_request,
  modify_trade_request,
}
use fxtrader.World.{
  World, Action, pure, raise, continue, ◌>>=◌, ◌>>◌, raise_if, on_error, present, ignore,
}
use fxtrader.Repo.Users.{get_user_by_id}
use fxtrader.Repo.Accounts.{get_account_by_id, update_account}
use fxtrader.Repo.Trades.{get_trade_by_id, save_trade}
use fxtrader.Repo.Others.{log_action}
use fxtrader.Service.Trade.Channels.{send_to_mt5, with_channel, await_response}
use fxtrader.Service.Trade.Place.{Order, place_trade}

module _ ⦃o : Outside⦄ where
  open o use {F, float, lt, le}

  -- `byte_length` is Go's `len` of a text.
  unfoldable pub register_wallet : (String → ℕ) → String → String → String → Action (Unit {0})
  register_wallet byte_length user account wallet = do
    user_id ← present (o.from_hex user) (new "invalid user ID")
    id ← present (o.from_hex account) (new "invalid account ID")
    found ← on_error (get_user_by_id user_id) (λ _. new "user not found")
    u ← present found (new "user not found")
    held ← on_error (get_account_by_id id) (λ _. new "account not found")
    a ← present held (new "account not found")
    raise_if (a.user_id != user_id) (new "account does not belong to user")
    raise_if ((wallet =s= "") || ltb (byte_length wallet) 8) (new "invalid wallet ID")
    on_error (update_account (record a { wallet_id = wallet }))
        (wrap "failed to update account with wallet ID")

  abbrev pub close_answer : String → Option (TradeResponse F) → Action (TradeResponse F)
  close_answer trade none = raise (new "timeout waiting for MT5 close trade response")
  close_answer trade (some r) = do
    raise_if (r.trade_id !=s trade) (new "received response for wrong trade ID")
    pure r

  unfoldable pub close_trade :
      (World → World) → String → String → String → String → Action (TradeResponse F)
  close_trade others trade user type account = do
    trade_id ← present (o.from_hex trade) (new "invalid trade ID")
    user_id ← present (o.from_hex user) (new "invalid user ID")
    account_id ← present (o.from_hex account) (new "invalid account ID")
    found ← get_trade_by_id trade_id
    t ← present found (new "trade not found")
    raise_if ((t.user_id != user_id) || (t.account_id != account_id))
        (new "trade belongs to another user or account")
    raise_if (t.account_type !=s type) (with_text "trade is not associated with account" type)
    held ← on_error (get_account_by_id account_id) (λ _. new "account not found")
    a ← present held (new "account not found")
    with_channel trade (do
      on_error (send_to_mt5 (close_trade_request trade user account type a.wallet_id))
          (wrap "failed to send close trade request")
      r ← await_response trade others
      close_answer trade r)

  unfoldable pub modified : F → F → TradeHistory F → TradeHistory F
  modified price volume t = record t {
    entry_price = if lt (float (pos 0)) price then price else t.entry_price;
    volume = if lt (float (pos 0)) volume then volume else t.volume;
  }

  abbrev modify_answer :
      F → F → ℕ → TradeHistory F → Option (TradeResponse F) → Action (TradeResponse F)
  modify_answer price volume user t none = raise (new "timeout waiting for modify response")
  modify_answer price volume user t (some r) =
      if r.status =s= "MODIFIED"
      then (do
        ignore (save_trade (modified price volume t))
        ignore (log_action user "ModifyTrade" "Modified trade" "")
        pure r)
      else pure r

  -- `volume > 0 && (volume < 0.01 || volume > 100)`
  unfoldable pub bad_volume : F → Bool
  bad_volume v = lt (float (pos 0)) v && (lt v o.cent || lt (float (pos 100)) v)

  -- The checks of `ModifyTrade`.
  unfoldable pub modifiable :
      String → String → String → String → F → F → Action (ℕ × Account F × TradeHistory F)
  modifiable user trade type account price volume = do
    user_id ← present (o.from_hex user) (new "invalid user ID")
    trade_id ← present (o.from_hex trade) (new "invalid trade ID")
    account_id ← present (o.from_hex account) (new "invalid account ID")
    owner ← on_error (get_user_by_id user_id) (λ _. new "user not found")
    u ← present owner (new "user not found")
    held ←
        on_error (get_account_by_id account_id)
          (λ _. new "account not found or does not belong to user")
    a ← present held (new "account not found or does not belong to user")
    raise_if (a.user_id != user_id) (new "account not found or does not belong to user")
    raise_if (a.account_type !=s type) (mismatch "account type mismatch" a.account_type type)
    found ← get_trade_by_id trade_id
    t ← present found (new "trade not found")
    raise_if ((t.user_id != user_id) || (t.account_id != account_id))
        (new "trade does not belong to user or account")
    raise_if (t.status !=s "PENDING") (new "only pending trades can be modified")
    raise_if (le price (float (pos 0)) && le volume (float (pos 0)))
        (new "at least one of entry price or volume must be provided")
    raise_if (bad_volume volume) (new "invalid volume")
    pure (user_id, a, t)

  unfoldable pub modify_trade :
      (World → World) → String → String → String → String → F → F → Action (TradeResponse F)
  modify_trade others user trade type account price volume = do
    (user_id, a, t) ← modifiable user trade type account price volume
    with_channel trade (do
      on_error (send_to_mt5 (modify_trade_request trade user account type a.wallet_id price volume))
          (wrap "failed to send modify request")
      r ← await_response trade others
      modify_answer price volume user_id t r)

  -- The checks of `RequestBalance`.
  unfoldable pub balance_account : String → String → String → Action (Account F)
  balance_account user account type = do
    user_id ← present (o.from_hex user) (new "invalid user ID")
    account_id ← present (o.from_hex account) (new "invalid account ID")
    found ← on_error (get_user_by_id user_id) (λ _. new "failed to fetch user")
    u ← present found (new "user not found")
    held ← on_error (get_account_by_id account_id) (λ _. new "failed to fetch account")
    a ← present held (new "account not found or does not belong to user")
    raise_if (a.user_id != user_id) (new "account not found or does not belong to user")
    raise_if (a.account_type !=s type) (mismatch "account type mismatch" a.account_type type)
    pure a

  -- `BalanceResponse` is for another request.
  abbrev foreign : String → String → String → BalanceResponse F → Bool
  foreign user account type r =
      (r.user_id !=s user) || ((r.account_id !=s account) || (r.account_type !=s type))

  abbrev balance_answer :
      String → String → String → List (BalanceResponse F) → World → Result F × World
  balance_answer user account type [] w = (err (new "timeout waiting for balance response"), w)
  balance_answer user account type (r ∷ rest) w =
      let w' = record w { balance_chan = rest } in
      if foreign user account type r
      then (err (new "invalid balance response"), w')
      else (ok r.balance, w')

  -- The `select` on `balanceChan`.
  unfoldable pub await_balance : (World → World) → String → String → String → Action F
  await_balance others user account type w =
      let w' = others w in balance_answer user account type w'.balance_chan w'

  unfoldable pub request_balance : (World → World) → String → String → String → Action F
  request_balance others user account type = do
    a ← balance_account user account type
    on_error (send_to_mt5 (balance_request user account type a.wallet_id))
        (wrap "failed to send balance request")
    await_balance others user account type
