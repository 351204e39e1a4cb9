-- ===== src/Service/Copy.antt =====
-- `copyTradeService` of service/copy_trade_service.go.
pub mod Unanswered
use fxtrader.Base.{
  ℕ, String, Bool, true, false, not, Option, none, some, List, [], ◌∷◌, find?, ◌=s=◌, ◌!=s◌,
  if◌then◌else◌,
}
use fxtrader.Base.Int.{pos}
use fxtrader.Base.Result.{Result, ok, err, panic, new, with_text}
use fxtrader.Outside.{Outside}
use fxtrader.Model.{Account, User, CopyTradeSubscription, CopyTrade}
use fxtrader.Model.Trade.{TradeHistory}
use fxtrader.World.{
  World, Action, pure, continue, ◌>>=◌, ◌>>◌, raise_if, on_error, present, attempt,
}
use fxtrader.Repo.Others.{
  log_action, save_subscription, get_active_subscriptions_by_leader_id, save_copy_trade,
}
use fxtrader.Service.Leaders.{get_user}
use fxtrader.Service.Users.{get_accounts}
use fxtrader.Service.Trade.Place.{Order, place_trade}
use fxtrader.Service.Trade.Close.{request_balance}

module _ ⦃o : Outside⦄ where
  open o use {F, float, mul, div, min, lt, le}

  unfoldable pub has_type : String → Account F → Bool
  has_type type a = a.account_type =s= type

  unfoldable pub subscription_of :
      String → String → F → String → User F → User F → CopyTradeSubscription F
  subscription_of follower leader amount type f l = record {
    id = 0;
    follower_id = follower;
    leader_id = leader;
    account_type = type;
    follower_id_telegram = f.telegram_id;
    leader_id_telegram = l.telegram_id;
    allocated_amount = amount;
    status = "ACTIVE";
    created_at = 0;
  }

  unfoldable pub create_subscription :
      (World → World) → String → String → F → String → Action (CopyTradeSubscription F)
  create_subscription others follower leader amount type = do
    raise_if (le amount (float (pos 0))) (new "allocated amount must be positive")
    follower_found ← on_error (get_user follower) (λ _. new "follower not found")
    f ← present follower_found (new "follower not found")
    leader_found ← on_error (get_user leader) (λ _. new "leader not found")
    l ← present leader_found (new "leader not found")
    raise_if (not l.is_copy_trade_leader) (new "user is not an approved copy trade leader")
    accounts ← on_error (get_accounts follower) (λ _. new "failed to fetch follower accounts")
    a ←
        present (find? (has_type type) accounts)
          (with_text "follower does not have account of type" type)
    balance ←
        on_error (request_balance others follower (o.to_hex a.id) type)
          (λ _. new "failed to fetch follower balance")
    raise_if (lt balance amount) (new "insufficient balance")
    s ← save_subscription (subscription_of follower leader amount type f l)
    log_action 0 "CreateCopySubscription" "Copy trade subscription created" ""
    pure s

  -- The order for a follower. The account's id stands where `PlaceTrade` wants a name, and the
  -- symbol's name where it wants a display name.
  unfoldable pub follower_order :
      TradeHistory F → CopyTradeSubscription F → Account F → String → F → Order F
  follower_order t s a type volume = record {
    user_id = s.follower_id;
    account_name = o.to_hex a.id;
    symbol = t.symbol;
    account_type = type;
    trade_type = t.trade_type;
    order_type = t.order_type;
    leverage = t.leverage;
    volume = volume;
    entry_price = t.entry_price;
    stop_loss = t.stop_loss;
    take_profit = t.take_profit;
    expiration = t.expiration;
  }

  abbrev copy_of : CopyTradeSubscription F → TradeHistory F → TradeHistory F → CopyTrade
  copy_of s t f = record {
    id = 0;
    subscription_id = s.id;
    leader_trade_id = t.id;
    follower_trade_id = f.id;
    created_at = 0;
  }

  abbrev went_on : Result (Unit {0}) → Bool
  went_on (ok _) = true
  went_on (err _) = false
  went_on panic = false

  -- A round for one subscription: whether the loop goes on. An error is a `continue`.
  unfoldable pub mirror_one :
      (World → World) → TradeHistory F → String → F → CopyTradeSubscription F → Action Bool
  mirror_one others t type ratio s = if s.account_type !=s type then pure true else do
    accounts ← get_accounts s.follower_id
    a ← present (find? (has_type type) accounts) (new "no account of the type")
    balance ← request_balance others s.follower_id (o.to_hex a.id) type
    (f, r) ←
        place_trade others (follower_order t s a type (mul (min s.allocated_amount balance) ratio))
    c ← save_copy_trade (copy_of s t f)
    logged ← attempt (log_action 0 "MirrorTrade" "Trade mirrored for follower" "")
    pure (went_on logged)

  abbrev goes_on : Result Bool → Bool
  goes_on (ok b) = b
  goes_on (err _) = true
  goes_on panic = false

  unfoldable pub mirror_loop :
      (World → World)
      → TradeHistory F
      → String
      → F
      → List (CopyTradeSubscription F)
      → Action (Unit {0})
  unfolding mirror_one
  mirror_loop others t type ratio [] = pure tt
  mirror_loop others t type ratio (s ∷ ss) =
      let rest = mirror_loop others t type ratio ss in
      do round ← attempt (mirror_one others t type ratio s); if goes_on round then rest else pure tt

  unfoldable pub mirror_trade : (World → World) → TradeHistory F → String → Action (Unit {0})
  unfolding mirror_loop
  mirror_trade others t type = do
    subscriptions ← get_active_subscriptions_by_leader_id (o.to_hex t.user_id)
    balance ←
        on_error (request_balance others (o.to_hex t.user_id) (o.to_hex t.account_id) type)
          (λ _. new "failed to fetch leader balance")
    raise_if (le balance (float (pos 0))) (new "leader balance is zero")
    mirror_loop others t type (div t.volume balance) subscriptions
