-- ===== src/Hub.antt =====
-- The websocket hub: ws/hub.go and `Client` of models/client.go. One event is one round of the
-- loop of `Run`; the clients are walked in the order of the list.
pub mod Buffers
pub mod Delivery
pub mod Handler
pub mod Strangers
use fxtrader.Base.{
  ℕ, String, Bool, true, false, Option, none, some, List, [], ◌∷◌, ◌<>◌, map, length, contains, ltb,
  ◌=s=◌, if◌then◌else◌,
}
use fxtrader.Outside.{Outside}
use fxtrader.Model.{PriceData}
use fxtrader.Model.Trade.{TradeHistory, BalanceData, OrderStreamResponse}

-- `Client`: its subscriptions and the buffers of its four channels, newest first.
pub record Client (F : Type 0) : Type 0 where
  pub id : String
  pub symbols : List String
  pub send : List (PriceData F)
  pub send_trade : List (TradeHistory F)
  pub send_balance : List (BalanceData F)
  pub send_orders : List (OrderStreamResponse F)

-- `make(chan …, 256)`
abbrev pub capacity : ℕ
capacity = 256

-- The non-blocking send: a full buffer drops the message.
unfoldable pub offer : {A : Type 0} → A → List A → List A
offer x buffer = if ltb (length buffer) capacity then x ∷ buffer else buffer

unfoldable pub remove : String → List String → List String
remove s [] = []
remove s (x ∷ xs) = if x =s= s then remove s xs else x ∷ remove s xs

module _ {F : Type 0} where
  unfoldable pub new_client : String → Client F
  new_client id = record {
    id = id;
    symbols = [];
    send = [];
    send_trade = [];
    send_balance = [];
    send_orders = [];
  }

  unfoldable pub subscribe : String → Client F → Client F
  unfolding remove
  subscribe s c = record c { symbols = s ∷ remove s c.symbols }

  unfoldable pub unsubscribe : String → Client F → Client F
  unfolding remove
  unsubscribe s c = record c { symbols = remove s c.symbols }

  unfoldable pub is_subscribed : String → Client F → Bool
  is_subscribed s c = contains c.symbols s

  -- `h.clients[client.ID] = client`
  unfoldable pub drop_client : String → List (Client F) → List (Client F)
  drop_client id [] = []
  drop_client id (c ∷ cs) = if c.id =s= id then drop_client id cs else c ∷ drop_client id cs

module _ ⦃o : Outside⦄ where
  open o use {F}

  pub data Event : Type 0 where
    register unregister : Client F → Event
    price : PriceData F → Event
    trade : TradeHistory F → Event
    balance : BalanceData F → Event
    order_stream : OrderStreamResponse F → Event

  abbrev key_of : String → String → String
  key_of user type = user <> (":" <> type)

  unfoldable pub give_price : PriceData F → Client F → Client F
  unfolding offer is_subscribed
  give_price p c = if is_subscribed p.symbol c then record c { send = offer p c.send } else c

  unfoldable pub give_trade : TradeHistory F → Client F → Client F
  unfolding offer is_subscribed
  give_trade t c =
      if is_subscribed (key_of (o.to_hex t.user_id) t.account_type) c
      then record c { send_trade = offer t c.send_trade }
      else c

  unfoldable pub give_balance : BalanceData F → Client F → Client F
  unfolding offer is_subscribed
  give_balance b c =
      if is_subscribed (key_of b.user_id b.account_type) c
      then record c { send_balance = offer b c.send_balance }
      else c

  unfoldable pub give_orders : OrderStreamResponse F → Client F → Client F
  unfolding offer is_subscribed
  give_orders r c =
      if is_subscribed (key_of (o.to_hex r.user_id) r.account_type) c
      then record c { send_orders = offer r c.send_orders }
      else c

  -- One round of `Run`.
  unfoldable pub step : Event → List (Client F) → List (Client F)
  unfolding drop_client give_price give_trade give_balance give_orders
  step (register c) cs = c ∷ drop_client c.id cs
  step (unregister c) cs = drop_client c.id cs
  step (price p) cs = map (give_price p) cs
  step (trade t) cs = map (give_trade t) cs
  step (balance b) cs = map (give_balance b) cs
  step (order_stream r) cs = map (give_orders r) cs

  unfoldable pub run : List Event → List (Client F) → List (Client F)
  run [] cs = cs
  run (e ∷ es) cs = run es (step e cs)
