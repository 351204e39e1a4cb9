-- ===== src/Hub/Handler.antt =====
-- ws/handler.go: the loops that read from and write to the connection of a client of the hub.
use fxtrader.Base.{
  String, Bool, true, false, Option, none, some, List, [], ◌∷◌, ◌<>◌, ◌!=s◌, ◌&&◌, ◌=s=◌,
  if◌then◌else◌,
}
use fxtrader.Base.Result.{Error, Result, ok, err, panic, wrap}
use fxtrader.Outside.{Outside}
use fxtrader.Model.{PriceData, User}
use fxtrader.Model.Trade.{TradeHistory, BalanceData, OrderStreamResponse}
use fxtrader.World.{World, called}
use fxtrader.Repo.Users.{get_user_by_telegram_id}
use fxtrader.Service.Trade.Stream.{stream_trades}
use fxtrader.Hub.{Client, subscribe, unsubscribe}

-- What `readPump` decodes of a message.
pub record SocketMessage : Type 0 where
  pub action : String
  pub symbol : String
  pub account_type : String
  pub user_id : String

-- What `readPump` writes.
pub data Response : Type 0 where
  problem : String → Response
  stream_failed : Error → Response
  -- `SubscriptionResponse` with its message and the symbols
  symbols_now : String → List String → Response
  -- `SubscriptionResponse` of a stream, with the user and the type
  streaming : String → String → Response
  stream_started : String → String → Response

-- How a round of a loop ends.
pub data Round : Type 0 where
  goes_on : Round
  leaves : Round
  crashes : Round

module _ ⦃o : Outside⦄ where
  open o use {F, fails}

  pub record Session : Type 0 where
    pub client : Client F
    pub world : World
    -- what was written, newest first
    pub told : List Response
    -- the streams that a goroutine forwards to the client, newest first
    pub forwards : List String
    -- whether the hub was told that the client has left
    pub has_left : Bool

  -- `WriteJSON`; its error ends the round, and the loop if it is `ends`. `writePump` writes on the
  -- same connection without a mutex; the panic of the websocket library where it catches two
  -- writes at once is left out.
  unfoldable pub tell : Bool → Response → Session → Round × Session
  tell ends r s =
      let s' = record s { world = called s.world } in
      if fails s.world.calls
      then (if ends then leaves else goes_on, s')
      else (goes_on, record s' { told = r ∷ s.told })

  abbrev with_client : (Client F → Client F) → Session → Session
  with_client f s = record s { client = f s.client }

  unfoldable pub on_subscribe : String → Session → Round × Session
  unfolding tell
  on_subscribe symbol s =
      let s' = with_client (subscribe symbol) s in
      tell false (symbols_now ("Subscribed to " <> symbol) s'.client.symbols) s'

  unfoldable pub on_unsubscribe : String → Session → Round × Session
  unfolding tell
  on_unsubscribe symbol s =
      let s' = with_client (unsubscribe symbol) s in
      tell false (symbols_now ("Unsubscribed from " <> symbol) s'.client.symbols) s'

  -- The second answer is written only if the first could be.
  abbrev pub confirm_stream : String → String → Session → Round × Session
  confirm_stream user type s =
      let (r, s') = tell true (streaming user type) s in
      elim r [
        | goes_on ↦ tell false (stream_started user type) s'
        | leaves ↦ (goes_on, s')
        | crashes ↦ (crashes, s')
      ]

  abbrev pub after_stream : String → String → Result (Unit {0}) → Session → Round × Session
  after_stream user type (ok x) s =
      confirm_stream user type (record s { forwards = (user <> (":" <> type)) ∷ s.forwards })
  after_stream user type (err e) s =
      let (r, s') = tell false (stream_failed (wrap "Failed to start trade stream" e)) s in
      (r, with_client (unsubscribe (user <> (":" <> type))) s')
  after_stream user type panic s = (crashes, s)

  -- `user.ID.Hex()` dereferences a user that may be nil.
  abbrev pub start_stream : String → String → Option (User F) → Session → Round × Session
  start_stream user type none s = (crashes, s)
  start_stream user type (some u) s =
      let s' = with_client (subscribe (user <> (":" <> type))) s in
      let (r, w) = stream_trades (o.to_hex u.id) type s'.world in
      after_stream user type r (record s' { world = w })

  abbrev pub found_user : String → String → Result (Option (User F)) → Session → Round × Session
  found_user user type (ok u) s = start_stream user type u s
  found_user user type (err e) s = tell false (problem "Invalid user ID") s
  found_user user type panic s = (crashes, s)

  unfoldable pub on_subscribe_trades : String → String → Session → Round × Session
  unfolding tell
  on_subscribe_trades user type s =
      let refused = tell false (problem "Invalid account type") s in
      let (r, w) = get_user_by_telegram_id user s.world in
      let found = found_user user type r (record s { world = w }) in
      if (type !=s "DEMO") && (type !=s "REAL") then refused else found

  -- One round of the loop of `readPump`; `none` is a message that is not of the format.
  unfoldable pub on_message : Option SocketMessage → Session → Round × Session
  unfolding on_subscribe on_unsubscribe on_subscribe_trades tell
  on_message none s = tell true (problem "Invalid message format") s
  on_message (some m) s =
      if m.action =s= "subscribe"
      then on_subscribe m.symbol s
      else if m.action =s= "subscribe_trades"
      then on_subscribe_trades m.user_id m.account_type s
      else if m.action =s= "unsubscribe"
      then on_unsubscribe m.symbol s
      else tell false (problem "Unknown action") s

  -- The loop of `readPump` on the messages that it reads before an error.
  unfoldable pub read_messages : List (Option SocketMessage) → Session → Round × Session
  unfolding on_message
  read_messages [] s = (leaves, s)
  read_messages (m ∷ ms) s =
      let (r, s') = on_message m s in
      let rest = read_messages ms s' in
      elim r [ goes_on ↦ rest | leaves ↦ (leaves, s') | crashes ↦ (crashes, s') ]

  -- It does not start if the deadline cannot be set; the client leaves the hub however it ends.
  unfoldable pub read_pump : List (Option SocketMessage) → Session → Round × Session
  unfolding read_messages
  read_pump ms s =
      let s' = record s { world = called s.world } in
      let (r, s'') = read_messages ms s' in
      if fails s.world.calls
      then (leaves, record s' { has_left = true })
      else (r, record s'' { has_left = true })

  -- What the `select` of `writePump` takes.
  pub data Outlet : Type 0 where
    -- the next message of one of the four channels
    price : PriceData F → Outlet
    trade : TradeHistory F → Outlet
    balance : BalanceData F → Outlet
    orders : OrderStreamResponse F → Outlet
    channel_closed : Outlet
    ping_due : Outlet

  -- A round of `writePump`; the call that sets the deadline may fail, and then the write.
  unfoldable pub write_round : Outlet → World → Round × World
  write_round ping_due w =
      let w' = called w in
      if fails w.calls
      then (goes_on, w')
      else (if fails w'.calls then leaves else goes_on, called w')
  write_round channel_closed w =
      let w' = called w in if fails w.calls then (leaves, w') else (leaves, called w')
  write_round x w =
      let w' = called w in
      if fails w.calls
      then (leaves, w')
      else (if fails w'.calls then leaves else goes_on, called w')
