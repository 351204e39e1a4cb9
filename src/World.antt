-- ===== src/World.antt =====
-- The state that the services share, and their methods as actions on it: the collections of the
-- database, the connections of the socket server, the channels of the trade service.
pub mod Outcome
use fxtrader.Base.{
  ℕ, suc, String, Bool, true, false, Option, none, some, List, [], ◌∷◌, ◌++◌, Dict, if◌then◌else◌,
}
use fxtrader.Base.Result.{Error, Result, ok, err, panic, driver}
use fxtrader.Outside.{Outside}
use fxtrader.Model.{
  Account, User, Transaction, Symbol, LeaderRequest, Alert, CopyTradeSubscription, CopyTrade,
  LogEntry, Rule, AdminAccount, PriceData,
}
use fxtrader.Model.Trade.{
  TradeHistory, TradeResponse, BalanceResponse, BalanceData, OrderStreamResponse, Request,
}

-- What goes to the websocket hub.
pub data Broadcast (F : Type 0) : Type 0 where
  trade_update : TradeHistory F → Broadcast F
  balance_update : BalanceData F → Broadcast F
  order_update : OrderStreamResponse F → Broadcast F
  price_update : PriceData F → Broadcast F

-- A Go channel: what its buffer holds, and whether it is closed.
pub record Channel (A : Type 0) : Type 0 where
  pub buffer : List A
  pub is_closed : Bool

module _ ⦃o : Outside⦄ where
  open o use {F, Coll, fails, clock, new_id}

  pub record World : Type 0 where
    -- how many calls to the outside have been made
    pub calls : ℕ
    pub users : Coll (User F)
    pub accounts : Coll (Account F)
    pub trades : Coll (TradeHistory F)
    pub symbols : Coll (Symbol F)
    pub transactions : Coll (Transaction F)
    pub leader_requests : Coll LeaderRequest
    pub alerts : Coll (Alert F)
    pub subscriptions : Coll (CopyTradeSubscription F)
    pub copy_trades : Coll CopyTrade
    pub logs : Coll LogEntry
    pub rules : Coll Rule
    pub admins : Coll AdminAccount
    -- what the repository of prices has in memory, newest first
    pub prices : List (PriceData F)
    -- the ids of the connected bridges, in the order in which the map is walked
    pub connections : List String
    -- the requests that a bridge was sent, newest first
    pub sent : List (Request F)
    -- `tradeResponseChans`: the number of the channel that is registered for a trade's id
    pub trade_chans : Dict ℕ
    -- the buffers of the channels that were made for an id, by their numbers
    pub channels : String → ℕ → List (TradeResponse F)
    pub next_channel : ℕ
    pub balance_chan : List (BalanceResponse F)
    -- `streamCtx`: the contexts that a reaper waits on
    pub stream_ctx : List String
    -- `ordersResponseChans`
    pub order_chans : Dict (Channel (OrderStreamResponse F))
    -- the goroutines that `PlaceTrade` has started to mirror a trade, newest first
    pub spawned : List (TradeHistory F × String)
    -- what the hub was given, newest first
    pub broadcasts : List (Broadcast F)

  abbrev pub Action : Type 0 → Type 0
  Action A = World → Result A × World

  abbrev pub pure : {A : Type 0} → A → Action A
  pure a w = (ok a, w)

  abbrev pub raise : {A : Type 0} → Error → Action A
  raise e w = (err e, w)

  abbrev pub crash : {A : Type 0} → Action A
  crash w = (panic, w)

  abbrev pub gets : {A : Type 0} → (World → A) → Action A
  gets f w = (ok (f w), w)

  abbrev pub modify : (World → World) → Action (Unit {0})
  modify f w = (ok tt, f w)

  abbrev pub continue : {A B : Type 0} → Result A → (A → Action B) → Action B
  continue (ok a) f w = f a w
  continue (err e) f w = (err e, w)
  continue panic f w = (panic, w)

  infixl 5 ◌>>=◌ ◌>>◌
  abbrev pub ◌>>=◌ : {A B : Type 0} → Action A → (A → Action B) → Action B
  ◌>>=◌ m f w = let (r, w') = m w in continue r f w'

  abbrev pub ◌>>◌ : {B : Type 0} → Action (Unit {0}) → Action B → Action B
  m >> k = m >>= λ _. k

  -- `if cond { return e }`
  abbrev pub raise_if : Bool → Error → Action (Unit {0})
  raise_if b e w = (if b then err e else ok tt, w)

  abbrev pub with_error : {A : Type 0} → Result A → (Error → Error) → Result A
  with_error (ok a) f = ok a
  with_error (err e) f = err (f e)
  with_error panic f = panic

  -- `if err != nil { return f(err) }`
  abbrev pub on_error : {A : Type 0} → Action A → (Error → Error) → Action A
  on_error m f w = let (r, w') = m w in (with_error r f, w')

  abbrev pub present : {A : Type 0} → Option A → Error → Action A
  present none e w = (err e, w)
  present (some a) e w = (ok a, w)

  abbrev pub to_unit : {A : Type 0} → Result A → Result (Unit {0})
  to_unit (ok a) = ok tt
  to_unit (err e) = ok tt
  to_unit panic = panic

  -- A call whose error is logged or dropped.
  abbrev pub ignore : {A : Type 0} → Action A → Action (Unit {0})
  ignore m w = let (r, w') = m w in (to_unit r, w')

  abbrev attempted : {A : Type 0} → Result A → Result (Result A)
  attempted (ok a) = ok (ok a)
  attempted (err e) = ok (err e)
  attempted panic = panic

  -- A call whose error the caller looks at.
  abbrev pub attempt : {A : Type 0} → Action A → Action (Result A)
  attempt m w = let (r, w') = m w in (attempted r, w')

  abbrev pub called : World → World
  called w = record w { calls = suc w.calls }

  abbrev pub now : Action ℕ
  now w = (ok (clock w.calls), called w)

  abbrev pub new_object_id : Action ℕ
  new_object_id w = (ok (new_id w.calls), called w)

  -- A call to the database or on a connection, which fails or does `f`.
  abbrev pub external : {A : Type 0} → Action A → Action A
  external f w = if fails w.calls then (err driver, called w) else f (called w)
