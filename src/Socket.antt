-- ===== src/Socket.antt =====
-- The server for the bridges, socket/socket_server.go: its maps, its mutexes, and its methods as
-- actions that may stop for ever at a mutex. A method runs to its end before the next one starts,
-- so a mutex that is held when a method asks for it is held by that method or by one that has
-- stopped. `handlersMu`, under which no method calls another, is left out.
pub mod Messages
pub mod Clients
pub mod Handlers
pub mod Connection
pub mod Locks
pub mod Steady
pub mod Deadlock
pub mod Loops
pub mod Pool
use fxtrader.Base.{
  ℕ, suc, String, Bool, true, false, Option, none, some, List, [], ◌∷◌, Dict, if◌then◌else◌, ◌==◌,
  ◌||◌,
}
use fxtrader.Base.Result.{Error, Result, ok, err, panic, driver}
use fxtrader.Outside.{Outside}
use fxtrader.World.{World, Action}
use fxtrader.Socket.Messages.{Outgoing}

-- `Client`; `ping` is the context that `cancelPing` cancels, `mutex` the number of its `writeMu`.
pub record Client : Type 0 where
  pub conn : ℕ
  pub ping : ℕ
  pub client_id : String
  pub mutex : ℕ

-- The methods that `Start` registers.
pub data Handler : Type 0 where
  on_handshake : Handler
  on_ping : Handler
  on_pong : Handler
  on_balance_request : Handler
  on_disconnect : Handler
  on_close_trade_response : Handler
  on_order_stream_response : Handler
  on_trade_response : Handler
  on_balance_response : Handler
  on_balance_stream_response : Handler

-- How a method ends; `blocked` is a method that waits for a mutex for ever.
pub data Finish (A : Type 0) : Type 0 where
  done : A → Finish A
  failed : Error → Finish A
  crashed : Finish A
  blocked : Finish A

-- `slices.Contains` on numbers
unfoldable pub holds : ℕ → List ℕ → Bool
holds n [] = false
holds n (x ∷ xs) = (x == n) || holds n xs

unfoldable pub release : ℕ → List ℕ → List ℕ
release n [] = []
release n (x ∷ xs) = if x == n then xs else x ∷ release n xs

module _ ⦃o : Outside⦄ where
  open o use {F, fails}

  pub record Server : Type 0 where
    pub handlers : Dict Handler
    -- in the order in which the map is walked
    pub clients : Dict Client
    -- whether `clientsMu` is held
    pub clients_mu : Bool
    -- the client mutexes that are held
    pub held : List ℕ
    pub cancelled : List ℕ
    -- whether the context of the server is cancelled, and the pings with it
    pub is_stopped : Bool
    -- the connections that this side has closed
    pub closed : List ℕ
    -- the ping monitors that were started, newest first
    pub monitors : List Client
    -- the connection that the trade service was given last, once it is there
    pub has_trade_service : Bool
    pub mt5_conn : Option ℕ
    -- what was written on each connection, newest first
    pub written : List (ℕ × Outgoing F)
    -- the next mutex or context
    pub next : ℕ
    pub world : World

  abbrev pub Serving : Type 0 → Type 0
  Serving A = Server → Finish A × Server

  abbrev pub pure : {A : Type 0} → A → Serving A
  pure a s = (done a, s)

  abbrev pub raise : {A : Type 0} → Error → Serving A
  raise e s = (failed e, s)

  abbrev pub crash : {A : Type 0} → Serving A
  crash s = (crashed, s)

  abbrev pub modify : (Server → Server) → Serving (Unit {0})
  modify f s = (done tt, f s)

  abbrev pub gets : {A : Type 0} → (Server → A) → Serving A
  gets f s = (done (f s), s)

  abbrev pub continue : {A B : Type 0} → Finish A → (A → Serving B) → Serving B
  continue (done a) f s = f a s
  continue (failed e) f s = (failed e, s)
  continue crashed f s = (crashed, s)
  continue blocked f s = (blocked, s)

  infixl 5 ◌>>=◌ ◌>>◌
  abbrev pub ◌>>=◌ : {A B : Type 0} → Serving A → (A → Serving B) → Serving B
  ◌>>=◌ m f s = let (r, s') = m s in continue r f s'

  abbrev pub ◌>>◌ : {B : Type 0} → Serving (Unit {0}) → Serving B → Serving B
  m >> k = m >>= λ _. k

  abbrev pub raise_if : Bool → Error → Serving (Unit {0})
  raise_if b e s = (if b then failed e else done tt, s)

  abbrev pub present : {A : Type 0} → Option A → Error → Serving A
  present none e s = (failed e, s)
  present (some a) e s = (done a, s)

  abbrev pub finish_of : {A : Type 0} → Result A → Finish A
  finish_of (ok a) = done a
  finish_of (err e) = failed e
  finish_of panic = crashed

  -- A call of a service or a repository.
  abbrev pub lift : {A : Type 0} → Action A → Serving A
  lift m s = let (r, w) = m s.world in (finish_of r, record s { world = w })

  abbrev pub attempted : {A : Type 0} → Finish A → Finish (Result A)
  attempted (done a) = done (ok a)
  attempted (failed e) = done (err e)
  attempted crashed = crashed
  attempted blocked = blocked

  -- A call whose error the caller looks at.
  abbrev pub attempt : {A : Type 0} → Serving A → Serving (Result A)
  attempt m s = let (r, s') = m s in (attempted r, s')

  -- `clientsMu.Lock`, which waits while it is held.
  abbrev pub lock_clients : Serving (Unit {0})
  lock_clients s = if s.clients_mu then (blocked, s) else (done tt, record s { clients_mu = true })

  abbrev pub unlock_clients : Serving (Unit {0})
  unlock_clients s = (done tt, record s { clients_mu = false })

  -- `writeMu.Lock`
  abbrev pub lock : Client → Serving (Unit {0})
  lock c s =
      if holds c.mutex s.held then (blocked, s) else (done tt, record s { held = c.mutex ∷ s.held })

  abbrev pub unlock : Client → Serving (Unit {0})
  unlock c s = (done tt, record s { held = release c.mutex s.held })

  -- A call on a connection: it fails on one that this side has closed.
  abbrev pub on_conn : ℕ → (Server → Server) → Serving (Unit {0})
  on_conn conn f s =
      let s' = record s { world = record s.world { calls = suc s.world.calls } } in
      if fails s.world.calls || holds conn s.closed then (failed driver, s') else (done tt, f s')

  abbrev pub now : Serving ℕ
  now s = (
    done (o.clock s.world.calls),
    record s { world = record s.world { calls = suc s.world.calls } },
  )

  -- A number for a new mutex or context.
  abbrev pub fresh : Serving ℕ
  fresh s = (done s.next, record s { next = suc s.next })
