-- ===== src/Socket/Connection.antt =====
-- One connection of a bridge: `processMessage`, the loop of `handleConnection` and the one of
-- `startPingMonitor` in socket/socket_server.go.
use fxtrader.Base.{
  ℕ, suc, String, Bool, true, false, Option, none, some, List, [], ◌∷◌, lookup, leb, ◌=s=◌,
  if◌then◌else◌,
}
use fxtrader.Base.Result.{Result, ok, err, panic, new, with_text}
use fxtrader.Outside.{Outside}
use fxtrader.Socket.{
  Client, Serving, done, failed, crashed, pure, modify, gets, ◌>>=◌, ◌>>◌, present, attempt,
  lock_clients, unlock_clients, lock, unlock, now, fresh, continue,
}
use fxtrader.Socket.Messages.{Fields, Incoming, not_json, untyped, typed, ping}
use fxtrader.Socket.Clients.{
  send_json_message, close_conn, add_client, remove_client, is_client_connected,
}
use fxtrader.Socket.Handlers.{handle}

-- `maxRetries`, `maxMissedPongs`
abbrev pub max_retries : ℕ
max_retries = 10

abbrev pub max_missed_pongs : ℕ
max_missed_pongs = 5

module _ ⦃o : Outside⦄ where
  open o use {F}

  -- `!ok || clientID == ""`
  abbrev pub named : Option String → Serving String
  named none s = (failed (new "missing or invalid 'client_id' in handshake"), s)
  named (some id) s =
      if id =s= ""
      then (failed (new "missing or invalid 'client_id' in handshake"), s)
      else (done id, s)

  -- The ping monitor has a client of its own, with another mutex than the client in the map.
  unfoldable pub shake_hands : ℕ → Option String → Serving String
  shake_hands conn claimed = do
    id ← named claimed
    ctx ← fresh
    mutex ← fresh
    add_client id conn ctx
    let own : Client = record { conn = conn; ping = ctx; client_id = id; mutex = mutex }
    modify λ s. record s { monitors = own ∷ s.monitors }
    pure id

  -- `processMessage` on a message that is no handshake.
  unfoldable pub dispatch : String → String → Fields F → Serving (Unit {0})
  dispatch id kind f = do
    lock_clients
    found ← gets λ s. lookup id s.clients
    unlock_clients
    c ← present found (with_text "client %s not found" id)
    h ← gets λ s. lookup kind s.handlers
    handler ← present h (with_text "unknown message type" kind)
    handle handler c f

  -- It gives the client's id afterwards, which stays on an error.
  unfoldable pub process_message : Incoming F → ℕ → String → Serving String
  unfolding shake_hands dispatch
  process_message not_json conn id s = (failed (new "failed to decode JSON"), s)
  process_message untyped conn id s = (failed (new "missing or invalid 'type' field in message"), s)
  process_message (typed kind f) conn id s =
      let dispatched = dispatch id kind f s in
      let shaken = shake_hands conn f.client_id s in
      let (r, s') = dispatched in
      if kind =s= "handshake" then shaken else continue r (λ x. pure id) s'

  -- What one round of the loop on a connection meets.
  pub data Read : Type 0 where
    -- the server's context is done, the deadline cannot be set, or the peer has closed
    ended : Read
    -- another error
    read_error : Read
    got : Incoming F → Read

  abbrev next_id : String → Result String → String
  next_id id (ok new_id) = new_id
  next_id id (err e) = id
  next_id id panic = id

  -- The loop of `handleConnection` on what it meets: whether it has returned by then.
  unfoldable pub read_loop : List Read → ℕ → String → ℕ → Serving Bool
  unfolding process_message
  read_loop [] conn id retries s = (done false, s)
  read_loop (ended ∷ rs) conn id retries s = (done true, s)
  read_loop (read_error ∷ rs) conn id retries s =
      let rest = read_loop rs conn id (suc retries) s in
      if leb max_retries (suc retries) then (done true, s) else rest
  read_loop (got m ∷ rs) conn id retries s =
      let (r, s') = attempt (process_message m conn id) s in
      continue r (λ x. read_loop rs conn (next_id id x) 0) s'

  abbrev close_if : Bool → ℕ → Serving (Unit {0})
  close_if false conn = pure tt
  close_if true conn = attempt (close_conn conn) >>= λ r. pure tt

  -- The connection is closed when the loop returns; the client stays in the map.
  unfoldable pub handle_connection : List Read → ℕ → String → Serving Bool
  unfolding read_loop
  handle_connection rs conn id = do
    returned ← read_loop rs conn id 0
    close_if returned conn
    pure returned

  -- What the `select` of the ping monitor takes; `ctx.Done` only where the context is cancelled.
  pub data Tick : Type 0 where
    context_done : Tick
    ticked : Tick

  -- `missedPongs` counts the pings that could not be sent, in a row or not.
  unfoldable pub after_ping : Client → ℕ → Result (Unit {0}) → Serving (Option ℕ)
  after_ping c missed (ok x) s = (done (some missed), s)
  after_ping c missed (err e) s =
      let removed = remove_client c.client_id s in
      let (r, s') = removed in
      if leb max_missed_pongs (suc missed)
      then continue r (λ x. pure none) s'
      else (done (some (suc missed)), s)
  after_ping c missed panic s = (crashed, s)

  -- It asks whether the connection is nil, which it never is.
  abbrev pub ping_if : Client → ℕ → Bool → Serving (Option ℕ)
  ping_if c missed false = pure none
  ping_if c missed true = do
    lock c
    unlock c
    t ← now
    r ← attempt (send_json_message c (ping t))
    after_ping c missed r

  -- One tick: the count afterwards, or `none` where the monitor returns.
  unfoldable pub ping_tick : Client → ℕ → Serving (Option ℕ)
  unfolding after_ping
  ping_tick c missed = do
    is_connected ← is_client_connected c.client_id
    ping_if c missed is_connected

  -- The monitor on what its `select` takes: whether it has returned by then.
  unfoldable pub ping_monitor : Client → List Tick → ℕ → Serving Bool
  unfolding ping_tick
  ping_monitor c [] missed = pure false
  ping_monitor c (context_done ∷ ts) missed = pure true
  ping_monitor c (ticked ∷ ts) missed = do
    next ← ping_tick c missed
    elim next [ none ↦ pure true | some n ↦ ping_monitor c ts n ]
