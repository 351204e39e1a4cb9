-- ===== src/Socket/Pool/Kept.antt =====
-- Every message, and every run of messages from the start of the server, keeps the pool.
use fxtrader.Base.{
  ℕ, suc, String, Bool, true, false, Option, none, some, List, [], ◌∷◌, ◌≡◌, inl, inr, Bool-cases,
  lookup, arith, leb, subst, sym, ◌=s=◌,
}
use fxtrader.Base.Result.{Result, ok, err, panic, with_text}
use fxtrader.Outside.{Outside}
use fxtrader.Socket.{
  Client, Handler, Server, Serving, ◌>>=◌, ◌>>◌, attempt, now, present, pure, gets, fresh, modify,
  lock, unlock, lock_clients, unlock_clients,
}
use fxtrader.Socket.Messages.{Fields, Incoming, not_json, untyped, typed, ping}
use fxtrader.Socket.Clients.{
  send_json_message, add_client, remove_client, close_conn, is_client_connected, is_some, close_all,
  stop,
}
use fxtrader.Socket.Handlers.{handle, start}
use fxtrader.Socket.Connection.{
  named, shake_hands, dispatch, process_message, after_ping, ping_if, ping_tick, max_missed_pongs,
}
use fxtrader.Socket.Pool.Handlers.{timed-Preserves, read-Preserves, handle-Preserves}
use fxtrader.Socket.Pool.{
  IsPool, IsPooled, Preserves, guarded-Preserves, bind-Preserves, lock-Preserves,
  lock_clients-Preserves, close_conn-Preserves, add_client-Preserves, remove_client-Preserves,
}

module _ ⦃o : Outside⦄ where
  open o use {F}

  dispatch-Preserves : (id kind : String) (f : Fields F) → Preserves (dispatch id kind f)
  unfolding dispatch
  dispatch-Preserves id kind f =
      bind-Preserves lock_clients (λ _. after) lock_clients-Preserves
        (λ _ s h. to_client (lookup id s.clients) (record s { clients_mu = false }) h)
    where
      to_handler : Client → Option Handler → Serving (Unit {0})
      to_handler c h = do
        handler ← present h (with_text "unknown message type" kind)
        handle handler c f

      after : Serving (Unit {0})
      after = do
        found ← gets λ s. lookup id s.clients
        unlock_clients
        c ← present found (with_text "client %s not found" id)
        h ← gets λ s. lookup kind s.handlers
        to_handler c h

      to_client :
          (found : Option Client)
          → Preserves (
              present found (with_text "client %s not found" id) >>= λ c.
              gets (λ s. lookup kind s.handlers) >>= to_handler c)
      to_client found =
          read-Preserves found (with_text "client %s not found" id)
            (λ c. gets (λ s. lookup kind s.handlers) >>= to_handler c)
            (λ c s h.
              read-Preserves (lookup kind s.handlers) (with_text "unknown message type" kind)
                (λ k. handle k c f) (λ k. handle-Preserves k c f) s h)

  named-Preserves : (claimed : Option String) → Preserves (named claimed)
  named-Preserves none s h = h
  named-Preserves (some id) s h = elim (Bool-cases (id =s= "")) [ inl e ↦ rw e h | inr e ↦ rw e h ]

  fresh-Preserves : Preserves fresh
  fresh-Preserves s h = record {
    keyed = h.keyed;
    given = λ k c e. ground (arith, h.given k c e);
    apart = h.apart;
  }

  shake_hands-Preserves :
      (conn : ℕ) (claimed : Option String) → Preserves (shake_hands conn claimed)
  unfolding shake_hands
  shake_hands-Preserves conn claimed =
      bind-Preserves (named claimed) (λ id. fresh >>= in_context id) (named-Preserves claimed)
        (λ id. bind-Preserves fresh (in_context id) fresh-Preserves (λ ctx.
          bind-Preserves fresh (joined id ctx) fresh-Preserves (λ mutex.
            bind-Preserves (add_client id conn ctx) (λ _. monitored id ctx mutex)
              (add_client-Preserves id conn ctx) (λ _ s h. h))))
    where
      monitored : String → ℕ → ℕ → Serving String
      monitored id ctx mutex = do
        let own : Client = record { conn = conn; ping = ctx; client_id = id; mutex = mutex }
        modify λ s. record s { monitors = own ∷ s.monitors }
        pure id

      joined : String → ℕ → ℕ → Serving String
      joined id ctx mutex = add_client id conn ctx >> monitored id ctx mutex

      in_context : String → ℕ → Serving String
      in_context id ctx = fresh >>= joined id ctx

  process_message-Preserves :
      (m : Incoming F) (conn : ℕ) (id : String) → Preserves (process_message m conn id)
  unfolding process_message
  process_message-Preserves not_json conn id s h = h
  process_message-Preserves untyped conn id s h = h
  process_message-Preserves (typed kind f) conn id s h = elim (Bool-cases (kind =s= "handshake")) [
    | inl e ↦ rw e (shake_hands-Preserves conn f.client_id s h)
    | inr e ↦ rw e (
        bind-Preserves (dispatch id kind f) (λ x. pure id) (dispatch-Preserves id kind f)
          (λ x s h. h) s h)
  ]

  after_ping-Preserves :
      (c : Client) (missed : ℕ) (r : Result (Unit {0})) → Preserves (after_ping c missed r)
  unfolding after_ping
  after_ping-Preserves c missed (ok x) s h = h
  after_ping-Preserves c missed (err e) s h =
      elim (Bool-cases (leb max_missed_pongs (suc missed))) [
        | inl f ↦ rw f (
            bind-Preserves (remove_client c.client_id) (λ x. pure none)
              (remove_client-Preserves c.client_id) (λ x s h. h) s h)
        | inr f ↦ rw f h
      ]
  after_ping-Preserves c missed panic s h = h

  ping_tick-Preserves : (c : Client) (missed : ℕ) → Preserves (ping_tick c missed)
  unfolding ping_tick is_client_connected
  ping_tick-Preserves c missed =
      bind-Preserves (is_client_connected c.client_id) (ping_if c missed)
        (guarded-Preserves (gets λ s. is_some (lookup c.client_id s.clients)) (λ s h. h)) pinged
    where
      sends : Serving (Option ℕ)
      sends = do t ← now; r ← attempt (send_json_message c (ping t)); after_ping c missed r

      pinged : (b : Bool) → Preserves (ping_if c missed b)
      pinged false = λ s h. h
      pinged true =
          bind-Preserves (lock c) (λ _. unlock c >> sends) (lock-Preserves c)
            (λ _.
              bind-Preserves (unlock c) (λ _. sends) (λ s h. h)
                (λ _. timed-Preserves c ping (after_ping c missed) (after_ping-Preserves c missed)))

  close_all-Preserves : (cs : List (String × Client)) → Preserves (close_all cs)
  close_all-Preserves [] = λ s h. h
  close_all-Preserves ((id, c) ∷ cs) =
      bind-Preserves (attempt (close_conn c.conn)) (λ r. close_all cs) (close_conn-Preserves c.conn)
        (λ r. close_all-Preserves cs)

  emptied-IsPool : (next : ℕ) → IsPool [] next
  emptied-IsPool next = record {
    keyed = λ k c e. ground arith;
    given = λ k c e. ground arith;
    apart = λ j k c d e f same. ground arith;
  }

  stop-Preserves : Preserves stop
  unfolding stop
  stop-Preserves =
      guarded-Preserves (gets (λ s. s.clients) >>= λ cs. close_all cs >> emptying) (λ s.
        bind-Preserves (close_all s.clients) (λ _. emptying) (close_all-Preserves s.clients)
          (λ _ s h. emptied-IsPool s.next) s)
    where
      emptying : Serving (Unit {0})
      emptying = modify λ s. record s { clients = []; is_stopped = true }

  -- What the server meets: a message on a connection of a client, a tick of a ping monitor with the
  -- pings that it has missed, and its stop.
  pub data Event : Type 0 where
    arrives : Incoming F → ℕ → String → Event
    ticks : Client → ℕ → Event
    stops : Event

  abbrev pub after_event : Event → Server → Server
  after_event (arrives m conn id) s = (process_message m conn id s).1
  after_event (ticks c missed) s = (ping_tick c missed s).1
  after_event stops s = (stop s).1

  abbrev pub after_all : List Event → Server → Server
  after_all [] s = s
  after_all (e ∷ es) s = after_all es (after_event e s)

  event-Preserves : (e : Event) (s : Server) → IsPooled s → IsPooled (after_event e s)
  event-Preserves (arrives m conn id) s h = process_message-Preserves m conn id s h
  event-Preserves (ticks c missed) s h = ping_tick-Preserves c missed s h
  event-Preserves stops s h = stop-Preserves s h

  events-Preserve : (es : List Event) (s : Server) → IsPooled s → IsPooled (after_all es s)
  events-Preserve [] s h = h
  events-Preserve (e ∷ es) s h = events-Preserve es (after_event e s) (event-Preserves e s h)

  -- From the start of a server without clients, whatever messages arrive, whichever ping monitors
  -- tick and whether or not it is stopped, and whichever calls fail or wait for ever, every client
  -- in the map stands under its own id with a mutex that was given out before, and no two ids share
  -- a mutex.
  pub pool-IsPooled :
      (es : List Event) (s : Server) → s.clients ≡ [] → IsPooled (after_all es (start s))
  unfolding start
  pool-IsPooled es s h =
      events-Preserve es (start s) (subst (λ cs. IsPool cs s.next) (sym h) (emptied-IsPool s.next))
