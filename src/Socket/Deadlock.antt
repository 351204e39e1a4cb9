-- ===== src/Socket/Deadlock.antt =====
-- `processMessage` of socket/socket_server.go and the mutexes: which messages it comes back from.
use fxtrader.Base.{
  ℕ, suc, ap, String, true, false, Option, none, some, List, [], ◌∷◌, ◌≡◌, ◌≢◌, refl, inl, inr,
  arith, Bool-cases, Option-cases, lookup, ◌=s=◌, ◌||◌, ◌∙◌,
}
use fxtrader.Outside.{Outside}
use fxtrader.Model.Trade.{Request}
use fxtrader.World.{called}
use fxtrader.Socket.{
  Client, Finish, Server, Serving, done, failed, crashed, blocked, ◌>>=◌, ◌>>◌, continue, fresh,
  modify, pure, holds, on_disconnect,
}
use fxtrader.Socket.Messages.{Fields, Incoming, not_json, untyped, typed}
use fxtrader.Socket.Clients.{
  locked, guarded, add_client, remove_client, drop_found, is_client_connected, send_request,
}
use fxtrader.Socket.Handlers.{handle, handle_disconnect}
use fxtrader.Socket.Connection.{process_message, dispatch, shake_hands, named}
use fxtrader.Socket.Locks.{IsRunning, IsIdle, IsSteady, bind-IsSteady, add_client-IsSteady}
use fxtrader.Socket.Steady.{handle-IsSteady}

module _ ⦃o : Outside⦄ where
  open o use {F, fails}

  named-IsSteady : (x : Option String) → IsSteady (named x)
  named-IsSteady none s h = (tt, h)
  named-IsSteady (some id) s h = elim (Bool-cases (id =s= "")) [
    | inl e ↦ rw e (tt, h)
    | inr e ↦ rw e (tt, h)
  ]

  shake_hands-IsSteady : (conn : ℕ) (claimed : Option String) → IsSteady (shake_hands conn claimed)
  unfolding shake_hands
  shake_hands-IsSteady conn claimed =
      bind-IsSteady (named claimed) with_id (named-IsSteady claimed) λ id s h.
        bind-IsSteady (add_client id conn s.next) (λ _. joined id s.next (suc s.next))
          (add_client-IsSteady id conn s.next) (λ _ s h. (tt, h))
          (record s { next = suc (suc s.next) }) h
    where
      joined : String → ℕ → ℕ → Serving String
      joined id ctx mutex = do
        let own : Client = record { conn = conn; ping = ctx; client_id = id; mutex = mutex }
        modify λ s. record s { monitors = own ∷ s.monitors }
        pure id

      with_id : String → Serving String
      with_id id = do ctx ← fresh; mutex ← fresh; add_client id conn ctx; joined id ctx mutex

  dispatch-Idle :
      (id kind : String) (f : Fields F) (s : Server)
      → IsIdle s
      → lookup kind s.handlers ≢ some on_disconnect
      → IsRunning ((dispatch id kind f s).0) × IsIdle ((dispatch id kind f s).1)
  unfolding dispatch
  dispatch-Idle id kind f s h n = elim (Option-cases (lookup id s.clients)) [
    | inl e ↦ rw (h.0, e) (tt, (refl, h.1))
    | inr (c, e) ↦ elim (Option-cases (lookup kind s.handlers)) [
      | inl d ↦ rw (h.0, e, d) (tt, (refl, h.1))
      | inr (k, d) ↦
          rw (h.0, e, d)
            (handle-IsSteady k c f (λ q. n (d ∙ ap some q)) (record s { clients_mu = false })
              (refl, h.1))
    ]
  ]

  -- If no mutex is held, a message that does not go to the handler of disconnects never waits for
  -- ever, whatever it holds and whichever calls fail, and no mutex is held afterwards.
  pub process_message-Idle :
      (m : Incoming F) (conn : ℕ) (id : String) (s : Server)
      → IsIdle s
      → ((kind : String) (f : Fields F)
          → m ≡ typed kind f
          → lookup kind s.handlers ≢ some on_disconnect)
      → IsRunning ((process_message m conn id s).0) × IsIdle ((process_message m conn id s).1)
  unfolding process_message
  process_message-Idle not_json conn id s h n = (tt, h)
  process_message-Idle untyped conn id s h n = (tt, h)
  process_message-Idle (typed kind f) conn id s h n = elim (Bool-cases (kind =s= "handshake")) [
    | inl e ↦ rw e (shake_hands-IsSteady conn f.client_id s h)
    | inr e ↦ rw e (
        after ((dispatch id kind f s).0) ((dispatch id kind f s).1)
          (dispatch-Idle id kind f s h (n kind f refl)))
  ]
    where
      after :
          (r : Finish (Unit {0})) (s' : Server)
          → IsRunning r × IsIdle s'
          → IsRunning ((continue r (λ x. pure id) s').0) × IsIdle ((continue r (λ x. pure id) s').1)
      after (done a) s' g = g
      after (failed e) s' g = g
      after crashed s' g = g
      after blocked s' g = g

  -- While the mutex of the clients is held, requests and lookups wait for ever.
  stuck-clients :
      (s : Server)
      → s.clients_mu ≡ true
      → ((r : Request F) → send_request r s ≡ (blocked, s))
        × ((id : String) → remove_client id s ≡ (blocked, s))
        × ((id : String) → is_client_connected id s ≡ (blocked, s))
        × ((id : String) (conn ping : ℕ) → add_client id conn ping s ≡ (blocked, s))
  unfolding send_request remove_client is_client_connected add_client guarded
  stuck-clients s h = (λ r. rw h refl, λ id. rw h refl, λ id. rw h refl, λ id conn ping. rw h refl)

  stuck-handshake :
      (s : Server) (conn : ℕ) (claimed : Option String) (x : String)
      → s.clients_mu ≡ true
      → (shake_hands conn claimed s).0 ≢ done x
  unfolding shake_hands add_client guarded
  stuck-handshake s conn none x h = ground arith
  stuck-handshake s conn (some id) x h = elim (Bool-cases (id =s= "")) [
    | inl e ↦ rw e (ground arith)
    | inr e ↦ rw (e, h) (ground arith)
  ]

  stuck-message :
      (s : Server) (m : Incoming F) (conn : ℕ) (id x : String)
      → s.clients_mu ≡ true
      → (process_message m conn id s).0 ≢ done x
  unfolding process_message dispatch
  stuck-message s not_json conn id x h = ground arith
  stuck-message s untyped conn id x h = ground arith
  stuck-message s (typed kind f) conn id x h = elim (Bool-cases (kind =s= "handshake")) [
    | inl e ↦ rw e (stuck-handshake s conn f.client_id x h)
    | inr e ↦ rw (e, h) (ground arith)
  ]

  holds_self : (n : ℕ) (ns : List ℕ) → holds n (n ∷ ns) ≡ true
  unfolding holds
  holds_self n ns = ground arith

  remove_client-stuck :
      (c : Client) (s : Server)
      → s.clients_mu ≡ false
      → lookup c.client_id s.clients ≡ some c
      → holds c.mutex s.held ≡ true
      → remove_client c.client_id s ≡ (blocked, record s { clients_mu = true })
  unfolding remove_client guarded drop_found locked
  remove_client-stuck c s h e k = rw (h, e, k) refl

  -- The handler takes the mutex of its client and closes the connection, whether that succeeds.
  disconnect-stops :
      (c : Client) (s : Server)
      → IsIdle s
      → lookup c.client_id s.clients ≡ some c
      → ((handle_disconnect c s).0 ≡ blocked) × ((handle_disconnect c s).1.clients_mu ≡ true)
  unfolding handle_disconnect holds
  disconnect-stops c s h e =
      let closing : Server = record s {
        held = c.mutex ∷ [];
        cancelled = c.ping ∷ s.cancelled;
        world = called s.world;
      } in
      let stuck : (t : Server)
          → t.clients_mu ≡ false
          → t.clients ≡ s.clients
          → t.held ≡ c.mutex ∷ []
          → remove_client c.client_id t ≡ (blocked, record t { clients_mu = true }) =
        λ t mu cs held.
          remove_client-stuck c t mu (ap (lookup c.client_id) cs ∙ e)
            (ap (holds c.mutex) held ∙ holds_self c.mutex []) in
      elim (Bool-cases (fails s.world.calls || holds c.conn s.closed)) [
        | inl x ↦ rw (h.1, x, stuck closing h.0 refl refl) (refl, refl)
        | inr x ↦
            rw (h.1, x, stuck (record closing { closed = c.conn ∷ s.closed }) h.0 refl refl)
              (refl, refl)
      ]

  process_message-disconnect :
      (f : Fields F) (conn : ℕ) (c : Client) (s : Server)
      → IsIdle s
      → lookup c.client_id s.clients ≡ some c
      → lookup "disconnect" s.handlers ≡ some on_disconnect
      → process_message (typed "disconnect" f) conn c.client_id s
        ≡ (blocked, (handle_disconnect c (record s { clients_mu = false })).1)
  unfolding process_message dispatch handle
  process_message-disconnect f conn c s h e d =
      let idle : Server = record s { clients_mu = false } in
      rw (h.0, e, d, (disconnect-stops c idle (refl, h.1) e).0) refl

  -- From a state in which no mutex is held and the handler of disconnects is registered, a
  -- disconnect message of a client that is in the map under its id waits for ever. In the state
  -- that it leaves, no message is processed successfully, of whatever connection, and every
  -- request to a bridge, every removal and every lookup of a client waits for ever.
  pub disconnect_deadlocks :
      (f : Fields F) (conn : ℕ) (c : Client) (s : Server)
      → IsIdle s
      → lookup c.client_id s.clients ≡ some c
      → lookup "disconnect" s.handlers ≡ some on_disconnect
      → let (r, s') = process_message (typed "disconnect" f) conn c.client_id s in
        (r ≡ blocked)
        × ((m : Incoming F) (other : ℕ) (id x : String)
            → (process_message m other id s').0 ≢ done x)
        × ((q : Request F) → send_request q s' ≡ (blocked, s'))
        × ((id : String) → remove_client id s' ≡ (blocked, s'))
        × ((id : String) → is_client_connected id s' ≡ (blocked, s'))
  disconnect_deadlocks f conn c s h e d =
      let idle : Server = record s { clients_mu = false } in
      let after : Server = (handle_disconnect c idle).1 in
      let mu = (disconnect-stops c idle (refl, h.1) e).1 in
      let (requests, removals, lookups, joins) = stuck-clients after mu in
      rw (process_message-disconnect f conn c s h e d)
        (refl, (λ m other id x. stuck-message after m other id x mu), requests, removals, lookups)
