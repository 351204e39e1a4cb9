-- ===== src/Socket/Loops.antt =====
-- How the loops of socket/socket_server.go end: `handleConnection` and `startPingMonitor`.
use fxtrader.Base.{
  ℕ, zero, suc, ◌+◌, ◌≤◌, ◌<◌, String, Bool, true, false, some, List, [], ◌∷◌, ◌≡◌, refl, inl, inr,
  arith, Bool-cases, lookup, erase, leb, ◌∙◌, ap, ◌||◌,
}
use fxtrader.Base.Result.{err, driver}
use fxtrader.Outside.{Outside}
use fxtrader.World.{called}
use fxtrader.Socket.{Client, Server, done, failed, holds, release}
use fxtrader.Socket.Messages.{Outgoing, ping}
use fxtrader.Socket.Clients.{
  locked, guarded, send_json_message, is_client_connected, remove_client, drop_found,
}
use fxtrader.Socket.Connection.{
  Read, read_error, read_loop, Tick, ticked, ping_monitor, ping_tick, after_ping,
}
use fxtrader.Socket.Locks.{IsIdle}

-- `n` times `x`, and then the rest.
unfoldable pub errors : {A : Type 0} → A → ℕ → List A → List A
errors x zero rest = rest
errors x (suc n) rest = x ∷ errors x n rest

holds-none : (n : ℕ) → holds n [] ≡ false
unfolding holds
holds-none n = refl

or_true : (a b : Bool) → b ≡ true → (a || b) ≡ true
or_true a b h = ground (arith, h)

module _ ⦃o : Outside⦄ where
  open o use {F, fails}

  -- After `n` errors in a row, fewer than ten, `k` more end the loop, with the state as it is and
  -- the rest unread, if they make ten, and else they are counted and the loop goes on.
  pub read_loop-errors :
      (k n : ℕ) (rest : List Read) (conn : ℕ) (id : String) (s : Server)
      → n < 10
      → (10 ≤ n + k → read_loop (errors read_error k rest) conn id n s ≡ (done true, s))
        × (n + k < 10
            → read_loop (errors read_error k rest) conn id n s ≡ read_loop rest conn id (n + k) s)
  unfolding read_loop errors
  read_loop-errors zero n rest conn id s l =
      (λ h. ground arith, λ h. ap (λ i. read_loop rest conn id i s) (omega arith))
  read_loop-errors (suc k) n rest conn id s l = elim (Bool-cases (leb 10 (suc n))) [
    | inl e ↦ (λ h. rw e refl, λ h. ground (arith, e))
    | inr e ↦
        let (a, b) = read_loop-errors k (suc n) rest conn id s (ground (arith, e)) in
        (
          λ h. rw e (a (omega arith)),
          λ h. rw e (b (omega arith) ∙ ap (λ i. read_loop rest conn id i s) (omega arith)),
        )
  ]

  release_self : (n : ℕ) → release n (n ∷ []) ≡ []
  unfolding release
  release_self n = ground arith

  -- A write on a connection that this side has closed.
  send_json_message-closed :
      (c : Client) (msg : Outgoing F) (s : Server)
      → s.held ≡ []
      → holds c.conn s.closed ≡ true
      → send_json_message c msg s ≡ (failed driver, record s { held = []; world = called s.world })
  unfolding send_json_message locked
  send_json_message-closed c msg s h k =
      let none_held : holds c.mutex [] ≡ false = holds-none c.mutex in
      let fails_so : (fails s.world.calls || holds c.conn s.closed) ≡ true =
        or_true (fails s.world.calls) (holds c.conn s.closed) k in
      rw (h, none_held, fails_so, release_self c.mutex) refl

  -- The state in which a tick has tried to write.
  abbrev tried : Server → Server
  tried s = record s { clients_mu = false; held = []; world = called (called s.world) }

  ping_tick-closed :
      (c d : Client) (missed : ℕ) (s : Server)
      → IsIdle s
      → lookup c.client_id s.clients ≡ some d
      → holds c.conn s.closed ≡ true
      → ping_tick c missed s ≡ after_ping c missed (err driver) (tried s)
  unfolding ping_tick is_client_connected guarded
  ping_tick-closed c d missed s h e k =
      let t : Server = record s { clients_mu = false; held = []; world = called s.world } in
      rw
        (
          h.0,
          e,
          h.1,
          holds-none c.mutex,
          release_self c.mutex,
          send_json_message-closed c (ping (o.clock s.world.calls)) t refl k,
        )
        refl

  remove_client-erases :
      (id : String) (d : Client) (s : Server)
      → IsIdle s
      → lookup id s.clients ≡ some d
      → ((remove_client id s).0 ≡ done tt) × ((remove_client id s).1.clients ≡ erase id s.clients)
  unfolding remove_client guarded drop_found locked
  remove_client-erases id d s h e =
      elim (Bool-cases (fails s.world.calls || holds d.conn s.closed)) [
        | inl x ↦ rw (h.0, e, h.1, holds-none d.mutex, x) (refl, refl)
        | inr x ↦ rw (h.0, e, h.1, holds-none d.mutex, x) (refl, refl)
      ]

  -- If no mutex is held, the monitor of a client whose id is in the map, whose connection this side
  -- has closed and which has missed `n` pongs, fewer than five, returns within `k` more ticks if
  -- these make five with `n`, and the id is then taken out of the map.
  pub ping_monitor-ends :
      (k n : ℕ) (rest : List Tick) (c d : Client) (s : Server)
      → IsIdle s
      → lookup c.client_id s.clients ≡ some d
      → holds c.conn s.closed ≡ true
      → n < 5
      → 5 ≤ n + k
      → let (r, s') = ping_monitor c (errors ticked k rest) n s in
        (r ≡ done true) × (s'.clients ≡ erase c.client_id s.clients)
  unfolding ping_monitor after_ping errors
  ping_monitor-ends zero n rest c d s h e x l m = elim (absurd_bounds l m) [ ]
    where
      absurd_bounds : n < 5 → 5 ≤ n + 0 → ⊥
      absurd_bounds a b = omega arith
  ping_monitor-ends (suc k) n rest c d s h e x l m = elim (Bool-cases (leb 5 (suc n))) [
    | inl y ↦
        let (r, cs) = remove_client-erases c.client_id d (tried s) (refl, refl) e in
        rw (ping_tick-closed c d n s h e x, y, r) (refl, cs)
    | inr y ↦
        rw (ping_tick-closed c d n s h e x, y)
          (ping_monitor-ends k (suc n) rest c d (tried s) (refl, refl) e x (ground (arith, y))
            (omega arith))
  ]
