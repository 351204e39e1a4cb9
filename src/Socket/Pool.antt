-- ===== src/Socket/Pool.antt =====
-- The pool of the connected bridges: what is true of the map of clients, and that the operations on
-- it keep it.
pub mod Handlers
pub mod Kept
use fxtrader.Base.{
  ℕ, suc, String, Bool, true, false, Option, none, some, List, [], ◌∷◌, ◌≡◌, ◌≢◌, ◌⊎◌, ◌<◌, inl,
  inr, refl, sym, ap, ◌∙◌, subst, arith, eq_iff, lookup, erase, insert, Dict, Bool-cases, ◌=s=◌,
  ◌||◌, if◌then◌else◌,
}
use fxtrader.Base.Result.{Error, Result}
use fxtrader.Outside.{Outside}
use fxtrader.World.{called}
use fxtrader.Socket.{
  Client, Finish, Server, Serving, done, failed, crashed, blocked, holds, ◌>>=◌, ◌>>◌, continue,
  attempt, attempted, on_conn, lock, unlock, lock_clients, unlock_clients, modify, gets, fresh,
  pure, now,
}
use fxtrader.Socket.Messages.{Outgoing, disconnect}
use fxtrader.Socket.Clients.{
  send_json_message, locked, guarded, resolve, farewell, replace, put_client, add_client,
  drop_found, remove_client, close_conn, cancel,
}

-- Every client stands under its own id, with a mutex that was given out, and no two ids share a
-- mutex.
pub record IsPool (cs : Dict Client) (next : ℕ) : Type 0 where
  pub keyed : (k : String) (c : Client) → lookup k cs ≡ some c → c.client_id ≡ k
  pub given : (k : String) (c : Client) → lookup k cs ≡ some c → c.mutex < next
  pub apart :
      (j k : String) (c d : Client)
      → lookup j cs ≡ some c
      → lookup k cs ≡ some d
      → c.mutex ≡ d.mutex
      → j ≡ k

lookup-erase :
    {V : Type 0} (k id : String) (d : Dict V) (v : V)
    → lookup k (erase id d) ≡ some v
    → (lookup k d ≡ some v) × (k ≢ id)
lookup-erase k id [] v h = ground arith
lookup-erase k id ((j, x) ∷ d) v h = elim (Bool-cases (j =s= id)) [
  | inl e ↦
      let kept : lookup k (erase id d) ≡ some v = ground (arith, e, h) in
      let (same, ne) = lookup-erase k id d v kept in
      (ground (arith, e, same, ne, eq_iff j id, eq_iff j k), ne)
  | inr e ↦ elim (Bool-cases (j =s= k)) [
    | inl f ↦ (ground (arith, e, f, h), ground (arith, e, f, eq_iff j id, eq_iff j k))
    | inr f ↦
        let kept : lookup k (erase id d) ≡ some v = ground (arith, e, f, h) in
        let (same, ne) = lookup-erase k id d v kept in (ground (arith, f, same), ne)
  ]
]

erased-IsPool :
    (id : String) (cs : Dict Client) (next : ℕ) → IsPool cs next → IsPool (erase id cs) next
erased-IsPool id cs next h = record {
  keyed = λ k c e. h.keyed k c (lookup-erase k id cs c e).0;
  given = λ k c e. h.given k c (lookup-erase k id cs c e).0;
  apart = λ j k c d e f same.
      h.apart j k c d (lookup-erase j id cs c e).0 (lookup-erase k id cs d f).0 same;
}

looked :
    {V : Type 0} (k id : String) (d : Dict V) (x v : V)
    → lookup k (insert id x d) ≡ some v
    → ((k ≡ id) × (x ≡ v)) ⊎ (lookup k d ≡ some v)
looked k id d x v h = elim (Bool-cases (id =s= k)) [
  | inl e ↦ inl (ground (arith, e, eq_iff id k), ground (arith, e, h))
  | inr e ↦ inr (lookup-erase k id d v (ground (arith, e, h))).0
]

inserted-IsPool :
    (c : Client) (cs : Dict Client) (next : ℕ)
    → IsPool cs next
    → c.mutex ≡ next
    → IsPool (insert c.client_id c cs) (suc next)
inserted-IsPool c cs next h new = record {
  keyed = λ k d e. elim (looked k c.client_id cs c d e) [
    | inl (same, is) ↦ ap (λ x. x.client_id) (sym is) ∙ sym same
    | inr f ↦ h.keyed k d f
  ];
  given = λ k d e. elim (looked k c.client_id cs c d e) [
    | inl (same, is) ↦ ground (arith, new, ap (λ x. x.mutex) is)
    | inr f ↦ ground (arith, h.given k d f)
  ];
  apart = λ j k d x e f same. elim (looked j c.client_id cs c d e) [
    | inl (a, is) ↦ elim (looked k c.client_id cs c x f) [
      | inl (b, is2) ↦ a ∙ sym b
      | inr g ↦ absurd (ground (arith, new, ap (λ y. y.mutex) is, h.given k x g, same))
    ]
    | inr g ↦ elim (looked k c.client_id cs c x f) [
      | inl (b, is2) ↦ absurd (ground (arith, new, ap (λ y. y.mutex) is2, h.given j d g, same))
      | inr i ↦ h.apart j k d x g i same
    ]
  ];
}

module _ ⦃o : Outside⦄ where
  open o use {F, fails}

  abbrev pub IsPooled : Server → Type 0
  IsPooled s = IsPool s.clients s.next

  abbrev pub Preserves : {A : Type 0} → Serving A → Type 0
  Preserves m = (s : Server) → IsPooled s → IsPooled (m s).1

  pub bind-Preserves :
      {A B : Type 0} (m : Serving A) (f : A → Serving B)
      → Preserves m
      → ((a : A) → Preserves (f a))
      → Preserves (m >>= f)
  bind-Preserves {A} {B} m f hm hf s h = after (m s).0 (m s).1 (hm s h)
    where
      after : (r : Finish A) (s' : Server) → IsPooled s' → IsPooled (continue r f s').1
      after (done a) s' g = hf a s' g
      after (failed e) s' g = g
      after crashed s' g = g
      after blocked s' g = g

  pub attempt-Preserves : {A : Type 0} (m : Serving A) → Preserves m → Preserves (attempt m)
  attempt-Preserves m hm s h = hm s h

  resolve-Preserves : {A : Type 0} (r : Result A) → Preserves (resolve r)
  resolve-Preserves (Result.ok a) s h = h
  resolve-Preserves (Result.err e) s h = h
  resolve-Preserves Result.panic s h = h

  pub lock-Preserves : (c : Client) → Preserves (lock c)
  lock-Preserves c s h = elim (Bool-cases (holds c.mutex s.held)) [
    | inl e ↦ rw e h
    | inr e ↦ rw e h
  ]

  pub lock_clients-Preserves : Preserves lock_clients
  lock_clients-Preserves s h = elim (Bool-cases s.clients_mu) [ inl e ↦ rw e h | inr e ↦ rw e h ]

  -- A call on a connection that touches neither the map nor the numbers.
  pub on_conn-Preserves :
      (conn : ℕ) (f : Server → Server)
      → ((s : Server) → IsPooled s → IsPooled (f s))
      → Preserves (on_conn conn f)
  on_conn-Preserves conn f k s h = elim (Bool-cases (fails s.world.calls || holds conn s.closed)) [
    | inl e ↦ rw e h
    | inr e ↦ rw e (k (record s { world = called s.world }) h)
  ]

  pub locked-Preserves :
      {A : Type 0} (c : Client) (m : Serving A) → Preserves m → Preserves (locked c m)
  unfolding locked
  locked-Preserves c m hm =
      bind-Preserves (lock c) (λ _. attempt m >>= λ r. unlock c >> resolve r) (lock-Preserves c)
        (λ _.
          bind-Preserves (attempt m) (λ r. unlock c >> resolve r) hm
            (λ r. bind-Preserves (unlock c) (λ _. resolve r) (λ s h. h) (λ _. resolve-Preserves r)))

  pub guarded-Preserves : {A : Type 0} (m : Serving A) → Preserves m → Preserves (guarded m)
  unfolding guarded
  guarded-Preserves m hm =
      bind-Preserves lock_clients (λ _. attempt m >>= λ r. unlock_clients >> resolve r)
        lock_clients-Preserves
        (λ _.
          bind-Preserves (attempt m) (λ r. unlock_clients >> resolve r) hm
            (λ r.
              bind-Preserves unlock_clients (λ _. resolve r) (λ s h. h) (λ _. resolve-Preserves r)))

  pub send_json_message-Preserves :
      (c : Client) (msg : Outgoing F) → Preserves (send_json_message c msg)
  unfolding send_json_message
  send_json_message-Preserves c msg =
      let write : Server → Server = λ s. record s { written = (c.conn, msg) ∷ s.written } in
      locked-Preserves c (on_conn c.conn write) (on_conn-Preserves c.conn write (λ s h. h))

  pub close_conn-Preserves : (conn : ℕ) → Preserves (close_conn conn)
  close_conn-Preserves conn =
      on_conn-Preserves conn (λ s. record s { closed = conn ∷ s.closed }) (λ s h. h)

  farewell-Preserves : (old : Client) → Preserves (farewell old)
  unfolding farewell
  farewell-Preserves old s h =
      let msg : Outgoing F = disconnect "New connection established" (o.clock s.world.calls) in
      bind-Preserves (attempt (send_json_message old msg)) (λ x. pure tt)
        (send_json_message-Preserves old msg) (λ x s h. h) (record s { world = called s.world }) h

  replace-Preserves : (old : Option Client) → Preserves (replace old)
  unfolding replace
  replace-Preserves none s h = h
  replace-Preserves (some old) s h =
      bind-Preserves (locked old (attempt (close_conn old.conn))) (λ _. farewell old)
        (locked-Preserves old (attempt (close_conn old.conn)) (close_conn-Preserves old.conn))
        (λ _. farewell-Preserves old) (record s { cancelled = old.ping ∷ s.cancelled }) h

  put_client-Preserves : (id : String) (conn ping : ℕ) → Preserves (put_client id conn ping)
  unfolding put_client
  put_client-Preserves id conn ping s h =
      bind-Preserves (replace (lookup id s.clients)) (λ _. fresh >>= λ mutex. entry mutex)
        (replace-Preserves (lookup id s.clients))
        (λ _ s h. inserted-IsPool (new_client s.next) s.clients s.next h refl) s h
    where
      new_client : ℕ → Client
      new_client mutex = record { conn = conn; ping = ping; client_id = id; mutex = mutex }

      entry : ℕ → Serving (Unit {0})
      entry mutex = modify λ s. record s {
        clients = insert id (new_client mutex) s.clients;
        mt5_conn = if s.has_trade_service then some conn else s.mt5_conn;
      }

  pub add_client-Preserves : (id : String) (conn ping : ℕ) → Preserves (add_client id conn ping)
  unfolding add_client
  add_client-Preserves id conn ping =
      guarded-Preserves (put_client id conn ping) (put_client-Preserves id conn ping)

  drop_found-Preserves : (id : String) (c : Option Client) → Preserves (drop_found id c)
  unfolding drop_found
  drop_found-Preserves id none = λ s h. h
  drop_found-Preserves id (some c) =
      bind-Preserves (locked c (cancel c >> attempt (close_conn c.conn)))
        (λ _. modify λ s. record s { clients = erase id s.clients })
        (locked-Preserves c (cancel c >> attempt (close_conn c.conn))
          (λ s. close_conn-Preserves c.conn (record s { cancelled = c.ping ∷ s.cancelled })))
        (λ _ s h. erased-IsPool id s.clients s.next h)

  pub remove_client-Preserves : (id : String) → Preserves (remove_client id)
  unfolding remove_client
  remove_client-Preserves id =
      guarded-Preserves (gets (λ s. lookup id s.clients) >>= drop_found id)
        (λ s. drop_found-Preserves id (lookup id s.clients) s)
