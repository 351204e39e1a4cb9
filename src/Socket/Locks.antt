-- ===== src/Socket/Locks.antt =====
-- Which actions of the server of the bridges may wait for ever: the mutexes before and after.
use fxtrader.Base.{
  ℕ, String, true, false, Option, none, some, [], ◌∷◌, ◌≡◌, refl, inl, inr, ◌∙◌, arith, ◌||◌,
  Bool-cases, lookup, erase, insert, if◌then◌else◌,
}
use fxtrader.Outside.{Outside}
use fxtrader.World.{called}
use fxtrader.Socket.{
  Client, Finish, Server, Serving, done, failed, crashed, blocked, holds, release, ◌>>=◌, continue,
  attempt, attempted, on_conn, ◌>>◌, unlock, unlock_clients, modify, pure, gets, fresh,
}
use fxtrader.Socket.Messages.{Outgoing, disconnect}
use fxtrader.Socket.Clients.{
  send_json_message, locked, replace, farewell, drop_found, guarded, put_client, is_some,
  remove_client, add_client, is_client_connected, close_conn, cancel, resolve,
}

abbrev pub IsRunning : {A : Type 0} → Finish A → Type 0
IsRunning blocked = ⊥
IsRunning (done a) = Unit
IsRunning (failed e) = Unit
IsRunning crashed = Unit

module _ ⦃o : Outside⦄ where
  open o use {F, fails}

  -- No mutex is held.
  abbrev pub IsIdle : Server → Type 0
  IsIdle s = (s.clients_mu ≡ false) × (s.held ≡ [])

  -- The action does not wait for ever, and leaves no mutex held.
  abbrev pub IsSteady : {A : Type 0} → Serving A → Type 0
  IsSteady m = (s : Server) → IsIdle s → IsRunning ((m s).0) × IsIdle ((m s).1)

  pub bind-IsSteady :
      {A B : Type 0} (m : Serving A) (f : A → Serving B)
      → IsSteady m
      → ((a : A) → IsSteady (f a))
      → IsSteady (m >>= f)
  bind-IsSteady {A = A} {B = B} m f hm hf s h = after (m s).0 (m s).1 (hm s h)
    where
      after :
          (r : Finish A) (s' : Server)
          → IsRunning r × IsIdle s'
          → IsRunning ((continue r f s').0) × IsIdle ((continue r f s').1)
      after (done a) s' g = hf a s' g.1
      after (failed e) s' g = g
      after crashed s' g = g
      after blocked s' g = g

  abbrev pub IsDone : {A : Type 0} → Finish A → Type 0
  IsDone (done a) = Unit
  IsDone (failed e) = ⊥
  IsDone crashed = ⊥
  IsDone blocked = ⊥

  -- The action ends with a value, under the mutex of the clients too.
  abbrev pub IsCalm : {A : Type 0} → Serving A → Type 0
  IsCalm m =
      (s : Server)
      → s.held ≡ []
      → IsDone ((m s).0) × ((m s).1.clients_mu ≡ s.clients_mu) × ((m s).1.held ≡ [])

  pub bind-IsCalm :
      {A B : Type 0} (m : Serving A) (f : A → Serving B)
      → IsCalm m
      → ((a : A) → IsCalm (f a))
      → IsCalm (m >>= f)
  bind-IsCalm {A = A} {B = B} m f hm hf s h = after (m s).0 (m s).1 (hm s h)
    where
      after :
          (r : Finish A) (s' : Server)
          → IsDone r × (s'.clients_mu ≡ s.clients_mu) × (s'.held ≡ [])
          → IsDone ((continue r f s').0)
            × ((continue r f s').1.clients_mu ≡ s.clients_mu)
            × ((continue r f s').1.held ≡ [])
      after (done a) s' g = let x = hf a s' g.2 in (x.0, x.1 ∙ g.1, x.2)
      after (failed e) s' g = elim g.0 [ ]
      after crashed s' g = elim g.0 [ ]
      after blocked s' g = elim g.0 [ ]

  -- The action ends with a value and touches no mutex.
  abbrev pub IsFree : {A : Type 0} → Serving A → Type 0
  IsFree m =
      (s : Server)
      → IsDone ((m s).0) × ((m s).1.clients_mu ≡ s.clients_mu) × ((m s).1.held ≡ s.held)

  -- The part of `locked` after the action.
  abbrev unlocking : {A : Type 0} → Client → Finish A → Serving A
  unlocking c r s = continue (attempted r) (λ x. unlock c >> resolve x) s

  unlocking-IsDone :
      {A : Type 0} (c : Client) (r : Finish A) (s : Server)
      → IsDone r
      → s.held ≡ c.mutex ∷ []
      → IsDone ((unlocking c r s).0)
        × ((unlocking c r s).1.clients_mu ≡ s.clients_mu)
        × ((unlocking c r s).1.held ≡ [])
  unfolding release
  unlocking-IsDone c (done a) s d h = ground (arith, h)
  unlocking-IsDone c (failed e) s d h = elim d [ ]
  unlocking-IsDone c crashed s d h = elim d [ ]
  unlocking-IsDone c blocked s d h = elim d [ ]

  pub locked-IsCalm : {A : Type 0} (c : Client) (m : Serving A) → IsFree m → IsCalm (locked c m)
  unfolding locked holds
  locked-IsCalm c m f s h =
      let s1 : Server = record s { held = c.mutex ∷ [] } in
      let (d, mu, held) = f s1 in
      let (x, y, z) = unlocking-IsDone c (m s1).0 (m s1).1 d held in rw h (x, y ∙ mu, z)

  write-IsFree :
      (conn : ℕ) (f : Server → Server)
      → ((s : Server) → ((f s).clients_mu ≡ s.clients_mu) × ((f s).held ≡ s.held))
      → IsFree (attempt (on_conn conn f))
  write-IsFree conn f k s = elim (Bool-cases (fails s.world.calls || holds conn s.closed)) [
    | inl e ↦ rw e (tt, refl, refl)
    | inr e ↦ let (a, b) = k (record s { world = called s.world }) in rw e (tt, a, b)
  ]

  close_conn-IsFree : (conn : ℕ) → IsFree (attempt (close_conn conn))
  close_conn-IsFree conn =
      write-IsFree conn (λ s. record s { closed = conn ∷ s.closed }) (λ s. (refl, refl))

  free-IsCalm : {A : Type 0} (m : Serving A) → IsFree m → IsCalm m
  free-IsCalm m f s h = let (a, b, c) = f s in (a, b, c ∙ h)

  attempt-IsCalm : {A : Type 0} (m : Serving A) → IsCalm m → IsCalm (attempt m)
  attempt-IsCalm {A = A} m k s h = after (m s).0 (m s).1 (k s h)
    where
      after :
          (r : Finish A) (s' : Server)
          → IsDone r × (s'.clients_mu ≡ s.clients_mu) × (s'.held ≡ [])
          → IsDone (attempted r) × (s'.clients_mu ≡ s.clients_mu) × (s'.held ≡ [])
      after (done a) s' g = g
      after (failed e) s' g = (tt, g.1, g.2)
      after crashed s' g = g
      after blocked s' g = g

  IsSteady-of_attempt : {A : Type 0} (m : Serving A) → IsCalm (attempt m) → IsSteady m
  IsSteady-of_attempt {A = A} m k s h = after (m s).0 (m s).1 (k s h.1)
    where
      after :
          (r : Finish A) (s' : Server)
          → IsDone (attempted r) × (s'.clients_mu ≡ s.clients_mu) × (s'.held ≡ [])
          → IsRunning r × IsIdle s'
      after (done a) s' g = (tt, (g.1 ∙ h.0, g.2))
      after (failed e) s' g = (tt, (g.1 ∙ h.0, g.2))
      after crashed s' g = (tt, (g.1 ∙ h.0, g.2))
      after blocked s' g = elim g.0 [ ]

  pub attempted-IsSteady : {A : Type 0} (m : Serving A) → IsSteady m → IsSteady (attempt m)
  attempted-IsSteady {A = A} m k s h = after (m s).0 (m s).1 (k s h)
    where
      after :
          (r : Finish A) (s' : Server)
          → IsRunning r × IsIdle s'
          → IsRunning (attempted r) × IsIdle s'
      after (done a) s' g = g
      after (failed e) s' g = g
      after crashed s' g = g
      after blocked s' g = g

  send_json_message-IsCalm :
      (c : Client) (msg : Outgoing F) → IsCalm (attempt (send_json_message c msg))
  unfolding send_json_message locked holds release
  send_json_message-IsCalm c msg s h = elim (Bool-cases (fails s.world.calls)) [
    | inl e ↦ ground (arith, h, e)
    | inr e ↦ ground (arith, h, e)
  ]

  pub send_json_message-IsSteady :
      (c : Client) (msg : Outgoing F) → IsSteady (send_json_message c msg)
  send_json_message-IsSteady c msg =
      IsSteady-of_attempt (send_json_message c msg) (send_json_message-IsCalm c msg)

  farewell-IsCalm : (old : Client) → IsCalm (farewell old)
  unfolding farewell
  farewell-IsCalm old s h =
      bind-IsCalm
        (attempt
          (send_json_message old (disconnect "New connection established" (o.clock s.world.calls))))
        (λ x. pure tt)
        (send_json_message-IsCalm old
          (disconnect "New connection established" (o.clock s.world.calls)))
        (λ x s h. (tt, refl, h)) (record s { world = called s.world }) h

  replace-IsCalm : (old : Option Client) → IsCalm (replace old)
  unfolding replace
  replace-IsCalm none s h = (tt, refl, h)
  replace-IsCalm (some old) s h =
      bind-IsCalm (locked old (attempt (close_conn old.conn))) (λ _. farewell old)
        (locked-IsCalm old (attempt (close_conn old.conn)) (close_conn-IsFree old.conn))
        (λ _. farewell-IsCalm old) (record s { cancelled = old.ping ∷ s.cancelled }) h

  drop_found-IsCalm : (id : String) (c : Option Client) → IsCalm (drop_found id c)
  unfolding drop_found
  drop_found-IsCalm id none s h = (tt, refl, h)
  drop_found-IsCalm id (some c) s h =
      bind-IsCalm (locked c (cancel c >> attempt (close_conn c.conn)))
        (λ _. modify λ s. record s { clients = erase id s.clients })
        (locked-IsCalm c (cancel c >> attempt (close_conn c.conn))
          (λ s. close_conn-IsFree c.conn (record s { cancelled = c.ping ∷ s.cancelled })))
        (λ _ s h. (tt, refl, h)) s h

  abbrev unguarding : {A : Type 0} → Finish A → Serving A
  unguarding r s = continue (attempted r) (λ x. unlock_clients >> resolve x) s

  unguarding-IsIdle :
      {A : Type 0} (r : Finish A) (s : Server)
      → IsDone (attempted r)
      → s.held ≡ []
      → IsRunning ((unguarding r s).0) × IsIdle ((unguarding r s).1)
  unguarding-IsIdle (done a) s d h = (tt, (refl, h))
  unguarding-IsIdle (failed e) s d h = (tt, (refl, h))
  unguarding-IsIdle crashed s d h = elim d [ ]
  unguarding-IsIdle blocked s d h = elim d [ ]

  guarded-IsSteady : {A : Type 0} (m : Serving A) → IsCalm (attempt m) → IsSteady (guarded m)
  unfolding guarded
  guarded-IsSteady m k s h =
      let s1 : Server = record s { clients_mu = true } in
      let (d, mu, held) = k s1 h.1 in rw h.0 (unguarding-IsIdle (m s1).0 (m s1).1 d held)

  pub add_client-IsSteady : (id : String) (conn ping : ℕ) → IsSteady (add_client id conn ping)
  unfolding add_client put_client
  add_client-IsSteady id conn ping = guarded-IsSteady (put_client id conn ping) (
      attempt-IsCalm (put_client id conn ping) (λ s.
        bind-IsCalm (replace (lookup id s.clients))
          (λ _. fresh >>= λ mutex. modify λ s. record s {
            clients =
                insert id (record { conn = conn; ping = ping; client_id = id; mutex = mutex })
                  s.clients;
            mt5_conn = if s.has_trade_service then some conn else s.mt5_conn;
          })
          (replace-IsCalm (lookup id s.clients)) (λ _ s h. (tt, refl, h)) s))

  pub remove_client-IsSteady : (id : String) → IsSteady (remove_client id)
  unfolding remove_client
  remove_client-IsSteady id = guarded-IsSteady (gets (λ s. lookup id s.clients) >>= drop_found id) (
      attempt-IsCalm (gets (λ s. lookup id s.clients) >>= drop_found id)
        (λ s. drop_found-IsCalm id (lookup id s.clients) s))

  pub is_client_connected-IsSteady : (id : String) → IsSteady (is_client_connected id)
  unfolding is_client_connected
  is_client_connected-IsSteady id =
      guarded-IsSteady (gets λ s. is_some (lookup id s.clients)) (λ s h. (tt, refl, h))
