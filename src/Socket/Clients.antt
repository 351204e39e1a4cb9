-- ===== src/Socket/Clients.antt =====
-- The pool of connected bridges: `addClient`, `removeClient`, `isClientConnected`,
-- `sendJSONMessage`, the `Send…Request` methods and `Stop` of socket/socket_server.go.
use fxtrader.Base.{
  ℕ, String, Bool, true, false, Option, none, some, List, [], ◌∷◌, lookup, insert, erase,
  if◌then◌else◌,
}
use fxtrader.Base.Result.{Error, Result, ok, err, panic, new}
use fxtrader.Outside.{Outside}
use fxtrader.Model.Trade.{Request}
use fxtrader.Socket.{
  Client, Finish, Serving, done, failed, blocked, crashed, pure, raise, modify, gets, ◌>>=◌, ◌>>◌,
  fresh, attempt, lock_clients, unlock_clients, lock, unlock, on_conn, now,
}
use fxtrader.Socket.Messages.{Outgoing, request, disconnect}

module _ ⦃o : Outside⦄ where
  open o use {F}

  abbrev pub resolve : {A : Type 0} → Result A → Serving A
  resolve (ok a) s = (done a, s)
  resolve (err e) s = (failed e, s)
  resolve panic s = (crashed, s)

  -- `m` under the mutex of a client, which is unlocked after an error too.
  unfoldable pub locked : {A : Type 0} → Client → Serving A → Serving A
  locked c m = do lock c; r ← attempt m; unlock c; resolve r

  -- `m` under the mutex of the clients, with a deferred unlock.
  unfoldable pub guarded : {A : Type 0} → Serving A → Serving A
  guarded m = do lock_clients; r ← attempt m; unlock_clients; resolve r

  unfoldable pub send_json_message : Client → Outgoing F → Serving (Unit {0})
  unfolding locked
  send_json_message c msg =
      locked c (on_conn c.conn (λ s. record s { written = (c.conn, msg) ∷ s.written }))

  abbrev pub close_conn : ℕ → Serving (Unit {0})
  close_conn conn = on_conn conn (λ s. record s { closed = conn ∷ s.closed })

  abbrev pub cancel : Client → Serving (Unit {0})
  cancel c = modify λ s. record s { cancelled = c.ping ∷ s.cancelled }

  -- The message goes out on the connection that was just closed.
  unfoldable pub farewell : Client → Serving (Unit {0})
  unfolding send_json_message
  farewell old = do
    t ← now
    sent ← attempt (send_json_message old (disconnect "New connection established" t))
    pure tt

  -- The part of `addClient` on a client that has the id already.
  unfoldable pub replace : Option Client → Serving (Unit {0})
  unfolding farewell locked
  replace none = pure tt
  replace (some old) = do
    cancel old
    closed ← locked old (attempt (close_conn old.conn))
    farewell old

  unfoldable pub put_client : String → ℕ → ℕ → Serving (Unit {0})
  unfolding replace
  put_client id conn ping = do
    old ← gets λ s. lookup id s.clients
    replace old
    mutex ← fresh
    modify λ s. record s {
      clients =
          insert id (record { conn = conn; ping = ping; client_id = id; mutex = mutex }) s.clients;
      mt5_conn = if s.has_trade_service then some conn else s.mt5_conn;
    }

  unfoldable pub add_client : String → ℕ → ℕ → Serving (Unit {0})
  unfolding put_client guarded
  add_client id conn ping = guarded (put_client id conn ping)

  -- The part of `removeClient` on the client that it finds.
  unfoldable pub drop_found : String → Option Client → Serving (Unit {0})
  unfolding locked
  drop_found id none = pure tt
  drop_found id (some c) = do
    closed ← locked c (cancel c >> attempt (close_conn c.conn))
    modify λ s. record s { clients = erase id s.clients }

  unfoldable pub remove_client : String → Serving (Unit {0})
  unfolding drop_found guarded
  remove_client id = guarded (gets (λ s. lookup id s.clients) >>= drop_found id)

  abbrev pub is_some : {A : Type 0} → Option A → Bool
  is_some none = false
  is_some (some a) = true

  unfoldable pub is_client_connected : String → Serving Bool
  unfolding guarded
  is_client_connected id = guarded (gets λ s. is_some (lookup id s.clients))

  abbrev or_next : Finish (Unit {0}) → (Error → Serving (Unit {0})) → Serving (Unit {0})
  or_next (done x) k s = (done x, s)
  or_next (failed e) k s = k e s
  or_next crashed k s = (crashed, s)
  or_next blocked k s = (blocked, s)

  -- The loop over the clients: the first that takes the message ends it.
  unfoldable pub send_to_first : Outgoing F → Error → List (String × Client) → Serving (Unit {0})
  unfolding send_json_message
  send_to_first msg last [] s = (failed last, s)
  send_to_first msg last ((id, c) ∷ cs) s =
      let (r, s') = send_json_message c msg s in or_next r (λ e. send_to_first msg e cs) s'

  abbrev send_to_clients : Outgoing F → List (String × Client) → Serving (Unit {0})
  send_to_clients msg [] = raise (new "no active MT5 connections available")
  send_to_clients msg (c ∷ cs) = send_to_first msg (new "") (c ∷ cs)

  -- `SendTradeRequest` and the four methods that differ from it in their log only.
  unfoldable pub send_request : Request F → Serving (Unit {0})
  unfolding send_to_first guarded
  send_request r = guarded (gets (λ s. s.clients) >>= send_to_clients (request r))

  abbrev pub close_all : List (String × Client) → Serving (Unit {0})
  close_all [] = pure tt
  close_all ((id, c) ∷ cs) = do r ← attempt (close_conn c.conn); close_all cs

  unfoldable pub stop : Serving (Unit {0})
  unfolding guarded
  stop = guarded (do
    cs ← gets λ s. s.clients
    close_all cs
    modify λ s. record s { clients = []; is_stopped = true })
