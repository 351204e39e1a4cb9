-- ===== src/Socket/Handlers.antt =====
-- The handlers of socket/socket_server.go, and `Start`, which registers them.
use fxtrader.Base.{ℕ, String, Bool, true, false, Option, none, some, ◌∷◌, ◌!=s◌, if◌then◌else◌}
use fxtrader.Base.Result.{Error, Result, ok, err, panic, new, wrap}
use fxtrader.Outside.{Outside}
use fxtrader.Model.{Account}
use fxtrader.Repo.Accounts.{get_account_by_name}
use fxtrader.Service.Trade.Respond.{
  handle_trade_response as service_trade_response,
  handle_close_trade_response as service_close_trade_response,
  handle_order_stream_response as service_order_stream_response,
}
use fxtrader.Socket.{
  Client, Handler, Server, Serving, done, failed, crashed, pure, raise, crash, ◌>>=◌, ◌>>◌, present,
  lift, attempt, lock, unlock, on_conn, now, on_handshake, on_ping, on_pong, on_balance_request,
  on_disconnect, on_close_trade_response, on_order_stream_response, on_trade_response,
  on_balance_response, on_balance_stream_response,
}
use fxtrader.Socket.Messages.{
  Outgoing, Fields, pong, handshake_response, balance_response, problem, stream_error,
}
use fxtrader.Socket.Clients.{send_json_message, remove_client, close_conn, cancel}

module _ ⦃o : Outside⦄ where
  open o use {F}

  abbrev pub or_wrapped : {A : Type 0} → (Error → Error) → Result A → Serving A
  or_wrapped f (ok a) s = (done a, s)
  or_wrapped f (err e) s = (failed (f e), s)
  or_wrapped f panic s = (crashed, s)

  unfoldable pub handle_handshake : Client → Serving (Unit {0})
  handle_handshake c = do t ← now; send_json_message c (handshake_response t)

  unfoldable pub handle_ping : Client → Serving (Unit {0})
  handle_ping c = do
    t ← now
    r ← attempt (send_json_message c (pong t))
    or_wrapped (wrap "failed to send pong") r

  -- The error is sent to the client, and returned.
  unfoldable pub answer_error : {A : Type 0} → Client → Error → Error → Serving A
  answer_error c e returned = do
    t ← now
    r ← attempt (send_json_message c (problem e t))
    raise returned

  abbrev pub name_of : Option String → String
  name_of none = ""
  name_of (some n) = n

  abbrev pub is_named : Option String → Option String → Bool
  is_named name none = false
  is_named name (some user) = name_of name !=s ""

  abbrev pub check_names : Client → Option String → Option String → Serving (String × String)
  check_names c name user s =
      let e = new "missing or invalid 'account_name' in balance request" in
      let refused = answer_error c e e s in
      if is_named name user then (done (name_of name, name_of user), s) else refused

  abbrev pub owner_of : Client → Option ℕ → Serving ℕ
  owner_of c none = do let e = new "invalid object id"; answer_error c e e
  owner_of c (some user) = pure user

  abbrev pub found_account :
      Client → String → Result (Option (Account F)) → Serving (Option (Account F))
  found_account c name (ok a) = pure a
  found_account c name (err e) =
      answer_error c (wrap "failed to retrieve account" e) (wrap "failed to get account" e)
  found_account c name panic = crash

  -- `account.Balance` of an account that may be nil
  abbrev pub balance_of : Option (Account F) → Serving F
  balance_of none s = (crashed, s)
  balance_of (some a) s = (done a.balance, s)

  -- The second `ok` overrides the first, so a missing name is the empty one.
  unfoldable pub handle_balance_request : Client → Fields F → Serving (Unit {0})
  handle_balance_request c f = do
    names ← check_names c f.account_name f.user_id
    user ← owner_of c (o.from_hex names.1)
    r ← attempt (lift (get_account_by_name names.0 user))
    account ← found_account c names.0 r
    balance ← balance_of account
    t ← now
    sent ← attempt (send_json_message c (balance_response names.1 names.0 balance t))
    or_wrapped (wrap "failed to send balance response") sent

  -- It keeps the client's mutex until it ends, and `removeClient` locks it again.
  unfoldable pub handle_disconnect : Client → Serving (Unit {0})
  handle_disconnect c = do
    lock c
    cancel c
    r ← attempt (close_conn c.conn)
    remove_client c.client_id
    unlock c

  unfoldable pub handle_trade_response : Fields F → Serving (Unit {0})
  handle_trade_response f = do
    r ← present f.trade_response (new "failed to unmarshal trade response")
    lift (service_trade_response r)

  unfoldable pub handle_close_trade_response : Fields F → Serving (Unit {0})
  handle_close_trade_response f = do
    r ← present f.trade_response (new "failed to unmarshal close trade response")
    lift (service_close_trade_response r)

  abbrev pub stream_answered : Error → Result (Unit {0}) → Serving (Unit {0})
  stream_answered e (ok x) s = (failed e, s)
  stream_answered e (err d) s = (failed (wrap "error sending error response to client" d), s)
  stream_answered e panic s = (crashed, s)

  abbrev pub after_stream : Client → Result (Unit {0}) → Serving (Unit {0})
  after_stream c (ok x) = pure tt
  after_stream c (err e) = do
    let reply : Outgoing F = stream_error (wrap "Failed to process order stream" e)
    r ← attempt (on_conn c.conn (λ s. record s { written = (c.conn, reply) ∷ s.written }))
    stream_answered e r
  after_stream c panic = crash

  -- The error is written without the client's mutex.
  unfoldable pub handle_order_stream_response : Client → Fields F → Serving (Unit {0})
  handle_order_stream_response c f = do
    response ← present f.order_stream (new "failed to unmarshal order stream response")
    r ← attempt (lift (service_order_stream_response response))
    after_stream c r

  -- It only logs the answer.
  unfoldable pub handle_balance_response : Fields F → Serving (Unit {0})
  handle_balance_response f = do
    r ← present f.balance_response (new "failed to unmarshal balance response")
    pure tt

  unfoldable pub handle_balance_stream_response : Fields F → Serving (Unit {0})
  handle_balance_stream_response f = do
    r ← present f.balance_response (new "failed to unmarshal balance stream response")
    pure tt

  unfoldable pub handle : Handler → Client → Fields F → Serving (Unit {0})
  unfolding handle_disconnect
  handle on_handshake c f = handle_handshake c
  handle on_ping c f = handle_ping c
  handle on_pong c f = pure tt
  handle on_balance_request c f = handle_balance_request c f
  handle on_disconnect c f = handle_disconnect c
  handle on_close_trade_response c f = handle_close_trade_response f
  handle on_order_stream_response c f = handle_order_stream_response c f
  handle on_trade_response c f = handle_trade_response f
  handle on_balance_response c f = handle_balance_response f
  handle on_balance_stream_response c f = handle_balance_stream_response f

  -- `Start`, until it listens.
  unfoldable pub start : Server → Server
  start s =
      let handlers =
        ("balance_stream_response", on_balance_stream_response)
        ∷ ("balance_response", on_balance_response)
        ∷ ("trade_response", on_trade_response)
        ∷ ("order_stream_response", on_order_stream_response)
        ∷ ("close_trade_response", on_close_trade_response)
        ∷ ("disconnect", on_disconnect)
        ∷ ("balance_request", on_balance_request)
        ∷ ("pong", on_pong)
        ∷ ("ping", on_ping)
        ∷ ("handshake", on_handshake)
        ∷ s.handlers in
      record s { handlers = handlers; has_trade_service = true }
