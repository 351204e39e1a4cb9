-- ===== src/Socket/Pool/Handlers.antt =====
-- The handlers of the messages keep the pool.
use fxtrader.Base.{ℕ, String, Option, none, some, ◌∷◌, inl, inr, Bool-cases}
use fxtrader.Base.Result.{Error, Result, ok, err, panic, new, wrap}
use fxtrader.Outside.{Outside}
use fxtrader.Model.{Account}
use fxtrader.World.{called}
use fxtrader.Repo.Accounts.{get_account_by_name}
use fxtrader.Service.Trade.Respond.{
  handle_trade_response as service_trade_response,
  handle_close_trade_response as service_close_trade_response,
  handle_order_stream_response as service_order_stream_response,
}
use fxtrader.Socket.{
  Client, Handler, Server, Serving, ◌>>=◌, ◌>>◌, lift, attempt, now, present, pure, raise, lock,
  unlock, on_conn, on_handshake, on_ping, on_pong, on_balance_request, on_disconnect,
  on_close_trade_response, on_order_stream_response, on_trade_response, on_balance_response,
  on_balance_stream_response,
}
use fxtrader.Socket.Messages.{
  Outgoing, Fields, problem, stream_error, pong, handshake_response, balance_response,
}
use fxtrader.Socket.Clients.{send_json_message, remove_client, close_conn, cancel}
use fxtrader.Socket.Handlers.{
  handle, or_wrapped, is_named, check_names, owner_of, found_account, balance_of, stream_answered,
  after_stream, answer_error, handle_handshake, handle_ping, handle_balance_request,
  handle_disconnect, handle_trade_response, handle_close_trade_response,
  handle_order_stream_response, handle_balance_response, handle_balance_stream_response,
}
use fxtrader.Socket.Pool.{
  Preserves, bind-Preserves, on_conn-Preserves, lock-Preserves, send_json_message-Preserves,
  close_conn-Preserves, remove_client-Preserves,
}

module _ ⦃o : Outside⦄ where
  open o use {F}

  now-Preserves : Preserves now
  now-Preserves s h = h

  pub present-Preserves : {A : Type 0} (x : Option A) (e : Error) → Preserves (present x e)
  present-Preserves none e s h = h
  present-Preserves (some a) e s h = h

  or_wrapped-Preserves :
      {A : Type 0} (f : Error → Error) (r : Result A) → Preserves (or_wrapped f r)
  or_wrapped-Preserves f (ok a) s h = h
  or_wrapped-Preserves f (err e) s h = h
  or_wrapped-Preserves f panic s h = h

  -- A message of the server with the current time, and what follows it.
  pub timed-Preserves :
      {A : Type 0} (c : Client) (msg : ℕ → Outgoing F) (k : Result (Unit {0}) → Serving A)
      → ((r : Result (Unit {0})) → Preserves (k r))
      → Preserves (now >>= λ t. attempt (send_json_message c (msg t)) >>= k)
  timed-Preserves c msg k hk s h =
      let t = o.clock s.world.calls in
      bind-Preserves (attempt (send_json_message c (msg t))) k
        (send_json_message-Preserves c (msg t)) hk (record s { world = called s.world }) h

  answer_error-Preserves :
      (A : Type 0) (c : Client) (e r : Error) → Preserves (answer_error {A = A} c e r)
  unfolding answer_error
  answer_error-Preserves A c e r = timed-Preserves c (problem e) (λ x. raise r) (λ x s h. h)

  check_names-Preserves :
      (c : Client) (name user : Option String) → Preserves (check_names c name user)
  check_names-Preserves c name user s h =
      let e = new "missing or invalid 'account_name' in balance request" in
      elim (Bool-cases (is_named name user)) [
        | inl y ↦ rw y h
        | inr n ↦ rw n (answer_error-Preserves _ c e e s h)
      ]

  owner_of-Preserves : (c : Client) (i : Option ℕ) → Preserves (owner_of c i)
  owner_of-Preserves c none =
      answer_error-Preserves _ c (new "invalid object id") (new "invalid object id")
  owner_of-Preserves c (some i) = λ s h. h

  found_account-Preserves :
      (c : Client) (n : String) (r : Result (Option (Account F))) → Preserves (found_account c n r)
  found_account-Preserves c n (ok a) = λ s h. h
  found_account-Preserves c n (err e) =
      answer_error-Preserves _ c (wrap "failed to retrieve account" e)
        (wrap "failed to get account" e)
  found_account-Preserves c n panic = λ s h. h

  balance_of-Preserves : (a : Option (Account F)) → Preserves (balance_of a)
  balance_of-Preserves none s h = h
  balance_of-Preserves (some a) s h = h

  stream_answered-Preserves : (e : Error) (r : Result (Unit {0})) → Preserves (stream_answered e r)
  stream_answered-Preserves e (ok x) s h = h
  stream_answered-Preserves e (err d) s h = h
  stream_answered-Preserves e panic s h = h

  after_stream-Preserves : (c : Client) (r : Result (Unit {0})) → Preserves (after_stream c r)
  after_stream-Preserves c (ok x) = λ s h. h
  after_stream-Preserves c (err e) =
      let reply : Outgoing F = stream_error (wrap "Failed to process order stream" e) in
      let write : Server → Server = λ s. record s { written = (c.conn, reply) ∷ s.written } in
      bind-Preserves (attempt (on_conn c.conn write)) (stream_answered e)
        (on_conn-Preserves c.conn write (λ s h. h)) (stream_answered-Preserves e)
  after_stream-Preserves c panic = λ s h. h

  handle_order_stream_response-Preserves :
      (c : Client) (f : Fields F) → Preserves (handle_order_stream_response c f)
  unfolding handle_order_stream_response
  handle_order_stream_response-Preserves c f =
      bind-Preserves (present f.order_stream (new "failed to unmarshal order stream response"))
        (λ x. attempt (lift (service_order_stream_response x)) >>= after_stream c)
        (present-Preserves f.order_stream (new "failed to unmarshal order stream response"))
        (λ x.
          bind-Preserves (attempt (lift (service_order_stream_response x))) (after_stream c)
            (λ s h. h) (after_stream-Preserves c))

  handle_balance_request-Preserves :
      (c : Client) (f : Fields F) → Preserves (handle_balance_request c f)
  unfolding handle_balance_request
  handle_balance_request-Preserves c f =
      bind-Preserves (check_names c f.account_name f.user_id) with_names
        (check_names-Preserves c f.account_name f.user_id)
        λ names.
          bind-Preserves (owner_of c (o.from_hex names.1)) (with_user names)
            (owner_of-Preserves c (o.from_hex names.1))
            λ user.
              bind-Preserves (attempt (lift (get_account_by_name names.0 user))) (with_result names)
                (λ s h. h)
                λ r.
                  bind-Preserves (found_account c names.0 r) (with_account names)
                    (found_account-Preserves c names.0 r)
                    λ a.
                      bind-Preserves (balance_of a) (with_balance names) (balance_of-Preserves a)
                        λ b.
                          timed-Preserves c (balance_response names.1 names.0 b) failing
                            (or_wrapped-Preserves (wrap "failed to send balance response"))
    where
      failing : Result (Unit {0}) → Serving (Unit {0})
      failing = or_wrapped (wrap "failed to send balance response")

      with_balance : String × String → F → Serving (Unit {0})
      with_balance names b = do
        t ← now
        sent ← attempt (send_json_message c (balance_response names.1 names.0 b t))
        failing sent

      with_account : String × String → Option (Account F) → Serving (Unit {0})
      with_account names a = balance_of a >>= with_balance names

      with_result : String × String → Result (Option (Account F)) → Serving (Unit {0})
      with_result names r = found_account c names.0 r >>= with_account names

      with_user : String × String → ℕ → Serving (Unit {0})
      with_user names user = attempt (lift (get_account_by_name names.0 user)) >>= with_result names

      with_names : String × String → Serving (Unit {0})
      with_names names = owner_of c (o.from_hex names.1) >>= with_user names

  handle_disconnect-Preserves : (c : Client) → Preserves (handle_disconnect c)
  unfolding handle_disconnect
  handle_disconnect-Preserves c =
      bind-Preserves (lock c)
        (λ _.
          cancel c >> (attempt (close_conn c.conn) >>= λ r. remove_client c.client_id >> unlock c))
        (lock-Preserves c)
        (λ _ s h.
          bind-Preserves (attempt (close_conn c.conn)) (λ r. remove_client c.client_id >> unlock c)
            (close_conn-Preserves c.conn)
            (λ r.
              bind-Preserves (remove_client c.client_id) (λ _. unlock c)
                (remove_client-Preserves c.client_id) (λ _ s h. h))
            (record s { cancelled = c.ping ∷ s.cancelled }) h)

  -- A value that is read from the message, and an action that touches no pool.
  pub read-Preserves :
      {A B : Type 0} (x : Option A) (e : Error) (k : A → Serving B)
      → ((a : A) → Preserves (k a))
      → Preserves (present x e >>= k)
  read-Preserves x e k hk = bind-Preserves (present x e) k (present-Preserves x e) hk

  pub handle-Preserves : (k : Handler) (c : Client) (f : Fields F) → Preserves (handle k c f)
  unfolding handle handle_handshake handle_ping handle_trade_response handle_close_trade_response
      handle_balance_response handle_balance_stream_response
  handle-Preserves on_handshake c f = λ s h.
      send_json_message-Preserves c (handshake_response (o.clock s.world.calls))
        (record s { world = called s.world }) h
  handle-Preserves on_ping c f =
      timed-Preserves c pong (or_wrapped (wrap "failed to send pong"))
        (or_wrapped-Preserves (wrap "failed to send pong"))
  handle-Preserves on_pong c f = λ s h. h
  handle-Preserves on_balance_request c f = handle_balance_request-Preserves c f
  handle-Preserves on_disconnect c f = handle_disconnect-Preserves c
  handle-Preserves on_close_trade_response c f =
      read-Preserves f.trade_response (new "failed to unmarshal close trade response")
        (λ r. lift (service_close_trade_response r)) (λ r s h. h)
  handle-Preserves on_order_stream_response c f = handle_order_stream_response-Preserves c f
  handle-Preserves on_trade_response c f =
      read-Preserves f.trade_response (new "failed to unmarshal trade response")
        (λ r. lift (service_trade_response r)) (λ r s h. h)
  handle-Preserves on_balance_response c f =
      read-Preserves f.balance_response (new "failed to unmarshal balance response") (λ r. pure tt)
        (λ r s h. h)
  handle-Preserves on_balance_stream_response c f =
      read-Preserves f.balance_response (new "failed to unmarshal balance stream response")
        (λ r. pure tt) (λ r s h. h)
