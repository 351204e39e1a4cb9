-- ===== src/Socket/Steady.antt =====
-- No message but a disconnect makes the server of the bridges wait for ever.
use fxtrader.Base.{ℕ, String, Option, none, some, ◌≢◌, refl, ◌||◌, ◌∷◌, inl, inr, Bool-cases}
use fxtrader.Base.Result.{Error, Result, ok, err, panic, new, wrap}
use fxtrader.Outside.{Outside}
use fxtrader.World.{Action, called}
use fxtrader.Model.{Account}
use fxtrader.Repo.Accounts.{get_account_by_name}
use fxtrader.Service.Trade.Respond.{
  handle_trade_response as service_trade_response,
  handle_close_trade_response as service_close_trade_response,
  handle_order_stream_response as service_order_stream_response,
}
use fxtrader.Socket.{
  holds, Client, Handler, Serving, ◌>>=◌, lift, attempt, now, present, pure, raise, finish_of,
  on_conn, on_handshake, on_ping, on_pong, on_balance_request, on_disconnect,
  on_close_trade_response, on_order_stream_response, on_trade_response, on_balance_response,
  on_balance_stream_response,
}
use fxtrader.Socket.Messages.{
  Outgoing, Fields, problem, stream_error, pong, handshake_response, balance_response,
}
use fxtrader.Socket.Clients.{send_json_message}
use fxtrader.Socket.Handlers.{
  handle, or_wrapped, is_named, check_names, owner_of, found_account, balance_of, stream_answered,
  after_stream, answer_error, handle_handshake, handle_ping, handle_balance_request,
  handle_trade_response, handle_close_trade_response, handle_order_stream_response,
  handle_balance_response, handle_balance_stream_response,
}
use fxtrader.Socket.Locks.{
  IsRunning, IsIdle, IsSteady, bind-IsSteady, send_json_message-IsSteady, attempted-IsSteady,
}

module _ ⦃o : Outside⦄ where
  open o use {F, fails}

  present-IsSteady : {A : Type 0} (x : Option A) (e : Error) → IsSteady (present x e)
  present-IsSteady none e s h = (tt, h)
  present-IsSteady (some a) e s h = (tt, h)

  lift-IsSteady : {A : Type 0} (m : Action A) → IsSteady (lift m)
  lift-IsSteady {A = A} m s h = after (m s.world).0
    where
      after : (r : Result A) → IsRunning (finish_of r) × IsIdle s
      after (ok a) = (tt, h)
      after (err e) = (tt, h)
      after panic = (tt, h)

  answer_error-IsSteady :
      (A : Type 0) (c : Client) (e r : Error) → IsSteady (answer_error {A = A} c e r)
  unfolding answer_error
  answer_error-IsSteady A c e r s h =
      bind-IsSteady (attempt (send_json_message c (problem e (o.clock s.world.calls))))
        (λ x. raise r)
        (attempted-IsSteady (send_json_message c (problem e (o.clock s.world.calls)))
          (send_json_message-IsSteady c (problem e (o.clock s.world.calls))))
        (λ x s h. (tt, h)) (record s { world = called s.world }) h

  or_wrapped-IsSteady : {A : Type 0} (f : Error → Error) (r : Result A) → IsSteady (or_wrapped f r)
  or_wrapped-IsSteady f (ok a) s h = (tt, h)
  or_wrapped-IsSteady f (err e) s h = (tt, h)
  or_wrapped-IsSteady f panic s h = (tt, h)

  -- A message of the server with the current time, and what follows it.
  timed-IsSteady :
      {A : Type 0} (c : Client) (msg : ℕ → Outgoing F) (k : Result (Unit {0}) → Serving A)
      → ((r : Result (Unit {0})) → IsSteady (k r))
      → IsSteady (now >>= λ t. attempt (send_json_message c (msg t)) >>= k)
  timed-IsSteady c msg k hk s h =
      let t = o.clock s.world.calls in
      bind-IsSteady (attempt (send_json_message c (msg t))) k
        (attempted-IsSteady (send_json_message c (msg t)) (send_json_message-IsSteady c (msg t))) hk
        (record s { world = called s.world }) h

  handle_handshake-IsSteady : (c : Client) → IsSteady (handle_handshake c)
  unfolding handle_handshake
  handle_handshake-IsSteady c s h =
      send_json_message-IsSteady c (handshake_response (o.clock s.world.calls))
        (record s { world = called s.world }) h

  handle_ping-IsSteady : (c : Client) → IsSteady (handle_ping c)
  unfolding handle_ping
  handle_ping-IsSteady c =
      timed-IsSteady c pong (or_wrapped (wrap "failed to send pong"))
        (or_wrapped-IsSteady (wrap "failed to send pong"))

  check_names-IsSteady :
      (c : Client) (name user : Option String) → IsSteady (check_names c name user)
  check_names-IsSteady c name user s h =
      let e = new "missing or invalid 'account_name' in balance request" in
      elim (Bool-cases (is_named name user)) [
        | inl y ↦ rw y (tt, h)
        | inr n ↦ rw n (answer_error-IsSteady _ c e e s h)
      ]

  owner_of-IsSteady : (c : Client) (i : Option ℕ) → IsSteady (owner_of c i)
  owner_of-IsSteady c none =
      answer_error-IsSteady _ c (new "invalid object id") (new "invalid object id")
  owner_of-IsSteady c (some i) = λ s h. (tt, h)

  found_account-IsSteady :
      (c : Client) (n : String) (r : Result (Option (Account F))) → IsSteady (found_account c n r)
  found_account-IsSteady c n (ok a) = λ s h. (tt, h)
  found_account-IsSteady c n (err e) =
      answer_error-IsSteady _ c (wrap "failed to retrieve account" e)
        (wrap "failed to get account" e)
  found_account-IsSteady c n panic = λ s h. (tt, h)

  balance_of-IsSteady : (a : Option (Account F)) → IsSteady (balance_of a)
  balance_of-IsSteady none s h = (tt, h)
  balance_of-IsSteady (some a) s h = (tt, h)

  handle_balance_request-IsSteady :
      (c : Client) (f : Fields F) → IsSteady (handle_balance_request c f)
  unfolding handle_balance_request
  handle_balance_request-IsSteady c f =
      bind-IsSteady (check_names c f.account_name f.user_id) (λ names. with_names names)
        (check_names-IsSteady c f.account_name f.user_id)
        λ names.
          bind-IsSteady (owner_of c (o.from_hex names.1)) (λ user. with_user names user)
            (owner_of-IsSteady c (o.from_hex names.1))
            λ user.
              bind-IsSteady (attempt (lift (get_account_by_name names.0 user)))
                (λ r. with_result names r)
                (attempted-IsSteady (lift (get_account_by_name names.0 user))
                  (lift-IsSteady (get_account_by_name names.0 user)))
                λ r.
                  bind-IsSteady (found_account c names.0 r) (λ a. with_account names a)
                    (found_account-IsSteady c names.0 r)
                    λ a.
                      bind-IsSteady (balance_of a) (λ b. with_balance names b)
                        (balance_of-IsSteady a)
                        λ b.
                          timed-IsSteady c (balance_response names.1 names.0 b)
                            (or_wrapped (wrap "failed to send balance response"))
                            (or_wrapped-IsSteady (wrap "failed to send balance response"))
    where
      with_balance : String × String → F → Serving (Unit {0})
      with_balance names b = do
        t ← now
        sent ← attempt (send_json_message c (balance_response names.1 names.0 b t))
        or_wrapped (wrap "failed to send balance response") sent

      with_account : String × String → Option (Account F) → Serving (Unit {0})
      with_account names a = balance_of a >>= with_balance names

      with_result : String × String → Result (Option (Account F)) → Serving (Unit {0})
      with_result names r = found_account c names.0 r >>= with_account names

      with_user : String × String → ℕ → Serving (Unit {0})
      with_user names user = attempt (lift (get_account_by_name names.0 user)) >>= with_result names

      with_names : String × String → Serving (Unit {0})
      with_names names = owner_of c (o.from_hex names.1) >>= with_user names

  response-IsSteady :
      {A : Type 0} (x : Option A) (e : Error) (k : A → Action (Unit {0}))
      → IsSteady (present x e >>= λ r. lift (k r))
  response-IsSteady x e k =
      bind-IsSteady (present x e) (λ r. lift (k r)) (present-IsSteady x e)
        (λ r. lift-IsSteady (k r))

  decoded-IsSteady :
      {A : Type 0} (x : Option A) (e : Error) → IsSteady (present x e >>= λ r. pure (tt {0}))
  decoded-IsSteady x e =
      bind-IsSteady (present x e) (λ r. pure tt) (present-IsSteady x e) (λ r s h. (tt, h))

  stream_answered-IsSteady : (e : Error) (r : Result (Unit {0})) → IsSteady (stream_answered e r)
  stream_answered-IsSteady e (ok x) s h = (tt, h)
  stream_answered-IsSteady e (err d) s h = (tt, h)
  stream_answered-IsSteady e panic s h = (tt, h)

  write-IsSteady :
      (conn : ℕ) (msg : Outgoing F)
      → IsSteady (attempt (on_conn conn (λ s. record s { written = (conn, msg) ∷ s.written })))
  write-IsSteady conn msg s h = elim (Bool-cases (fails s.world.calls || holds conn s.closed)) [
    | inl e ↦ rw e (tt, h)
    | inr e ↦ rw e (tt, h)
  ]

  after_stream-IsSteady : (c : Client) (r : Result (Unit {0})) → IsSteady (after_stream c r)
  after_stream-IsSteady c (ok x) = λ s h. (tt, h)
  after_stream-IsSteady c (err e) =
      let reply : Outgoing F = stream_error (wrap "Failed to process order stream" e) in
      bind-IsSteady
        (attempt (on_conn c.conn (λ s. record s { written = (c.conn, reply) ∷ s.written })))
        (stream_answered e) (write-IsSteady c.conn reply) (stream_answered-IsSteady e)
  after_stream-IsSteady c panic = λ s h. (tt, h)

  handle_order_stream_response-IsSteady :
      (c : Client) (f : Fields F) → IsSteady (handle_order_stream_response c f)
  unfolding handle_order_stream_response
  handle_order_stream_response-IsSteady c f =
      bind-IsSteady (present f.order_stream (new "failed to unmarshal order stream response"))
        (λ x. attempt (lift (service_order_stream_response x)) >>= after_stream c)
        (present-IsSteady f.order_stream (new "failed to unmarshal order stream response"))
        λ x.
          bind-IsSteady (attempt (lift (service_order_stream_response x))) (after_stream c)
            (attempted-IsSteady (lift (service_order_stream_response x))
              (lift-IsSteady (service_order_stream_response x)))
            (after_stream-IsSteady c)

  pub handle-IsSteady :
      (h : Handler) (c : Client) (f : Fields F) → h ≢ on_disconnect → IsSteady (handle h c f)
  unfolding handle handle_trade_response handle_close_trade_response handle_balance_response
      handle_balance_stream_response
  handle-IsSteady on_handshake c f n = handle_handshake-IsSteady c
  handle-IsSteady on_ping c f n = handle_ping-IsSteady c
  handle-IsSteady on_pong c f n = λ s h. (tt, h)
  handle-IsSteady on_balance_request c f n = handle_balance_request-IsSteady c f
  handle-IsSteady on_disconnect c f n = elim (n refl) [ ]
  handle-IsSteady on_close_trade_response c f n =
      response-IsSteady f.trade_response (new "failed to unmarshal close trade response")
        service_close_trade_response
  handle-IsSteady on_order_stream_response c f n = handle_order_stream_response-IsSteady c f
  handle-IsSteady on_trade_response c f n =
      response-IsSteady f.trade_response (new "failed to unmarshal trade response")
        service_trade_response
  handle-IsSteady on_balance_response c f n =
      decoded-IsSteady f.balance_response (new "failed to unmarshal balance response")
  handle-IsSteady on_balance_stream_response c f n =
      decoded-IsSteady f.balance_response (new "failed to unmarshal balance stream response")
