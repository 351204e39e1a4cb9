-- ===== src/Hub/Strangers.antt =====
-- What a client of the websocket that names no user does to ws/handler.go.
use fxtrader.Base.{
  String, true, false, Option, none, some, ◌∷◌, ◌≡◌, ◌≢◌, ◌⊎◌, refl, inl, inr, ap, sym, subst, ◌∙◌,
  arith, eq_iff, Bool-cases, ◌=s=◌, ◌!=s◌, ◌<>◌, ◌&&◌, Option-cases,
}
use mathlib.Core.Option.{some-injective}
use fxtrader.Outside.{Outside}
use fxtrader.Model.{User}
use fxtrader.World.{World}
use fxtrader.Repo.Users.{has_telegram_id, get_user_by_telegram_id}
use fxtrader.World.{called}
use fxtrader.Hub.{subscribe}
use fxtrader.Base.Result.{Result, ok, err, panic, wrap}
use fxtrader.Model.Trade.{Request, order_stream_request}
use fxtrader.Repo.Users.{get_user_by_id, has_id}
use fxtrader.Service.Trade.Channels.{send_to_mt5}
use fxtrader.Service.Trade.Respond.{stream_key}
use fxtrader.Service.Trade.Stream.{stream_trades, or_drop, register_stream}
use fxtrader.Service.Trade.Close.Asked.{Sends, send_to_mt5-Sends}
use fxtrader.Hub.Handler.{
  Response, stream_failed, streaming, stream_started, problem, confirm_stream, after_stream,
  start_stream, found_user, SocketMessage, Round, goes_on, leaves, crashes, Session, tell,
  on_subscribe, on_subscribe_trades, on_unsubscribe, on_message,
}

no_trades : (s : String) → (s =s= "subscribe") ≡ true → (s =s= "subscribe_trades") ≡ false
no_trades s h = rw ((eq_iff s "subscribe").0 h) refl

module _ ⦃o : Outside⦄ where
  open o use {F, fails}

  abbrev Survives : {A : Type 0} → Result A → Type 0
  Survives r = r ≢ panic

  or_drop-Survives :
      (key : String) (q : Request F) (w : World) → Survives ((or_drop key (send_to_mt5 q) w).0)
  or_drop-Survives key q w = after (send_to_mt5 q w).0 refl (send_to_mt5-Sends q w).0
    where
      after :
          (r : Result (Unit {0}))
          → (send_to_mt5 q w).0 ≡ r
          → Sends q w r (send_to_mt5 q w).1
          → Survives ((or_drop key (send_to_mt5 q) w).0)
      after (ok a) e h = rw (or_drop, e) (ground arith)
      after (err x) e h = rw (or_drop, e) (ground arith)
      after panic e h = absurd h

  stream_trades-Survives :
      (user type : String) (w : World) → Survives ((stream_trades user type w).0)
  unfolding stream_trades get_user_by_id
  stream_trades-Survives user type w = elim (Bool-cases ((type !=s "DEMO") && (type !=s "REAL"))) [
    | inl e ↦ rw e (ground arith)
    | inr e ↦ elim (Option-cases (o.from_hex user)) [
      | inl n ↦ rw (e, n) (ground arith)
      | inr (i, n) ↦ elim (Bool-cases (fails w.calls)) [
        | inl f ↦ rw (e, n, f) (ground arith)
        | inr f ↦ elim (Option-cases (o.find_one (User F) (has_id i) w.users)) [
          | inl z ↦ rw (e, n, f, z) (ground arith)
          | inr (u, z) ↦
              rw (e, n, f, z)
                (or_drop-Survives (stream_key user type) (order_stream_request user type)
                  (register_stream (stream_key user type) (called w)))
        ]
      ]
    ]
  ]

  -- An answer whose error does not end the loop.
  tell-goes_on : (r : Response) (s : Session) → (tell false r s).0 ≡ goes_on
  unfolding tell
  tell-goes_on r s = elim (Bool-cases (fails s.world.calls)) [
    | inl e ↦ rw e refl
    | inr e ↦ rw e refl
  ]

  confirm_stream-goes_on :
      (user type : String) (s : Session) → (confirm_stream user type s).0 ≡ goes_on
  unfolding tell
  confirm_stream-goes_on user type s = elim (Bool-cases (fails s.world.calls)) [
    | inl e ↦ rw (confirm_stream, e) refl
    | inr e ↦
        rw (confirm_stream, e)
          (tell-goes_on (stream_started user type) (tell true (streaming user type) s).1)
  ]

  after_stream-goes_on :
      (user type : String) (r : Result (Unit {0})) (s : Session)
      → Survives r
      → (after_stream user type r s).0 ≡ goes_on
  after_stream-goes_on user type (ok x) s h =
      confirm_stream-goes_on user type
        (record s { forwards = (user <> (":" <> type)) ∷ s.forwards })
  after_stream-goes_on user type (err e) s h =
      tell-goes_on (stream_failed (wrap "Failed to start trade stream" e)) s
  after_stream-goes_on user type panic s h = absurd (h refl)

  -- The message asks for the trades of a user, of one of the two types of accounts, and the lookup
  -- succeeds and finds nobody.
  abbrev AsksForStranger : Option SocketMessage → Session → Type 0
  AsksForStranger m s =
      (x : SocketMessage) × (m ≡ some x)
      × (x.action ≡ "subscribe_trades")
      × ((x.account_type ≡ "DEMO") ⊎ (x.account_type ≡ "REAL"))
      × (fails s.world.calls ≡ false)
      × (o.find_one (User F) (has_telegram_id x.user_id) s.world.users ≡ none)

  -- How a request for a stream ends.
  abbrev StreamEnds : String → String → Session → Round → Type 0
  StreamEnds user type s goes_on =
      (fails s.world.calls ≡ false)
      → (type ≡ "DEMO") ⊎ (type ≡ "REAL")
      → o.find_one (User F) (has_telegram_id user) s.world.users ≢ none
  StreamEnds user type s leaves = ⊥
  StreamEnds user type s crashes =
      ((type ≡ "DEMO") ⊎ (type ≡ "REAL"))
      × (fails s.world.calls ≡ false)
      × (o.find_one (User F) (has_telegram_id user) s.world.users ≡ none)

  on_subscribe_trades-StreamEnds :
      (user type : String) (s : Session)
      → StreamEnds user type s ((on_subscribe_trades user type s).0)
  unfolding on_subscribe_trades get_user_by_telegram_id
  on_subscribe_trades-StreamEnds user type s =
      elim (Bool-cases ((type !=s "DEMO") && (type !=s "REAL"))) [
        | inl e ↦
            rw (e, tell-goes_on (problem "Invalid account type") s)
              (λ f t. ground (arith, e, t, eq_iff type "DEMO", eq_iff type "REAL"))
        | inr e ↦ elim (Bool-cases (fails s.world.calls)) [
          | inl f ↦
              rw
                (
                  e,
                  f,
                  tell-goes_on (problem "Invalid user ID") (record s { world = called s.world }),
                )
                (λ x t. ground (arith, f, x))
          | inr f ↦ elim (Option-cases (o.find_one (User F) (has_telegram_id user) s.world.users)) [
            | inl n ↦ rw (e, f, n) (ground (arith, e, eq_iff type "DEMO", eq_iff type "REAL"), f, n)
            | inr (u, n) ↦
                let s1 : Session = record s {
                  world = called s.world;
                  client = subscribe (user <> (":" <> type)) s.client;
                } in
                let (r, w) = stream_trades (o.to_hex u.id) type s1.world in
                let survives = stream_trades-Survives (o.to_hex u.id) type s1.world in
                rw
                  (
                    e,
                    f,
                    n,
                    found_user,
                    start_stream,
                    after_stream-goes_on user type r (record s1 { world = w }) survives,
                  )
                  (λ x t z. ground (arith, z))
          ]
        ]
      ]

  abbrev pub RoundEnds : Option SocketMessage → Session → Round → Type 0
  RoundEnds m s goes_on = ¬ AsksForStranger m s
  RoundEnds m s leaves = (m ≡ none) × (fails s.world.calls ≡ true)
  RoundEnds m s crashes = AsksForStranger m s

  stream-RoundEnds :
      (m : SocketMessage) (s : Session) (r : Round)
      → m.action ≡ "subscribe_trades"
      → StreamEnds m.user_id m.account_type s r
      → RoundEnds (some m) s r
  stream-RoundEnds m s goes_on a h = λ (x, e, b, t, f, n).
      let same = some-injective _ _ e in
      h f (subst (λ v. (v.account_type ≡ "DEMO") ⊎ (v.account_type ≡ "REAL")) (sym same) t) (
        subst (λ v. o.find_one (User F) (has_telegram_id v.user_id) s.world.users ≡ none) (sym same)
          n)
  stream-RoundEnds m s leaves a h = absurd h
  stream-RoundEnds m s crashes a (t, f, n) = (m, refl, a, t, f, n)

  other-RoundEnds :
      (m : SocketMessage) (s : Session)
      → (m.action =s= "subscribe_trades") ≡ false
      → RoundEnds (some m) s goes_on
  other-RoundEnds m s h (x, e, b, t, f, n) =
      let a = ap (λ v. v.action) (some-injective _ _ e) ∙ b in
      ground (arith, h, (eq_iff m.action "subscribe_trades").1 a)

  -- A round of the loop that reads from a client panics exactly if the message asks for the trades
  -- of a user who is not there; it ends the loop only if the message is not of the format and the
  -- answer to it cannot be written.
  pub on_message-RoundEnds :
      (m : Option SocketMessage) (s : Session) → RoundEnds m s ((on_message m s).0)
  unfolding on_message on_subscribe on_unsubscribe tell
  on_message-RoundEnds none s = elim (Bool-cases (fails s.world.calls)) [
    | inl e ↦ rw e (refl, e)
    | inr e ↦ rw e (λ (x, q, b, t, f, n). ground (arith, q))
  ]
  on_message-RoundEnds (some m) s = elim (Bool-cases (m.action =s= "subscribe")) [
    | inl a ↦ rw (a, tell-goes_on) (other-RoundEnds m s (no_trades m.action a))
    | inr a ↦ elim (Bool-cases (m.action =s= "subscribe_trades")) [
      | inl b ↦
          rw (a, b)
            (stream-RoundEnds m s (on_subscribe_trades m.user_id m.account_type s).0
              ((eq_iff m.action "subscribe_trades").0 b)
              (on_subscribe_trades-StreamEnds m.user_id m.account_type s))
      | inr b ↦ elim (Bool-cases (m.action =s= "unsubscribe")) [
        | inl d ↦ rw (a, b, d, tell-goes_on) (other-RoundEnds m s b)
        | inr d ↦ rw (a, b, d, tell-goes_on) (other-RoundEnds m s b)
      ]
    ]
  ]
