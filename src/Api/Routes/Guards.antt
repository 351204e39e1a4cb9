-- ===== src/Api/Routes/Guards.antt =====
-- What stands before the handlers: a request to a guarded route is answered by the handler exactly
-- if the authentication of its group lets it through.
use fxtrader.Base.{
  String, Bool, true, false, Option, none, some, ◌≡◌, ◌≢◌, ◌⊎◌, refl, inl, inr, sym, ap, ◌∙◌, arith,
  eq_iff, ltb, ◌=s=◌, Bool-cases, Option-cases,
}
use mathlib.Core.Option.{some-injective}
use fxtrader.Outside.{Outside}
use fxtrader.World.{World, called}
use fxtrader.Api.{Reply, Context, Answer, go, reply, crashed, Handler, follow, say}
use fxtrader.Api.Auth.{Claims, user_auth, admin_auth}
use fxtrader.Api.Access.{Passes, AuthEnds, user_auth-AuthEnds}
use fxtrader.Api.Routes.{Route, for_all, for_users, for_admins, handle, recovered, serve}
use fxtrader.Api.Routes.Requests.{Libraries, Request}
use fxtrader.Api.Routes.Open.{handle_open}
use fxtrader.Api.Routes.OfUsers.{handle_user}
use fxtrader.Api.Routes.OfAdmins.{handle_admin}

module _ ⦃o : Outside⦄ where
  open o use {F}

  -- The header is short, of the form "Bearer …", and its token is valid, of an admin and of a user.
  abbrev pub Enters : Libraries → String → String → Type 0
  Enters l header user =
      (ltb 4096 (l.byte_length header) ≡ false)
      × (header ≢ "")
      × (t : String) × (l.split header ≡ some ("Bearer", t))
      × (l.parse t ≡ some (record { is_admin = some true; user_id = some user }))

  abbrev pub admin_context : String → String → Context
  admin_context user ip = record {
    user_id = some user;
    is_admin = some true;
    account_type = none;
    ip = ip;
  }

  abbrev pub ran : Handler (Reply F) → World → Reply F × World
  ran m w = let (a, w') = m w in (recovered a, w')

  abbrev pub Refused : Reply F → Type 0
  Refused r = (r.code ≡ 401) ⊎ (r.code ≡ 403)

  same : {A : Type 0} {x : Option A} {u v : A} → x ≡ some u → x ≡ some v → u ≡ v
  same e f = some-injective _ _ (sym e ∙ f)

  token :
      (l : Libraries) (header t : String) (x : String × String) (c : Option Claims)
      → l.split header ≡ some x
      → l.split header ≡ some ("Bearer", t)
      → l.parse t ≡ c
      → l.parse x.1 ≡ c
  token l header t x c g h k = ap (λ y. l.parse y.1) (same g h) ∙ k

  claimed :
      (c : Claims) (y : Bool) (user : String)
      → c.is_admin ≡ some y
      → y ≡ true
      → c.user_id ≡ some user
      → some c ≡ some (record { is_admin = some true; user_id = some user })
  claimed c y user a z v =
      ap (λ k. some (record { is_admin = k; user_id = c.user_id })) (a ∙ ap some z)
      ∙ ap (λ k. some (record { is_admin = some true; user_id = k })) v

  admin_auth_lem :
      (l : Libraries) (header ip : String) (w : World)
      → ((user : String) × Enters l header user
          × (admin_auth l.split l.parse l.byte_length header ip w
              ≡ (go (admin_context user ip), w)))
        ⊎ (((user : String) → ¬ Enters l header user)
            × ((r : Reply F) × (admin_auth l.split l.parse l.byte_length header ip w ≡ (reply r, w))
                × (r.code ≡ 401)))
  unfolding admin_auth
  admin_auth_lem l header ip w = elim (Bool-cases (ltb 4096 (l.byte_length header))) [
    | inl e ↦ inr (
      (λ u p. ground (arith, e, p.0)),
      (say 401 "Authorization header too long", rw e refl, refl),
    )
    | inr e ↦ elim (Bool-cases (header =s= "")) [
      | inl f ↦ inr (
        (λ u p. p.1 ((eq_iff header "").0 f)),
        (say 401 "Authorization header required", rw (e, f) refl, refl),
      )
      | inr f ↦ elim (Option-cases (l.split header)) [
        | inl g ↦ inr (
          (λ u p. ground (arith, g, p.3)),
          (say 401 "Invalid authorization header; expected Bearer token", rw (e, f, g) refl, refl),
        )
        | inr (x, g) ↦ elim (Bool-cases (x.0 =s= "Bearer")) [
          | inr b ↦ inr (
            (λ u p. ground (arith, b, (eq_iff x.0 "Bearer").1 (ap (λ y. y.0) (same g p.3)))),
            (
              say 401 "Invalid authorization header; expected Bearer token",
              rw (e, f, g, b) refl,
              refl,
            ),
          )
          | inl b ↦ elim (Option-cases (l.parse x.1)) [
            | inl n ↦ inr (
              (λ u p. ground (arith, n, token l header p.2 x _ g p.3 p.4)),
              (say 401 "Invalid or expired token", rw (e, f, g, b, n) refl, refl),
            )
            | inr (c, n) ↦ elim (Option-cases c.is_admin) [
              | inl a ↦ inr (
                (λ u p.
                    ground
                      (arith, a, ap (λ y. y.is_admin) (same n (token l header p.2 x _ g p.3 p.4)))),
                (say 401 "Admin access required", rw (e, f, g, b, n, a) refl, refl),
              )
              | inr (y, a) ↦ elim (Bool-cases y) [
                | inr z ↦ inr (
                  (λ u p. ground (
                    arith,
                    z,
                    same a (ap (λ y. y.is_admin) (same n (token l header p.2 x _ g p.3 p.4))),
                  )),
                  (say 401 "Admin access required", rw (e, f, g, b, n, a, z) refl, refl),
                )
                | inl z ↦ elim (Option-cases c.user_id) [
                  | inl v ↦ inr (
                    (λ u p. ground (
                      arith,
                      v,
                      ap (λ y. y.user_id) (same n (token l header p.2 x _ g p.3 p.4)),
                    )),
                    (say 401 "Invalid user ID in token", rw (e, f, g, b, n, a, z, v) refl, refl),
                  )
                  | inr (user, v) ↦ inl (
                    user,
                    (
                      e,
                      (λ q. ground (arith, f, (eq_iff header "").1 q)),
                      x.1,
                      g ∙ ap (λ k. some (k, x.1)) ((eq_iff x.0 "Bearer").0 b),
                      n ∙ claimed c y user a z v,
                    ),
                    rw (e, f, g, b, n, a, z, v) refl,
                  )
                ]
              ]
            ]
          ]
        ]
      ]
    ]
  ]

  -- What becomes of a request, in the state that it finds.
  abbrev pub Guarded : Libraries → Request → Route F → World → Reply F → World → Type 0
  Guarded l q (for_all r) w x w' = (x, w') ≡ ran (handle_open l q r) w
  Guarded l q (for_users r) w x w' =
      ((c : Context) × Passes q.telegram_id q.ip w c
        × (v : World) × ((v ≡ w) ⊎ (v ≡ called w))
        × ((x, w') ≡ ran (handle_user l q r c) v))
      ⊎ (((c : Context) → ¬ Passes q.telegram_id q.ip w c)
          × Refused x
          × ((w' ≡ w) ⊎ (w' ≡ called w)))
  Guarded l q (for_admins r) w x w' =
      ((user : String) × Enters l q.authorization user
        × ((x, w') ≡ ran (handle_admin l q r (admin_context user q.ip)) w))
      ⊎ (((user : String) → ¬ Enters l q.authorization user) × (x.code ≡ 401) × (w' ≡ w))

  -- A request to a route for users runs the handler exactly if its header names an active user
  -- who is no admin and the lookup does not fail, in the context of that user, and one to a route
  -- for admins exactly if its header carries a valid token of an admin, in the context of the
  -- token; every other request to these routes is answered with 401 or 403 and changes nothing but
  -- the count of calls. The remaining routes run their handlers at once.
  pub serve-Guarded :
      (l : Libraries) (q : Request) (r : Route F) (w : World)
      → let (x, w') = serve l q r w in Guarded l q r w x w'
  unfolding serve handle recovered
  serve-Guarded l q (for_all r) w = refl
  serve-Guarded l q (for_users r) w =
      let (a, v) = user_auth q.telegram_id q.ip w in
      let (ends, calls) = user_auth-AuthEnds q.telegram_id q.ip w in after a v ends calls
    where
      after :
          (a : Answer F Context) (v : World)
          → AuthEnds q.telegram_id q.ip w a
          → (v ≡ w) ⊎ (v ≡ called w)
          → let (x, w') = ran (λ u. follow a (handle_user l q r) u) v in
            Guarded l q (for_users r) w x w'
      after (go c) v ends calls = inl (c, ends, v, calls, refl)
      after (reply x) v (code, never) calls = inr (never, code, calls)
      after crashed v ends calls = absurd ends
  serve-Guarded l q (for_admins r) w = elim (admin_auth_lem l q.authorization q.ip w) [
    | inl (user, enters, e) ↦ inl (user, enters, rw e refl)
    | inr (never, (x, e, code)) ↦ inr (never, rw e code, rw e refl)
  ]
