-- ===== src/Api/Access.antt =====
-- Whom the authentication of middleware/user_auth.go lets through, and what waits behind it.
use fxtrader.Base.{
  ℕ, suc, String, Bool, true, false, Option, none, some, ◌≡◌, ◌≢◌, ◌⊎◌, refl, inl, inr, sym, ap,
  ◌∙◌, arith, eq_iff, Bool-cases, Option-cases, ◌=s=◌,
}
use mathlib.Core.Option.{some-injective}
use fxtrader.Outside.{Outside}
use fxtrader.Model.{User}
use fxtrader.World.{World, called}
use fxtrader.Repo.Users.{has_telegram_id, get_user_by_telegram_id}
use fxtrader.Api.{Context, Reply, Answer, go, reply, crashed, follow, say, text_of}
use fxtrader.Api.Auth.{user_auth, as_user}
use fxtrader.Base.Result.{ok}
use fxtrader.Model.Trade.{TradeHistory}
use fxtrader.Repo.Others.{log_action}
use fxtrader.Api.{Body, show, logging, hex_or_zero}
use fxtrader.Api.Trades.{stream, close, show_trade, get_trade}

module _ ⦃o : Outside⦄ where
  open o use {F, fails}

  -- The user whom a header names, as the users are at the call.
  abbrev pub names : String → World → Option (User F)
  names header w = o.find_one (User F) (has_telegram_id header) w.users

  abbrev pub context_of : User F → String → Context
  context_of u ip = record {
    user_id = some (o.to_hex u.id);
    is_admin = none;
    account_type = none;
    ip = ip;
  }

  -- The request passes, with its user and its context.
  abbrev pub Passes : String → String → World → Context → Type 0
  Passes header ip w c =
      (u : User F) × (header ≢ "")
      × (fails w.calls ≡ false)
      × (names header w ≡ some u)
      × (u.account_type ≢ "admin")
      × (u.is_active ≡ true)
      × (c ≡ context_of u ip)

  abbrev pub AuthEnds : String → String → World → Answer F Context → Type 0
  AuthEnds header ip w (go c) = Passes header ip w c
  AuthEnds header ip w (reply r) =
      ((r.code ≡ 401) ⊎ (r.code ≡ 403)) × ((c : Context) → ¬ Passes header ip w c)
  AuthEnds header ip w crashed = ⊥

  same : {x : Option (User F)} {u v : User F} → x ≡ some u → x ≡ some v → v ≡ u
  same e f = some-injective _ _ (sym f ∙ e)

  -- The authentication lets a request through exactly if its header names an active user who is no
  -- admin and the lookup does not fail; the context then names that user, is of no admin and has
  -- no account type. Every other request is answered with 401 or 403, and
  -- nothing changes but the count of calls.
  pub user_auth-AuthEnds :
      (header ip : String) (w : World)
      → let (r, w') = user_auth header ip w in AuthEnds header ip w r × ((w' ≡ w) ⊎ (w' ≡ called w))
  unfolding user_auth get_user_by_telegram_id
  user_auth-AuthEnds header ip w = elim (Bool-cases (header =s= "")) [
    | inl e ↦ rw e ((inl refl, λ c p. p.1 ((eq_iff header "").0 e)), inl refl)
    | inr e ↦ elim (Bool-cases (fails w.calls)) [
      | inl f ↦ rw (e, f) ((inl refl, λ c p. ground (arith, f, p.2)), inr refl)
      | inr f ↦ elim (Option-cases (names header w)) [
        | inl n ↦ rw (e, f, n) ((inl refl, λ c p. ground (arith, n, p.3)), inr refl)
        | inr (u, n) ↦ elim (Bool-cases (u.account_type =s= "admin")) [
          | inl a ↦
              rw (e, f, n, a)
                (
                  (
                    inl refl,
                    λ c p. p.4 (
                        ap (λ v. v.account_type) (same n p.3)
                        ∙ (eq_iff u.account_type "admin").0 a),
                  ),
                  inr refl,
                )
          | inr a ↦ elim (Bool-cases u.is_active) [
            | inl y ↦
                rw (e, f, n, a, y)
                  (
                    (
                      u,
                      (λ q. ground (arith, e, (eq_iff header "").1 q)),
                      f,
                      n,
                      (λ q. ground (arith, a, (eq_iff u.account_type "admin").1 q)),
                      y,
                      refl,
                    ),
                    inr refl,
                  )
            | inr y ↦
                rw (e, f, n, a, y)
                  (
                    (inr refl, λ c p. ground (arith, y, ap (λ v. v.is_active) (same n p.3), p.5)),
                    inr refl,
                  )
          ]
        ]
      ]
    ]
  ]

  pub auth_passes :
      (header ip : String) (u : User F) (w : World)
      → fails w.calls ≡ false
      → header ≢ ""
      → names header w ≡ some u
      → u.account_type ≢ "admin"
      → u.is_active ≡ true
      → user_auth header ip w ≡ (go (context_of u ip), called w)
  unfolding user_auth get_user_by_telegram_id
  auth_passes header ip u w up ne n plain active =
      let e : (header =s= "") ≡ false = ground (arith, ne, eq_iff header "") in
      let a : (u.account_type =s= "admin") ≡ false =
        ground (arith, plain, eq_iff u.account_type "admin") in
      rw (e, up, n, a, active) refl

  stream-untyped :
      (upgrades : Bool) (c : Context) (w : World)
      → c.account_type ≡ none
      → (x : Reply F) × (stream upgrades c w ≡ (reply x, w)) × (x.code ≡ 400)
  unfolding stream
  stream-untyped upgrades c w h = elim (Option-cases (o.from_hex (text_of c.user_id))) [
    | inl e ↦ (say 400 "invalid user ID", rw e refl, refl)
    | inr (i, e) ↦ (say 400 "invalid account type", rw (h, e) refl, refl)
  ]

  untouched :
      {w w' : World}
      → (w' ≡ w) ⊎ (w' ≡ called w)
      → (w'.order_chans ≡ w.order_chans) × (w'.sent ≡ w.sent)
  untouched (inl e) = (ap (λ v. v.order_chans) e, ap (λ v. v.sent) e)
  untouched (inr e) = (ap (λ v. v.order_chans) e, ap (λ v. v.sent) e)

  -- The stream of trades over HTTP is behind the authentication, which sets no account type, so
  -- every request for it is answered with 400, 401 or 403 and neither starts a stream nor sends
  -- anything, whatever the header and the state.
  pub stream-refused :
      (header ip : String) (upgrades : Bool) (w : World)
      → let (r, w') = as_user header ip (stream upgrades) w in
        (x : Reply F) × (r ≡ reply x)
        × ((x.code ≡ 400) ⊎ (x.code ≡ 401) ⊎ (x.code ≡ 403))
        × (w'.order_chans ≡ w.order_chans)
        × (w'.sent ≡ w.sent)
  stream-refused header ip upgrades w =
      let (r, w') = user_auth header ip w in
      let (ends, same) = user_auth-AuthEnds header ip w in after r w' ends same
    where
      after :
          (r : Answer F Context) (w' : World)
          → AuthEnds header ip w r
          → (w' ≡ w) ⊎ (w' ≡ called w)
          → let (s, w2) = follow r (stream upgrades) w' in
            (x : Reply F) × (s ≡ reply x)
            × ((x.code ≡ 400) ⊎ (x.code ≡ 401) ⊎ (x.code ≡ 403))
            × (w2.order_chans ≡ w.order_chans)
            × (w2.sent ≡ w.sent)
      after (go c) w' (u, ne, f, n, na, y, e) q =
          let (x, runs, code) = stream-untyped upgrades c w' (ap (λ v. v.account_type) e) in
          let (orders, sent) = untouched q in
          (
            x,
            ap (λ v. v.0) runs,
            inl code,
            ap (λ v. v.1.order_chans) runs ∙ orders,
            ap (λ v. v.1.sent) runs ∙ sent,
          )
      after (reply x) w' (code, p) q =
          let (orders, sent) = untouched q in (x, refl, inr code, orders, sent)
      after crashed w' p q = absurd p

  pub logging-goes :
      (user : ℕ) (action description ip : String) (w : World)
      → (logging user action description ip w).0 ≡ go tt
  unfolding logging log_action
  logging-goes user action description ip w = elim (Bool-cases (fails (suc (suc w.calls)))) [
    | inl e ↦ rw e refl
    | inr e ↦ rw e refl
  ]

  -- A trade that the lookup finds and that is not the caller's: the request to close it is answered
  -- with 403 before anything is sent or the other goroutines run, and the request to see it is
  -- answered with the trade, whatever becomes of the log entry.
  pub strangers_trade :
      (others : World → World) (c : Context) (id : String) (t : TradeHistory F) (w : World)
      → (get_trade id w).0 ≡ ok (some t)
      → o.to_hex t.user_id ≢ text_of c.user_id
      → (close others c id w
          ≡ (reply (say 403 "Forbidden (trade belongs to another user)"), (get_trade id w).1))
        × ((show_trade c id w).0 ≡ go (show 200 (Body.one_trade t)))
  unfolding close show_trade
  strangers_trade others c id t w e n =
      let differs : (o.to_hex t.user_id =s= text_of c.user_id) ≡ false =
        ground (arith, n, eq_iff (o.to_hex t.user_id) (text_of c.user_id)) in
      (
        rw (e, differs) refl,
        rw
            (
              e,
              logging-goes (hex_or_zero (text_of c.user_id)) "GetTrade" "Trade data retrieved" c.ip
                  (get_trade id w).1,
            )
            refl,
      )
