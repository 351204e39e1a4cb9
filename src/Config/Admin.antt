-- ===== src/Config/Admin.antt =====
-- The first admin: what `EnsureAdminUser` leaves in the collection, and that the account which it
-- makes can log in and pass the authentication of an admin.
use fxtrader.Base.{
  ℕ, suc, String, true, false, Option, none, some, ◌≡◌, ◌⊎◌, refl, inl, inr, arith, eq_iff, ltb,
  ◌<>◌, ◌=s=◌, Bool-cases, Option-cases, ◌∙◌, ap,
}
use fxtrader.Base.Result.{Result, ok, err, panic}
use fxtrader.Outside.{Outside}
use fxtrader.Outside.Laws.{NeverFails, InsertsFound}
use fxtrader.Model.{AdminAccount}
use fxtrader.World.{World, called}
use fxtrader.Repo.Pages.{has_admin_name, get_admin_by_username, save_admin}
use fxtrader.Config.{ensure_admin_user, add_admin, admin_account, is_there}
use fxtrader.Api.Routes.{Route, for_all, for_admins, handle, recovered, serve}
use fxtrader.Api.Routes.Requests.{Libraries, Request}
use fxtrader.Api.Routes.Open.{post_admin_login, handle_open}
use fxtrader.Api.Routes.OfAdmins.{AdminRoute, handle_admin}
use fxtrader.Api.Routes.Guards.{admin_context, ran}
use fxtrader.Api.{Body, go, say, show}
use fxtrader.Api.Auth.{Claims, admin_auth, admin_login}

module _ ⦃o : Outside⦄ (hash : String → Option String) (format : ℕ → String) where
  open o use {F, fails, Coll, new_id, clock}

  abbrev pub admin_named : String → World → Option AdminAccount
  admin_named name w = o.find_one AdminAccount (has_admin_name name) w.admins

  -- The account that is made, with its hash, where a lookup was the first call.
  abbrev pub made : String → String → World → AdminAccount
  made name h w = admin_account name h (new_id (suc w.calls)) (format (clock (suc (suc w.calls))))

  abbrev pub added : String → String → World → Coll AdminAccount
  added name h w = o.insert_one AdminAccount (made name h w) w.admins

  abbrev pub Ensures : String → String → World → Result (Unit {0}) → World → Type 0
  Ensures name pass w (ok x) w' =
      ((a : AdminAccount) × (admin_named name w ≡ some a) × (w'.admins ≡ w.admins))
      ⊎ ((h : String) × (hash pass ≡ some h)
          × ((admin_named name w ≡ none) ⊎ (fails w.calls ≡ true))
          × (w'.admins ≡ added name h w))
  Ensures name pass w (err e) w' =
      ((hash pass ≡ none) ⊎ (fails (suc (suc (suc w.calls))) ≡ true)) × (w'.admins ≡ w.admins)
  Ensures name pass w panic w' = ⊥

  added_lem :
      (name pass : String) (w : World)
      → ((h : String) × (hash pass ≡ some h)
          × (fails (suc (suc (suc w.calls))) ≡ false)
          × ((add_admin hash format name pass (called w)).0 ≡ ok tt)
          × ((add_admin hash format name pass (called w)).1.admins ≡ added name h w))
        ⊎ (((hash pass ≡ none) ⊎ (fails (suc (suc (suc w.calls))) ≡ true))
            × ((e : _) × ((add_admin hash format name pass (called w)).0 ≡ err e))
            × ((add_admin hash format name pass (called w)).1.admins ≡ w.admins))
  unfolding add_admin save_admin
  added_lem name pass w = elim (Option-cases (hash pass)) [
    | inl e ↦ inr (inl e, rw e (_, refl), rw e refl)
    | inr (h, e) ↦ elim (Bool-cases (fails (suc (suc (suc w.calls))))) [
      | inl f ↦ inr (inr f, rw (e, f) (_, refl), rw (e, f) refl)
      | inr f ↦ inl (h, e, f, rw (e, f) refl, rw (e, f) refl)
    ]
  ]

  -- An admin that a lookup of the name finds is left alone. Else, also where the lookup fails, one
  -- account of that name is inserted, of the type admin, with the hash of the password, a new id
  -- and the time; an error is that of the hash or of the insertion, and leaves the admins as they
  -- are. The method never panics.
  pub ensure_admin_user-Ensures :
      (name pass : String) (w : World)
      → let (r, w') = ensure_admin_user hash format name pass w in Ensures name pass w r w'
  unfolding ensure_admin_user get_admin_by_username is_there
  ensure_admin_user-Ensures name pass w = elim (Bool-cases (fails w.calls)) [
    | inl f ↦ rw f (after (inr f))
    | inr f ↦ elim (Option-cases (admin_named name w)) [
      | inl n ↦ rw (f, n) (after (inl n))
      | inr (a, n) ↦ rw (f, n) (inl (a, n, refl))
    ]
  ]
    where
      after :
          (admin_named name w ≡ none) ⊎ (fails w.calls ≡ true)
          → let (r, w') = add_admin hash format name pass (called w) in Ensures name pass w r w'
      after why = elim (added_lem name pass w) [
        | inl (h, e, f, r, s) ↦ rw r (inr (h, e, why, s))
        | inr (why_not, (e, r), s) ↦ rw r (why_not, s)
      ]

  ensured_lem :
      (name pass h : String) (w : World)
      → NeverFails
      → admin_named name w ≡ none
      → hash pass ≡ some h
      → let (r, w') = ensure_admin_user hash format name pass w in
        (r ≡ ok tt) × (w'.admins ≡ added name h w)
  unfolding ensure_admin_user get_admin_by_username is_there add_admin save_admin
  ensured_lem name pass h w never absent e =
      rw (never w.calls, absent, e, never (suc (suc (suc w.calls)))) (refl, refl)

  made_named : (name h : String) (w : World) → has_admin_name name (made name h w) ≡ true
  unfolding has_admin_name admin_account
  made_named name h w = (eq_iff name name).1 refl

  -- What is documented of bcrypt, of the tokens and of `strings.SplitN`.
  module _ (l : Libraries) where
    abbrev pub MatchesHashes : Type 0
    MatchesHashes = (p h : String) → hash p ≡ some h → l.matches h p ≡ true

    abbrev claims_of : String → Claims
    claims_of id = record { is_admin = some true; user_id = some id }

    abbrev pub ParsesSigned : Type 0
    ParsesSigned = (id t : String) → l.sign id ≡ some t → l.parse t ≡ some (claims_of id)

    abbrev pub SplitsBearer : String → Type 0
    SplitsBearer t = (l.split "" ≡ none) × (l.split ("Bearer " <> t) ≡ some ("Bearer", t))

    -- The authentication of an admin lets a token through that was signed for an id.
    signed_enters :
        (id t ip : String) (w : World)
        → ParsesSigned
        → SplitsBearer t
        → l.sign id ≡ some t
        → ltb 4096 (l.byte_length ("Bearer " <> t)) ≡ false
        → admin_auth l.split l.parse l.byte_length ("Bearer " <> t) ip w
          ≡ (go (admin_context id ip), w)
    unfolding admin_auth
    signed_enters id t ip w ps (nothing, sb) e short =
        let named : (("Bearer " <> t) =s= "") ≡ false =
          elim (Bool-cases (("Bearer " <> t) =s= "")) [
            | inl y ↦
                absurd (ground (arith, nothing, sb, ap l.split ((eq_iff ("Bearer " <> t) "").0 y)))
            | inr n ↦ n
          ] in
        rw (short, named, sb, ps id t e) refl

    abbrev pub login_of : String → String → Route F
    login_of name pass =
        for_all (post_admin_login (some (record { username = name; password = pass })))

    -- The login of an account that the lookup finds, with the password of its hash.
    login_enters :
        (q : Request) (name pass : String) (a : AdminAccount) (w : World)
        → fails w.calls ≡ false
        → admin_named name w ≡ some a
        → a.account_type ≡ "admin"
        → l.matches a.password pass ≡ true
        → (t : String) → l.sign (o.to_hex a.id) ≡ some t
        → (serve l q (login_of name pass) w).0 ≡ show 200 (Body.token_of t)
    unfolding serve handle handle_open recovered admin_login get_admin_by_username
    login_enters q name pass a w f n k m t s = rw (f, n, k, m, s) refl

    login_refuses :
        (q : Request) (name pass : String) (a : AdminAccount) (w : World)
        → fails w.calls ≡ false
        → admin_named name w ≡ some a
        → l.matches a.password pass ≡ false
        → (serve l q (login_of name pass) w).0 ≡ say 401 "Invalid credentials"
    unfolding serve handle handle_open recovered admin_login get_admin_by_username
    login_refuses q name pass a w f n m = elim (Bool-cases (a.account_type =s= "admin")) [
      | inl y ↦ rw (f, n, y, m) refl
      | inr y ↦ rw (f, n, y) refl
    ]

    -- Where no call fails and no admin has the name, the start of the server makes an account with
    -- which a request logs in by the configured password, and by no password that bcrypt does not
    -- match with the hash; and the token that the login answers opens every route for admins, in
    -- any state, as long as it is valid: the route's handler runs in the context of that admin.
    -- The lookups find what was inserted, and the hashes, the tokens and the splitting of the
    -- header behave as documented.
    pub first_admin_enters :
        (name pass h t : String) (w : World)
        → InsertsFound
        → NeverFails
        → MatchesHashes
        → ParsesSigned
        → SplitsBearer t
        → admin_named name w ≡ none
        → hash pass ≡ some h
        → let id = o.to_hex (new_id (suc w.calls)) in
          l.sign id ≡ some t
          → ltb 4096 (l.byte_length ("Bearer " <> t)) ≡ false
          → let (r, w') = ensure_admin_user hash format name pass w in
            (r ≡ ok tt)
            × ((q : Request) → (serve l q (login_of name pass) w').0 ≡ show 200 (Body.token_of t))
            × ((q : Request) (p : String)
                → l.matches h p ≡ false
                → (serve l q (login_of name p) w').0 ≡ say 401 "Invalid credentials")
            × ((q : Request) (a : AdminRoute F) (v : World)
                → q.authorization ≡ "Bearer " <> t
                → serve l q (for_admins a) v ≡ ran (handle_admin l q a (admin_context id q.ip)) v)
    unfolding admin_account serve handle recovered
    first_admin_enters name pass h t w found never mh ps sb absent e signed short =
        let id = o.to_hex (new_id (suc w.calls)) in
        let w' = (ensure_admin_user hash format name pass w).1 in
        let (done, kept) = ensured_lem name pass h w never absent e in
        let there : admin_named name w' ≡ some (made name h w) =
          ap (o.find_one AdminAccount (has_admin_name name)) kept
          ∙ found AdminAccount (has_admin_name name) w.admins (made name h w) absent
              (made_named name h w) in
        (
          done,
          (λ q.
              login_enters q name pass (made name h w) w' (never w'.calls) there refl (mh pass h e)
                t signed),
          (λ q p m. login_refuses q name p (made name h w) w' (never w'.calls) there m),
          (λ q a v same. rw (same, signed_enters id t q.ip v ps sb signed short) refl),
        )
