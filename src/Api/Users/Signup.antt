-- ===== src/Api/Users/Signup.antt =====
-- What `SignupUser` of api/user_handlers.go stores.
use fxtrader.Base.{
  ℕ, suc, String, false, none, some, ◌≡◌, refl, inl, inr, ap, Bool-cases, Option-cases, ◌=s=◌,
}
use fxtrader.Base.Int.{pos}
use fxtrader.Outside.{Outside}
use fxtrader.Model.{User}
use fxtrader.World.{World, called, now}
use fxtrader.Repo.Others.{log_action}
use fxtrader.Repo.Users.{has_telegram_id, get_user_by_telegram_id, save_user}
use fxtrader.Repo.Pages.{has_referral_code, get_user_by_referral_code}
use fxtrader.Service.Users.{signup_user}
use fxtrader.Api.{
  Body, Reply, Answer, Handler, go, reply, crashed, say, show, call, logging, ◌>>=◌, ◌>>◌, pure,
}
use fxtrader.Api.Users.{signup, requested, username_of, referrer_of}

module _ ⦃o : Outside⦄ where
  open o use {F, fails, float}

  -- How a sign-up ends: a user is stored only where none had the Telegram id.
  abbrev pub SignsUp : User F → World → Answer F (Reply F) → World → Type 0
  SignsUp r w (go x) w' =
      (o.find_one (User F) (has_telegram_id r.telegram_id) w.users ≡ none)
      × (u : User F) × (w'.users ≡ o.insert_one (User F) u w.users)
      × (u.telegram_id ≡ r.telegram_id)
      × (u.is_active ≡ false)
      × (u.balance ≡ float (pos 0))
      × (u.account_type ≡ "")
      × (x.code ≡ 201)
  SignsUp r w (reply x) w' = w'.users ≡ w.users
  SignsUp r w crashed w' = ⊥

  module _ (code_of : String → ℕ → String) (uuid ip : String) where
    -- The part of the handler after the referrer is known.
    enter : User F → ℕ → ℕ → Handler (Reply F)
    enter r time referrer = do
      stamp ← call now (λ _. say 500 "")
      u ←
          call (signup_user uuid (requested r time (code_of (username_of r) stamp) referrer))
            (λ _. say 500 "Failed to create user")
      logging u.id "UserSignup" "User signed up via Telegram" ip
      pure (show 201 (Body.one_user u))

    abbrev stored : User F → ℕ → ℕ → World → User F
    stored r time referrer w =
        record (requested r time (code_of (username_of r) (o.clock w.calls)) referrer) {
          id = o.new_id (suc w.calls);
          registration_date = o.clock (suc (suc w.calls));
          is_active = false;
          balance = float (pos 0);
          bonus = float (pos 0);
          referral_code = uuid;
        }

    enter-SignsUp :
        (r : User F) (time referrer : ℕ) (w w1 : World)
        → w1.users ≡ w.users
        → o.find_one (User F) (has_telegram_id r.telegram_id) w.users ≡ none
        → let (x, w') = enter r time referrer w1 in SignsUp r w x w'
    unfolding enter signup_user save_user requested logging log_action
    enter-SignsUp r time referrer w w1 same free =
        let u : User F = stored r time referrer w1 in
        elim (Bool-cases (fails (suc (suc (suc w1.calls))))) [
          | inl e ↦ rw e same
          | inr e ↦ elim (Bool-cases (fails (suc (suc (suc (suc (suc (suc w1.calls)))))))) [
            | inl f ↦
                rw (e, f) (free, u, ap (o.insert_one (User F) u) same, refl, refl, refl, refl, refl)
            | inr f ↦
                rw (e, f) (free, u, ap (o.insert_one (User F) u) same, refl, refl, refl, refl, refl)
          ]
        ]

    -- A sign-up that is answered with 201 has stored one user, with the Telegram id of the request,
    -- not active, of no account type and with no balance, where no user had that id; every other
    -- one, of a request that binds, is answered and has stored no user. It never panics.
    pub signup-SignsUp :
        (r : User F) (w : World)
        → let (x, w') = signup code_of uuid ip (some r) w in SignsUp r w x w'
    unfolding signup get_user_by_telegram_id referrer_of get_user_by_referral_code enter
    signup-SignsUp r w = elim (Bool-cases (fails w.calls)) [
      | inl e ↦ rw e refl
      | inr e ↦ elim (Option-cases (o.find_one (User F) (has_telegram_id r.telegram_id) w.users)) [
        | inr (u, f) ↦ rw (e, f) refl
        | inl f ↦ elim (Bool-cases (r.referral_code =s= "")) [
          | inl g ↦
              rw (e, f, g) (enter-SignsUp r (o.clock (suc w.calls)) 0 w (called (called w)) refl f)
          | inr g ↦ elim (Bool-cases (fails (suc (suc w.calls)))) [
            | inl h ↦ rw (e, f, g, h) refl
            | inr h ↦
                elim (Option-cases
                  (o.find_one (User F) (has_referral_code r.referral_code) w.users)) [
                    | inl k ↦ rw (e, f, g, h, k) refl
                    | inr (v, k) ↦
                        rw (e, f, g, h, k)
                          (enter-SignsUp r (o.clock (suc w.calls)) v.id w
                            (called (called (called w))) refl f)
                  ]
          ]
        ]
      ]
    ]
