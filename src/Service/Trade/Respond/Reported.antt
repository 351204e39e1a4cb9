-- ===== src/Service/Trade/Respond/Reported.antt =====
-- What a balance that the bridge reports writes.
use fxtrader.Base.{
  ℕ, suc, some, inl, inr, ◌≡◌, refl, ==_iff, =s=_iff, ◌=s=◌, ◌!=s◌, ◌!=◌, ◌==◌, ◌∷◌, Option-cases,
  Bool-cases,
}
use fxtrader.Base.Result.{Result, ok, err, panic, new, wrap, mismatch}
use fxtrader.Outside.{Outside}
use fxtrader.Model.{User, Account}
use fxtrader.Model.Trade.{BalanceResponse}
use fxtrader.World.{
  World, Action, Broadcast, balance_update, called, now, raise_if, on_error, ◌>>=◌, ◌>>◌,
}
use fxtrader.Repo.Users
use fxtrader.Repo.Users.{get_user_by_id}
use fxtrader.Repo.Accounts
use fxtrader.Repo.Accounts.{get_account_by_id, update_account}
use fxtrader.Service.Trade.Respond.{broadcast, handle_balance_response}

module _ ⦃o : Outside⦄ where
  open o use {F, Coll}

  -- The accounts after the balance is stored in `a`.
  abbrev pub reported : F → Account F → Coll (Account F) → Coll (Account F)
  reported x a as' =
      (o.update_one (Account F) (Accounts.has_id a.id)
        (Accounts.replaced_by (record a { balance = x })) as').0

  abbrev pub note : ℕ → BalanceResponse F → Broadcast F
  note time r = balance_update (record {
    user_id = r.user_id;
    account_type = r.account_type;
    balance = r.balance;
    timestamp = time;
  })

  module _ (r : BalanceResponse F) (w : World) where
    -- How the handling of the balance ends.
    abbrev pub Reports : Result (Unit {0}) → World → Type 0
    Reports (ok _) w' =
        (i : ℕ) × (j : ℕ) × (a : Account F) × (time : ℕ) × (o.from_hex r.user_id ≡ some i)
        × (o.from_hex r.account_id ≡ some j)
        × (o.find_one (Account F) (Accounts.has_id j) w.accounts ≡ some a)
        × (a.user_id ≡ i)
        × (a.account_type ≡ r.account_type)
        × (w'.accounts ≡ reported r.balance a w.accounts)
        × (w'.broadcasts ≡ note time r ∷ w.broadcasts)
    Reports (err _) w' = (w'.accounts ≡ w.accounts) × (w'.broadcasts ≡ w.broadcasts)
    Reports panic w' = ⊥

    -- The rest of the handler once the account is read.
    store : ℕ → Account F → Action (Unit {0})
    store i a = do
      raise_if (a.user_id != i) (new "account not found or does not belong to user")
      raise_if (a.account_type !=s r.account_type)
          (mismatch "account type mismatch" a.account_type r.account_type)
      on_error (update_account (record a { balance = r.balance }))
          (wrap "failed to update account balance")
      time ← now
      broadcast (note time r)

    store-Reports :
        (i j : ℕ) (a : Account F)
        → o.from_hex r.user_id ≡ some i
        → o.from_hex r.account_id ≡ some j
        → o.find_one (Account F) (Accounts.has_id j) w.accounts ≡ some a
        → let (x, w') = store i a (called (called w)) in Reports x w'
    unfolding store update_account
    store-Reports i j a ei ej ea = elim (Bool-cases (a.user_id == i)) [
      | inr other ↦ rw other (refl, refl)
      | inl own ↦ elim (Bool-cases (a.account_type =s= r.account_type)) [
        | inr other ↦ rw (own, other) (refl, refl)
        | inl typed ↦ elim (Bool-cases (o.fails (suc (suc w.calls)))) [
          | inl lost ↦ rw (own, typed, lost) (refl, refl)
          | inr stored ↦
              rw (own, typed, stored)
                (
                  i,
                  j,
                  a,
                  o.clock (suc (suc (suc w.calls))),
                  ei,
                  ej,
                  ea,
                  (==_iff _ _).0 own,
                  (=s=_iff _ _).0 typed,
                  refl,
                  refl,
                )
        ]
      ]
    ]

    -- A reported balance that is handled without an error is of a user's own account, of the type
    -- that it names: the balance of the account is set to it and broadcast once. If there is an
    -- error, neither accounts nor broadcasts have changed. The handler never panics.
    pub handle_balance_response-Reports : let (x, w') = handle_balance_response r w in Reports x w'
    unfolding handle_balance_response get_user_by_id get_account_by_id store
    handle_balance_response-Reports = elim (Option-cases (o.from_hex r.user_id)) [
      | inl e ↦ rw e (refl, refl)
      | inr (i, ei) ↦ elim (Option-cases (o.from_hex r.account_id)) [
        | inl e ↦ rw (ei, e) (refl, refl)
        | inr (j, ej) ↦ elim (Bool-cases (o.fails w.calls)) [
          | inl lost ↦ rw (ei, ej, lost) (refl, refl)
          | inr f0 ↦ elim (Option-cases (o.find_one (User F) (Users.has_id i) w.users)) [
            | inl e ↦ rw (ei, ej, f0, e) (refl, refl)
            | inr (u, eu) ↦ elim (Bool-cases (o.fails (suc w.calls))) [
              | inl lost ↦ rw (ei, ej, f0, eu, lost) (refl, refl)
              | inr f1 ↦
                  elim (Option-cases (o.find_one (Account F) (Accounts.has_id j) w.accounts)) [
                    | inl e ↦ rw (ei, ej, f0, eu, f1, e) (refl, refl)
                    | inr (a, ea) ↦ rw (ei, ej, f0, eu, f1, ea) (store-Reports i j a ei ej ea)
                  ]
            ]
          ]
        ]
      ]
    ]
