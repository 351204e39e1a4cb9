-- ===== src/Service/Transfer/Effects.antt =====
-- What a transfer writes.
use fxtrader.Base.{
  ℕ, String, false, none, some, ◌≡◌, ◌≢◌, ◌∙◌, subst, Bool-cases, eq_iff, Option-cases, refl, ◌⊎◌,
  inl, inr, arith,
}
use fxtrader.Base.Int.{pos}
use fxtrader.Base.Result.{Result, ok, err, panic}
use fxtrader.Outside.{Outside}
use fxtrader.Model.{Account, User}
use fxtrader.World.{World, continue, ◌>>=◌, ◌>>◌}
use fxtrader.World.Outcome.{Ends, Ends-bind}
use fxtrader.Repo.Users
use fxtrader.Repo.Users.{get_user_by_id, update_user}
use fxtrader.Repo.Accounts
use fxtrader.Repo.Accounts.{get_account_by_name, update_account}
use fxtrader.Service.Transfer.{
  Side, balance_of, with_balance, load_source, load_dest, save_side, crosses, settle,
  transfer_balance, commit,
}

module _ ⦃o : Outside⦄ where
  open o use {F, Coll, float, add, sub, lt, le}

  -- The collections that hold balances.
  abbrev pub Books : Type 0
  Books = Coll (User F) × Coll (Account F)

  abbrev pub books : World → Books
  books w = (w.users, w.accounts)

  -- The books after one side is written back.
  abbrev pub written : Side F → Books → Books
  written s (us, as') = elim s.account [
    | none ↦ ((o.update_one (User F) (Users.has_id s.user.id) (Users.replaced_by s.user) us).0, as')
    | some a ↦
        (us, (o.update_one (Account F) (Accounts.has_id a.id) (Accounts.replaced_by a) as').0)
  ]

  abbrev pub debited : F → Side F → Side F
  debited x s = with_balance (sub (balance_of s) x) s

  abbrev pub credited : F → Side F → Side F
  credited x d = with_balance (add (balance_of d) x) d

  pub load_source-books :
      (user : ℕ) (id type : String) (w : World) → books (load_source user id type w).1 ≡ books w
  unfolding load_source get_user_by_id get_account_by_name
  load_source-books user id type w = ground arith

  pub load_dest-books :
      (user : ℕ) (id type : String) (w : World) → books (load_dest user id type w).1 ≡ books w
  unfolding load_dest get_user_by_id get_account_by_name
  load_dest-books user id type w = ground arith

  -- A write stores the side, or fails and changes nothing.
  abbrev Saved : Side F → Books → Result (Unit {0}) → Books → Type 0
  Saved s b (ok _) b' = b' ≡ written s b
  Saved s b (err _) b' = b' ≡ b
  Saved s b panic b' = ⊥

  save_side-Saved :
      (s : Side F) (w : World) → let (r, w') = save_side s w in Saved s (books w) r (books w')
  unfolding save_side update_user update_account
  save_side-Saved s w = ground arith

  -- What a callback that began on the books `b` has done to them, by how it ended.
  abbrev pub Settled :
      F → String → String → Side F → Side F → Books → Result (Unit {0}) → Books → Type 0
  Settled x st dt s d b (ok _) b' =
      (s.user.id ≡ d.user.id)
      × (crosses st dt ≡ false)
      × (lt (balance_of s) x ≡ false)
      × (b' ≡ written (credited x d) (written (debited x s) b))
  Settled x st dt s d b (err _) b' = (b' ≡ b) ⊎ (b' ≡ written (debited x s) b)
  Settled x st dt s d b panic b' = ⊥

  settle-Settled :
      (x : F) (st dt : String) (s d : Side F) (w : World)
      → let (r, w') = settle x st dt s d w in Settled x st dt s d (books w) r (books w')
  unfolding settle
  settle-Settled x st dt s d w = ground (
    arith,
    save_side-Saved (debited x s) w,
    save_side-Saved (credited x d) (save_side (debited x s) w).1,
  )

  load_source-ne-panic :
      (user : ℕ) (id type : String) (w : World) → (load_source user id type w).0 ≢ panic
  unfolding load_source get_user_by_id get_account_by_name
  load_source-ne-panic user id type w = ground arith

  load_dest-ne-panic :
      (user : ℕ) (id type : String) (w : World) → (load_dest user id type w).0 ≢ panic
  unfolding load_dest get_user_by_id get_account_by_name
  load_dest-ne-panic user id type w = ground arith

  abbrev IsMain : ℕ → Books → Side F → Type 0
  IsMain user b s = (o.find_one (User F) (Users.has_id user) b.0 ≡ some s.user) × (s.account ≡ none)

  -- The account of that name, its type, and the user document that is read beside it.
  abbrev IsAccount : ℕ → String → String → (Account F → ℕ) → Books → Side F → Type 0
  IsAccount user id type owner b s =
      (a : Account F) × (s.account ≡ some a)
      × (o.find_one (Account F) (Accounts.has_name id user) b.1 ≡ some a)
      × (a.account_type ≡ type)
      × (o.find_one (User F) (Users.has_id (owner a)) b.0 ≡ some s.user)

  -- The documents that the database has for a side.
  abbrev pub IsSource : ℕ → String → String → Books → Side F → Type 0
  IsSource user id type b s =
      ((type ≡ "main") × IsMain user b s)
      ⊎ ((type ≢ "main") × IsAccount user id type (λ a. a.user_id) b s)

  abbrev pub IsDest : ℕ → String → String → Books → Side F → Type 0
  IsDest user id type b s =
      ((type ≡ "main") × IsMain user b s)
      ⊎ ((type ≢ "main") × IsAccount user id type (λ _. user) b s)

  load_source-IsSource :
      (user : ℕ) (id type : String) (w : World) (s : Side F)
      → (load_source user id type w).0 ≡ ok s
      → IsSource user id type (books w) s
  unfolding load_source get_user_by_id get_account_by_name
  load_source-IsSource user id type w s h = elim (Option-cases s.account) [
    | inl e ↦ inl (ground (arith, eq_iff type "main"), (ground arith, e))
    | inr (a, e) ↦ inr (
      ground (arith, eq_iff type "main"),
      (a, e, ground arith, ground (arith, eq_iff a.account_type type), ground arith),
    )
  ]

  load_dest-IsDest :
      (user : ℕ) (id type : String) (w : World) (s : Side F)
      → (load_dest user id type w).0 ≡ ok s
      → IsDest user id type (books w) s
  unfolding load_dest get_user_by_id get_account_by_name
  load_dest-IsDest user id type w s h = elim (Option-cases s.account) [
    | inl e ↦ inl (ground (arith, eq_iff type "main"), (ground arith, e))
    | inr (a, e) ↦ inr (
      ground (arith, eq_iff type "main"),
      (a, e, ground arith, ground (arith, eq_iff a.account_type type), ground arith),
    )
  ]

  module _ (user : ℕ) (source_id dest_id : String) (x : F) (st dt : String) where
    abbrev Sides : Books → Side F → Side F → Type 0
    Sides b s d = IsSource user source_id st b s × IsDest user dest_id dt b d

    -- What a transfer that began on the books `b` has done to them, by how it ended.
    abbrev pub Transferred : Books → Result (Unit {0}) → Books → Type 0
    Transferred b (ok _) b' =
        (s : Side F) × (d : Side F) × (le x (float (pos 0)) ≡ false)
        × Sides b s d
        × Settled x st dt s d b (ok tt) b'
    Transferred b (err _) b' =
        (b' ≡ b)
        ⊎ ((s : Side F) × (d : Side F) × Sides b s d
            × ((b' ≡ written (debited x s) b)
                ⊎ (b' ≡ written (credited x d) (written (debited x s) b))))
    Transferred b panic b' = ⊥

    abbrev Outcome : Books → Result (Unit {0}) → World → Type 0
    Outcome b r w = Transferred b r (books w)

    committed :
        (b : Books) (s d : Side F) (r : Result (Unit {0})) (w : World)
        → le x (float (pos 0)) ≡ false
        → Sides b s d
        → Settled x st dt s d b r (books w)
        → let (r', w') = continue r (λ _. commit) w in Outcome b r' w'
    unfolding commit
    committed b s d (ok tt) w positive sides h = elim (Bool-cases (o.fails w.calls)) [
      | inl lost ↦ rw lost (inr (s, d, sides, inr h.3))
      | inr done ↦ rw done (s, d, positive, sides, h)
    ]
    committed b s d (err e) w positive sides (inl h) = inl h
    committed b s d (err e) w positive sides (inr h) = inr (s, d, sides, inl h)
    committed b s d panic w positive sides h = h

    after_loads :
        (b : Books) (s d : Side F) (w : World)
        → le x (float (pos 0)) ≡ false
        → books w ≡ b
        → Sides b s d
        → Ends (Outcome b) (settle x st dt s d >> commit) w
    after_loads b s d w positive same sides =
        committed b s d _ _ positive sides (rw (← same) (settle-Settled x st dt s d w))

    after_start :
        (w : World)
        → le x (float (pos 0)) ≡ false
        → Ends
            (Outcome (books w))
            (do
              s ← load_source user source_id st
              d ← load_dest user dest_id dt
              settle x st dt s d
              commit)
            w
    after_start w positive =
        let kept = load_source-books user source_id st w in
        Ends-bind (Outcome (books w)) (load_source user source_id st) _ w
          (λ s es.
            Ends-bind (Outcome (books w)) (load_dest user dest_id dt) _ _
              (λ d ed.
                after_loads (books w) s d _ positive (load_dest-books user dest_id dt _ ∙ kept) (
                  load_source-IsSource user source_id st w s es,
                  subst (λ b. IsDest user dest_id dt b d) kept
                      (load_dest-IsDest user dest_id dt _ d ed),
                ))
              (λ e _. inl (load_dest-books user dest_id dt _ ∙ kept))
              (load_dest-ne-panic user dest_id dt _))
          (λ e _. inl kept) (load_source-ne-panic user source_id st w)

    -- A transfer that returns no error found both sides of one user, of the types asked for, not
    -- one demo and one real; its amount is positive and the source covered it; it debited the
    -- source and then credited the destination, and wrote nothing else to users and accounts. One
    -- that returns an error changed nothing, or stored the debit alone, or both writes: nothing
    -- is rolled back. It never panics.
    pub transfer_balance-Transferred :
        (w : World)
        → let (r, w') = transfer_balance user source_id dest_id x st dt w in
          Transferred (books w) r (books w')
    unfolding transfer_balance
    transfer_balance-Transferred w = elim (Bool-cases (le x (float (pos 0)))) [
      | inl refused ↦ rw refused (inl refl)
      | inr positive ↦ elim (Bool-cases (o.fails w.calls)) [
        | inl failed ↦ rw (positive, failed) (inl refl)
        | inr started ↦ rw (positive, started) (after_start _ positive)
      ]
    ]
