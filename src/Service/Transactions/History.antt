-- ===== src/Service/Transactions/History.antt =====
-- Sequences of reviews of one transaction.
use fxtrader.Base.{
  ℕ, some, String, List, [], ◌∷◌, ◌≡◌, ◌≢◌, ◌⊎◌, refl, inl, inr, ◌∙◌, sym, subst, arith, eq_iff,
}
use mathlib.Core.Path.{subst₂}
use fxtrader.Base.Result.{Result, ok, err, panic}
use fxtrader.Outside.{Outside}
use fxtrader.Outside.Laws.{FindsMatching, UpdatesFound}
use fxtrader.Model.{User, Transaction}
use fxtrader.World.{World}
use fxtrader.Service.Transactions.{approve_transaction, deny_transaction}
use fxtrader.Service.Transactions.Review.{
  Approved, approve_transaction-Approved, IsPending, marked, Moved, Unmoved, signed,
}
use fxtrader.Service.Transactions.Once.{
  Denied, deny_transaction-Denied, Refused, Approved-Refused, Denied-Refused, not-IsPending,
}

-- What an administrator decides, with the reason and the comment.
pub data Verdict : Type 0 where
  approval : String → String → Verdict
  denial : String → String → Verdict

module _ ⦃o : Outside⦄ where
  open o use {F, Coll}

  abbrev perform : String → Verdict → World → Result (Unit {0}) × World
  perform id (approval reason comment) = approve_transaction id reason comment
  perform id (denial reason comment) = deny_transaction id reason comment

  -- The reviews of the transaction in their order, whatever each returns.
  unfoldable pub perform_all : String → List Verdict → World → World
  perform_all id [] w = w
  perform_all id (v ∷ vs) w = perform_all id vs (perform id v w).1

  -- The users where the pending `t` was approved: the balance was moved once or not at all.
  abbrev pub PaidAtMostOnce : Transaction F → Coll (User F) → Coll (User F) → Type 0
  PaidAtMostOnce t us us' =
      (us' ≡ us)
      ⊎ ((user : ℕ) × (o.from_hex t.user_id ≡ some user)
          × (Moved user t (signed t) us us' ⊎ Unmoved user (signed t) us us'))

  -- The transactions and the users after any reviews of the transaction `id`: nothing has changed,
  -- or the transaction was pending and one review was stored, a denial that moved no balance or an
  -- approval that moved it at most once.
  abbrev pub ReviewedOnce :
      String → Coll (Transaction F) → Coll (User F) → Coll (Transaction F) → Coll (User F) → Type 0
  ReviewedOnce id ts us ts' us' =
      ((ts' ≡ ts) × (us' ≡ us))
      ⊎ ((i : ℕ) × (t : Transaction F) × (reason : String) × (comment : String) × (time : ℕ)
          × IsPending id ts i t
          × (((ts' ≡ marked i "REJECTED" reason comment time ts) × (us' ≡ us))
              ⊎ ((ts' ≡ marked i "APPROVED" reason comment time ts) × PaidAtMostOnce t us us')))

  abbrev NonePending : String → Coll (Transaction F) → Type 0
  NonePending id ts = (i : ℕ) (t : Transaction F) → ¬ IsPending id ts i t

  Refused-same :
      (ts : Coll (Transaction F)) (us : Coll (User F)) (r : Result (Unit {0})) (w : World)
      → Refused ts us r w
      → (w.transactions ≡ ts) × (w.users ≡ us)
  Refused-same ts us (err e) w h = h
  Refused-same ts us (ok u) w h = absurd h
  Refused-same ts us panic w h = absurd h

  -- A review of a transaction that is not pending changes nothing.
  perform_refused :
      (id : String) (v : Verdict) (w : World)
      → NonePending id w.transactions
      → let w' = (perform id v w).1 in (w'.transactions ≡ w.transactions) × (w'.users ≡ w.users)
  perform_refused id (approval reason comment) w none_pending =
      let (r, w') = approve_transaction id reason comment w in
      Refused-same _ _ r w' (
        Approved-Refused id reason comment _ _ r w' none_pending
          (approve_transaction-Approved id reason comment w))
  perform_refused id (denial reason comment) w none_pending =
      let (r, w') = deny_transaction id reason comment w in
      Refused-same _ _ r w' (
        Denied-Refused id reason comment _ _ r w' none_pending
          (deny_transaction-Denied id reason comment w))

  perform_all_refused :
      (id : String) (vs : List Verdict) (w : World)
      → NonePending id w.transactions
      → let w' = perform_all id vs w in (w'.transactions ≡ w.transactions) × (w'.users ≡ w.users)
  unfolding perform_all
  perform_all_refused id [] w none_pending = (refl, refl)
  perform_all_refused id (v ∷ vs) w none_pending =
      let w1 = (perform id v w).1 in
      let (ts, us) = perform_refused id v w none_pending in
      let (ts', us') =
        perform_all_refused id vs w1
          (λ i t. subst (λ x. ¬ IsPending id x i t) (sym ts) (none_pending i t)) in
      (ts' ∙ ts, us' ∙ us)

  module _ (matching : FindsMatching) (found : UpdatesFound) (id : String) where
    -- What one review does, and that after one that was stored the transaction is not pending.
    abbrev Stored :
        Coll (Transaction F) → Coll (User F) → Coll (Transaction F) → Coll (User F) → Type 0
    Stored ts us ts' us' =
        ((ts' ≡ ts) × (us' ≡ us)) ⊎ (ReviewedOnce id ts us ts' us' × NonePending id ts')

    none_after :
        (i : ℕ) (t : Transaction F) (s reason comment : String) (time : ℕ)
        (ts ts' : Coll (Transaction F))
        → IsPending id ts i t
        → ts' ≡ marked i s reason comment time ts
        → s ≢ "PENDING"
        → NonePending id ts'
    none_after i t s reason comment time ts ts' p stored ne j t' q =
        not-IsPending found i t s reason comment time id ts j t' matching p ne
          (subst (λ x. IsPending id x j t') stored q)

    approved_ne : ◌≢◌ {A = String} "APPROVED" "PENDING"
    approved_ne h = ground (arith, eq_iff "APPROVED" "PENDING")

    rejected_ne : ◌≢◌ {A = String} "REJECTED" "PENDING"
    rejected_ne h = ground (arith, eq_iff "REJECTED" "PENDING")

    Approved-Stored :
        (reason comment : String) (ts : Coll (Transaction F)) (us : Coll (User F))
        (r : Result (Unit {0})) (w : World)
        → Approved id reason comment ts us r w
        → Stored ts us w.transactions w.users
    Approved-Stored reason comment ts us (ok _) w (i, t, user, time, p, e, stored, moved) = inr (
      inr (i, t, reason, comment, time, p, inr (stored, inr (user, e, inl moved))),
      none_after i t "APPROVED" reason comment time ts w.transactions p stored approved_ne,
    )
    Approved-Stored reason comment ts us (err _) w (inl h) = inl h
    Approved-Stored reason comment ts us (err _) w (inr (i, t, time, p, stored, inl same)) = inr (
      inr (i, t, reason, comment, time, p, inr (stored, inl same)),
      none_after i t "APPROVED" reason comment time ts w.transactions p stored approved_ne,
    )
    Approved-Stored reason comment ts us (err _) w
          (inr (i, t, time, p, stored, inr (user, e, unmoved))) =
        inr (
          inr (i, t, reason, comment, time, p, inr (stored, inr (user, e, inr unmoved))),
          none_after i t "APPROVED" reason comment time ts w.transactions p stored approved_ne,
        )
    Approved-Stored reason comment ts us panic w h = absurd h

    Denied-Stored :
        (reason comment : String) (ts : Coll (Transaction F)) (us : Coll (User F))
        (r : Result (Unit {0})) (w : World)
        → Denied id reason comment ts us r w
        → Stored ts us w.transactions w.users
    Denied-Stored reason comment ts us (ok _) w (i, t, time, p, stored, same) = inr (
      inr (i, t, reason, comment, time, p, inl (stored, same)),
      none_after i t "REJECTED" reason comment time ts w.transactions p stored rejected_ne,
    )
    Denied-Stored reason comment ts us (err _) w h = inl h
    Denied-Stored reason comment ts us panic w h = absurd h

    perform-Stored :
        (v : Verdict) (w : World)
        → let w' = (perform id v w).1 in Stored w.transactions w.users w'.transactions w'.users
    perform-Stored (approval reason comment) w =
        let (r, w') = approve_transaction id reason comment w in
        Approved-Stored reason comment w.transactions w.users r w'
          (approve_transaction-Approved id reason comment w)
    perform-Stored (denial reason comment) w =
        let (r, w') = deny_transaction id reason comment w in
        Denied-Stored reason comment w.transactions w.users r w'
          (deny_transaction-Denied id reason comment w)

    -- If lookups answer matching documents and updates are found again: any sequence of approvals
    -- and denials of one transaction, with any failures of the database among them, stores at most
    -- one review of it, and only if it was pending, and moves the user's balance at most once, by
    -- the signed amount and only if that review is an approval.
    pub perform_all-ReviewedOnce :
        (vs : List Verdict) (w : World)
        → let w' = perform_all id vs w in
          ReviewedOnce id w.transactions w.users w'.transactions w'.users
    unfolding perform_all
    perform_all-ReviewedOnce [] w = inl (refl, refl)
    perform_all-ReviewedOnce (v ∷ vs) w =
        let w1 = (perform id v w).1 in
        let w2 = perform_all id vs w1 in
        elim (perform-Stored v w) [
          | inl (ts, us) ↦
              subst₂ (λ x y. ReviewedOnce id x y w2.transactions w2.users) ts us
                (perform_all-ReviewedOnce vs w1)
          | inr (once, none_pending) ↦
              let (ts, us) = perform_all_refused id vs w1 none_pending in
              subst₂ (λ x y. ReviewedOnce id w.transactions w.users x y) (sym ts) (sym us) once
        ]
