-- ===== src/Service/Transactions/Once.antt =====
-- Denial, and that a transaction is reviewed once.
use mathlib.Core.Path.{subst₂}
use fxtrader.Base.{
  ℕ, suc, String, true, some, ◌≡◌, ◌≢◌, refl, sym, ap, subst, ◌∙◌, arith, inl, inr, Bool-cases,
  eq_iff,
}
use fxtrader.Base.Result.{Result, ok, err, panic}
use fxtrader.Outside.{Outside}
use fxtrader.Outside.Laws.{FindsMatching, UpdatesFound}
use fxtrader.Model.{User, Transaction}
use fxtrader.World.{World, Action, continue, called, now, ◌>>=◌, ◌>>◌}
use fxtrader.Repo.Transactions
use fxtrader.Repo.Transactions.{set_review, update_transaction, get_transaction_by_id}
use fxtrader.Repo.Others.Logging.{ignored_log}
use fxtrader.Service.Transactions.{
  log, described, pending, reviewed, approve_transaction, deny_transaction,
}
use mathlib.Core.Option.{some-injective}
use fxtrader.Service.Transactions.Review.{
  Approved, approve_transaction-Approved, IsPending, marked, PendingEnds, pending-PendingEnds,
}

module _ ⦃o : Outside⦄ where
  open o use {F, Coll, lt, le, float}

  module _ (id reason comment : String) where
    -- How a denial that began on the transactions `ts` and the users `us` ends.
    abbrev pub Denied : Coll (Transaction F) → Coll (User F) → Result (Unit {0}) → World → Type 0
    Denied ts us (ok _) w' =
        (i : ℕ) × (t : Transaction F) × (time : ℕ) × IsPending id ts i t
        × (w'.transactions ≡ marked i "REJECTED" reason comment time ts)
        × (w'.users ≡ us)
    Denied ts us (err _) w' = (w'.transactions ≡ ts) × (w'.users ≡ us)
    Denied ts us panic w' = ⊥

    abbrev description_of : Transaction F → String
    description_of t =
        described t.transaction_type "Deposit denied" "Withdrawal denied" "Transaction denied"

    deny_rest : ℕ → Transaction F → Action (Unit {0})
    deny_rest i t = do
      time ← now
      update_transaction i (reviewed "REJECTED" reason comment time t)
      log "DenyTransaction" (description_of t)

    deny_rest-Denied :
        (i : ℕ) (t : Transaction F) (w : World)
        → IsPending id w.transactions i t
        → let (r, w') = deny_rest i t w in Denied w.transactions w.users r w'
    unfolding deny_rest update_transaction set_review reviewed
    deny_rest-Denied i t w p = elim (Bool-cases (o.fails (suc w.calls))) [
      | inl lost ↦ rw lost (refl, refl)
      | inr stored ↦
          let w1 : World = record (called (called w)) {
            transactions = marked i "REJECTED" reason comment (o.clock w.calls) w.transactions;
          } in
          let (ends, logs) = ignored_log 0 "DenyTransaction" (description_of t) "" w1 in
          let done : Denied w.transactions w.users (ok tt)
              (log "DenyTransaction" (description_of t) w1).1 =
            (i, t, o.clock w.calls, p, ap (λ v. v.transactions) logs, ap (λ v. v.users) logs) in
          rw stored (
            subst
              (λ r. Denied w.transactions w.users r (log "DenyTransaction" (description_of t) w1).1)
              (sym ends) done)
    ]

    after_checks :
        (r : Result (ℕ × Transaction F)) (w w1 : World)
        → PendingEnds id w r w1
        → let (r', w') = continue r (λ (i, t). deny_rest i t) w1 in
          Denied w.transactions w.users r' w'
    after_checks (ok (i, t)) w w1 h =
        let (r', w') = deny_rest i t w1 in
        subst₂ (λ ts us. Denied ts us r' w') h.2 h.1
          (deny_rest-Denied i t w1 (subst (λ ts. IsPending id ts i t) (sym h.2) h.0))
    after_checks (err e) w w1 h = (h.1, h.0)
    after_checks panic w w1 h = h

    -- A denial that returns no error found the transaction pending and set its status to REJECTED,
    -- its reason, its comment and its response time and nothing else; one that returns an error
    -- changed no transaction. No user changes in either case, and it never panics.
    pub deny_transaction-Denied :
        (w : World)
        → let (r, w') = deny_transaction id reason comment w in Denied w.transactions w.users r w'
    unfolding deny_transaction deny_rest
    deny_transaction-Denied w =
        let (r, w1) = pending id w in after_checks r w w1 (pending-PendingEnds id w)

  -- The transactions after the review with the status `s` of the pending transaction `t`.
  module _ (found : UpdatesFound) (i : ℕ) (t : Transaction F) (s reason comment : String)
      (time : ℕ) where
    abbrev after_review : Coll (Transaction F) → Coll (Transaction F)
    after_review ts = marked i s reason comment time ts

    find_reviewed :
        (ts : Coll (Transaction F))
        → o.find_one (Transaction F) (Transactions.has_id i) ts ≡ some t
        → Transactions.has_id i t ≡ true
        → o.find_one (Transaction F) (Transactions.has_id i) (after_review ts)
          ≡ some (record t {
            status = s;
            response_time = some time;
            reason = reason;
            admin_comment = comment;
          })
    unfolding Transactions.has_id
    find_reviewed ts e self = found (Transaction F) (Transactions.has_id i) _ ts t e self

    pub not-IsPending :
        (id : String) (ts : Coll (Transaction F)) (j : ℕ) (t' : Transaction F)
        → FindsMatching
        → IsPending id ts i t
        → s ≢ "PENDING"
        → ¬ IsPending id (after_review ts) j t'
    not-IsPending id ts j t' matching (hex, e, was) ne (hex', e', is) =
        let self = matching (Transaction F) (Transactions.has_id i) ts t e in
        let stored = find_reviewed ts e self in
        let same : some j ≡ some i = sym hex' ∙ hex in
        let here : o.find_one (Transaction F) (Transactions.has_id i) (after_review ts) ≡ some t' =
          subst
            (λ k. o.find_one (Transaction F) (Transactions.has_id k) (after_review ts) ≡ some t')
            (some-injective _ _ same) e' in
        let both = sym stored ∙ here in ne (ap (λ v. v.status) (some-injective _ _ both) ∙ is)

  -- How a review ends that has done nothing.
  abbrev pub Refused : Coll (Transaction F) → Coll (User F) → Result (Unit {0}) → World → Type 0
  Refused ts us (ok _) w' = ⊥
  Refused ts us (err _) w' = (w'.transactions ≡ ts) × (w'.users ≡ us)
  Refused ts us panic w' = ⊥

  module _ (id reason comment : String) where
    pub Approved-Refused :
        (ts : Coll (Transaction F)) (us : Coll (User F)) (r : Result (Unit {0})) (w' : World)
        → ((i : ℕ) (t : Transaction F) → ¬ IsPending id ts i t)
        → Approved id reason comment ts us r w'
        → Refused ts us r w'
    Approved-Refused ts us (ok _) w' none_pending h = absurd (none_pending h.0 h.1 h.4)
    Approved-Refused ts us (err _) w' none_pending (inl h) = h
    Approved-Refused ts us (err _) w' none_pending (inr h) = absurd (none_pending h.0 h.1 h.3)
    Approved-Refused ts us panic w' none_pending h = h

    pub Denied-Refused :
        (ts : Coll (Transaction F)) (us : Coll (User F)) (r : Result (Unit {0})) (w' : World)
        → ((i : ℕ) (t : Transaction F) → ¬ IsPending id ts i t)
        → Denied id reason comment ts us r w'
        → Refused ts us r w'
    Denied-Refused ts us (ok _) w' none_pending h = absurd (none_pending h.0 h.1 h.3)
    Denied-Refused ts us (err _) w' none_pending h = h
    Denied-Refused ts us panic w' none_pending h = h

  module _ (matching : FindsMatching) (found : UpdatesFound) (id reason comment : String) where
    none-IsPending_after :
        (w w' : World)
        → Approved id reason comment w.transactions w.users (ok tt) w'
        → (j : ℕ) (t' : Transaction F) → ¬ IsPending id w'.transactions j t'
    none-IsPending_after w w' (i, t, user, time, p, e, stored, moved) j t' q =
        not-IsPending found i t "APPROVED" reason comment time id w.transactions j t' matching p
          (λ h. absurd (text_ne h)) (subst (λ ts. IsPending id ts j t') stored q)
      where
        text_ne : ◌≢◌ {A = String} "APPROVED" "PENDING"
        text_ne = ground (arith, eq_iff "APPROVED" "PENDING")

    -- If lookups answer matching documents and updates are found again: after an approval that
    -- returned no error, a second approval or a denial of the same
    -- transaction, with any reason and comment and in any state with the same transactions,
    -- returns an error and changes neither the transactions nor the users.
    pub review_once :
        (w w1 : World) (reason' comment' : String)
        → (approve_transaction id reason comment w).0 ≡ ok tt
        → w1.transactions ≡ (approve_transaction id reason comment w).1.transactions
        → let (r, w2) = approve_transaction id reason' comment' w1 in
          let (s, w3) = deny_transaction id reason' comment' w1 in
          Refused w1.transactions w1.users r w2 × Refused w1.transactions w1.users s w3
    review_once w w1 reason' comment' done same =
        let (r0, w0) = approve_transaction id reason comment w in
        let first =
          subst (λ r. Approved id reason comment w.transactions w.users r w0) done
            (approve_transaction-Approved id reason comment w) in
        let none_pending = λ (j : ℕ) (t' : Transaction F).
          subst (λ ts. ¬ IsPending id ts j t') (sym same) (none-IsPending_after w w0 first j t') in
        (
          Approved-Refused id reason' comment' _ _ _ _ none_pending
              (approve_transaction-Approved id reason' comment' w1),
          Denied-Refused id reason' comment' _ _ _ _ none_pending
              (deny_transaction-Denied id reason' comment' w1),
        )
