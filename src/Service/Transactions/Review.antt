-- ===== src/Service/Transactions/Review.antt =====
-- What the review of a transaction writes, and that a transaction is reviewed once.
use fxtrader.Base.{
  ℕ, suc, String, false, Option, some, none, ◌≡◌, ◌≢◌, ◌⊎◌, inl, inr, refl, sym, ap, subst, ◌∙◌,
  arith, eq_iff, Bool-cases, Option-cases, ◌=s=◌, if◌then◌else◌,
}
use mathlib.Core.Path.{subst₂}
use fxtrader.Base.Int.{pos}
use fxtrader.Base.Result.{Result, ok, err, panic, new}
use fxtrader.Outside.{Outside}
use fxtrader.Model.{User, Transaction}
use fxtrader.World.{World, Action, continue, called, now, present, ◌>>=◌, ◌>>◌}
use fxtrader.Repo.Users
use fxtrader.Repo.Users.{inc_balance, update, get_user_by_id, add_balance, subtract_balance}
use fxtrader.Repo.Transactions
use fxtrader.Repo.Transactions.{set_review, get_transaction_by_id, update_transaction}
use fxtrader.Repo.Others.Logging.{ignored_log}
use fxtrader.Service.Transactions.{
  log, described, pending, reviewed, move_balance, approve_transaction,
}

module _ ⦃o : Outside⦄ where
  open o use {F, Coll, float, neg, lt, le}

  abbrev pub incremented : ℕ → F → Coll (User F) → Coll (User F) × ℕ
  incremented user x us = o.update_one (User F) (Users.has_id user) (inc_balance x) us

  -- The amount by which the switch on the type changes a balance.
  abbrev pub signed : Transaction F → Option F
  signed t =
      if t.transaction_type =s= "DEPOSIT"
      then some t.amount
      else if t.transaction_type =s= "WITHDRAWAL"
      then some (neg t.amount)
      else none

  abbrev pub Covers : ℕ → Transaction F → Coll (User F) → Type 0
  Covers user t us =
      (t.transaction_type ≡ "WITHDRAWAL")
      → (u : User F) × (o.find_one (User F) (Users.has_id user) us ≡ some u)
        × (lt u.balance t.amount ≡ false)

  -- The users after a successful switch.
  abbrev pub Moved : ℕ → Transaction F → Option F → Coll (User F) → Coll (User F) → Type 0
  Moved user t none us us' = us' ≡ us
  Moved user t (some x) us us' =
      (le t.amount (float (pos 0)) ≡ false)
      × (us' ≡ (incremented user x us).0)
      × ((incremented user x us).1 ≢ 0)

  -- The users after a failed one.
  abbrev pub Unmoved : ℕ → Option F → Coll (User F) → Coll (User F) → Type 0
  Unmoved user none us us' = us' ≡ us
  Unmoved user (some x) us us' =
      (us' ≡ us) ⊎ ((us' ≡ (incremented user x us).0) × ((incremented user x us).1 ≡ 0))

  abbrev MoveEnds : ℕ → Transaction F → World → Result (Unit {0}) → World → Type 0
  MoveEnds user t w (ok _) w' =
      Moved user t (signed t) w.users w'.users × (w'.transactions ≡ w.transactions)
  MoveEnds user t w (err _) w' =
      Unmoved user (signed t) w.users w'.users × (w'.transactions ≡ w.transactions)
  MoveEnds user t w panic w' = ⊥

  move_balance-MoveEnds :
      (user : ℕ) (t : Transaction F) (w : World)
      → let (r, w') = move_balance user t w in MoveEnds user t w r w'
  unfolding move_balance add_balance subtract_balance
  move_balance-MoveEnds user t w = ground arith

  -- The transaction that an id names is there and awaits its review.
  abbrev pub IsPending : String → Coll (Transaction F) → ℕ → Transaction F → Type 0
  IsPending id ts i t =
      (o.from_hex id ≡ some i)
      × (o.find_one (Transaction F) (Transactions.has_id i) ts ≡ some t)
      × (t.status ≡ "PENDING")

  -- The transactions after a review is stored in the document with that id: its status, reason,
  -- comment and time are set, and nothing else.
  abbrev pub marked : ℕ → String → String → String → ℕ → Coll (Transaction F) → Coll (Transaction F)
  marked i s why comment time ts =
      (o.update_one (Transaction F) (Transactions.has_id i)
        (λ old. record old {
          status = s;
          response_time = some time;
          reason = why;
          admin_comment = comment;
        })
        ts).0

  abbrev pub PendingEnds : String → World → Result (ℕ × Transaction F) → World → Type 0
  PendingEnds id w (ok (i, t)) w' =
      IsPending id w.transactions i t × (w'.users ≡ w.users) × (w'.transactions ≡ w.transactions)
  PendingEnds id w (err _) w' = (w'.users ≡ w.users) × (w'.transactions ≡ w.transactions)
  PendingEnds id w panic w' = ⊥

  pub pending-PendingEnds :
      (id : String) (w : World) → let (r, w') = pending id w in PendingEnds id w r w'
  unfolding pending get_transaction_by_id
  pending-PendingEnds id w = elim (Option-cases (o.from_hex id)) [
    | inl e ↦ ground arith
    | inr (i, e) ↦
        elim (Option-cases (o.find_one (Transaction F) (Transactions.has_id i) w.transactions)) [
          | inl missing ↦ ground arith
          | inr (t, found) ↦ ground (arith, eq_iff t.status "PENDING")
        ]
  ]

  module _ (id reason comment : String) where
    -- How an approval that began on the transactions `ts` and the users `us` ends.
    abbrev pub Approved : Coll (Transaction F) → Coll (User F) → Result (Unit {0}) → World → Type 0
    Approved ts us (ok _) w' =
        (i : ℕ) × (t : Transaction F) × (user : ℕ) × (time : ℕ) × IsPending id ts i t
        × (o.from_hex t.user_id ≡ some user)
        × (w'.transactions ≡ marked i "APPROVED" reason comment time ts)
        × Moved user t (signed t) us w'.users
    Approved ts us (err _) w' =
        ((w'.transactions ≡ ts) × (w'.users ≡ us))
        ⊎ ((i : ℕ) × (t : Transaction F) × (time : ℕ) × IsPending id ts i t
            × (w'.transactions ≡ marked i "APPROVED" reason comment time ts)
            × ((w'.users ≡ us)
                ⊎ ((user : ℕ) × (o.from_hex t.user_id ≡ some user)
                    × Unmoved user (signed t) us w'.users)))
    Approved ts us panic w' = ⊥

    abbrev description_of : Transaction F → String
    description_of t =
        described t.transaction_type "Deposit approved" "Withdrawal approved" "Transaction approved"

    logged : Transaction F → Action (Unit {0})
    logged t = log "ApproveTransaction" (description_of t)

    approve_rest : ℕ → Transaction F → Action (Unit {0})
    unfolding logged
    approve_rest i t = do
      time ← now
      update_transaction i (reviewed "APPROVED" reason comment time t)
      user ← present (o.from_hex t.user_id) (new "invalid user ID")
      move_balance user t
      logged t

    abbrev stored_world : ℕ → Transaction F → World → World
    stored_world i t w = record (called (called w)) {
      transactions = marked i "APPROVED" reason comment (o.clock w.calls) w.transactions;
    }

    after_move :
        (i user time : ℕ) (t : Transaction F) (w w1 : World) (r : Result (Unit {0})) (w2 : World)
        → IsPending id w.transactions i t
        → o.from_hex t.user_id ≡ some user
        → w1.users ≡ w.users
        → w1.transactions ≡ marked i "APPROVED" reason comment time w.transactions
        → MoveEnds user t w1 r w2
        → let (r', w') = continue r (λ _. logged t) w2 in Approved w.transactions w.users r' w'
    unfolding logged
    after_move i user time t w w1 (ok _) w2 p e same_users stored moves =
        let (ends, logs) = ignored_log 0 "ApproveTransaction" (description_of t) "" w2 in
        subst (λ r. Approved w.transactions w.users r (logged t w2).1) (sym ends)
          (
            i,
            t,
            user,
            time,
            p,
            e,
            ap (λ v. v.transactions) logs ∙ moves.1 ∙ stored,
            subst₂ (λ us us'. Moved user t (signed t) us us') same_users
                (sym (ap (λ v. v.users) logs)) moves.0,
          )
    after_move i user time t w w1 (err x) w2 p e same_users stored moves = inr (
      i,
      t,
      time,
      p,
      moves.1 ∙ stored,
      inr (user, e, subst (λ us. Unmoved user (signed t) us w2.users) same_users moves.0),
    )
    after_move i user time t w w1 panic w2 p e same_users stored moves = moves

    approve_rest-Approved :
        (i : ℕ) (t : Transaction F) (w : World)
        → IsPending id w.transactions i t
        → let (r, w') = approve_rest i t w in Approved w.transactions w.users r w'
    unfolding approve_rest update_transaction set_review reviewed
    approve_rest-Approved i t w p = elim (Bool-cases (o.fails (suc w.calls))) [
      | inl lost ↦ rw lost (inl (refl, refl))
      | inr stored ↦ elim (Option-cases (o.from_hex t.user_id)) [
        | inl e ↦ rw (stored, e) (inr (i, t, o.clock w.calls, p, refl, inl refl))
        | inr (user, e) ↦
            rw (stored, e)
              (let w1 = stored_world i t w in
                let (r, w2) = move_balance user t w1 in
                after_move i user (o.clock w.calls) t w w1 r w2 p e refl refl
                  (move_balance-MoveEnds user t w1))
      ]
    ]

    after_checks :
        (r : Result (ℕ × Transaction F)) (w w1 : World)
        → PendingEnds id w r w1
        → let (r', w') = continue r (λ (i, t). approve_rest i t) w1 in
          Approved w.transactions w.users r' w'
    after_checks (ok (i, t)) w w1 h =
        let (r', w') = approve_rest i t w1 in
        subst₂ (λ ts us. Approved ts us r' w') h.2 h.1
          (approve_rest-Approved i t w1 (subst (λ ts. IsPending id ts i t) (sym h.2) h.0))
    after_checks (err e) w w1 h = inl (h.1, h.0)
    after_checks panic w w1 h = h

    -- An approval that returns no error found the transaction pending, stored it as approved with
    -- the reason, the comment and the time, and then moved the user's main balance once: by the
    -- positive amount of a deposit, by minus that of a withdrawal, and not at all for another
    -- type. One that returns an error changed neither collection, or it stored the approval and
    -- the balance has not moved. It never panics.
    pub approve_transaction-Approved :
        (w : World)
        → let (r, w') = approve_transaction id reason comment w in
          Approved w.transactions w.users r w'
    unfolding approve_transaction approve_rest logged
    approve_transaction-Approved w =
        let (r, w1) = pending id w in after_checks r w w1 (pending-PendingEnds id w)
