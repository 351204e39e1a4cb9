-- ===== src/Api/Accounts/Posted.antt =====
-- What a posted transfer does to the users and the accounts.
use fxtrader.Base.{
  ℕ, String, Bool, some, ◌≡◌, ◌⊎◌, inl, inr, refl, arith, Bool-cases, ◌∙◌, ◌=s=◌, ◌&&◌, subst, sym,
}
use fxtrader.Base.Result.{Result, ok, err, panic}
use fxtrader.Outside.{Outside}
use fxtrader.World.{World}
use fxtrader.Repo.Users.{get_user_by_id}
use fxtrader.Repo.Accounts.{get_account_by_name}
use fxtrader.Repo.Others.{log_action}
use fxtrader.Service.Leaders.{get_user}
use fxtrader.Service.Transfer.{transfer_balance}
use fxtrader.Service.Transfer.Effects.{Books, books, Transferred, transfer_balance-Transferred}
use fxtrader.Api.{
  Reply, Body, Context, Answer, go, reply, crashed, Handler, pure, ◌>>=◌, ◌>>◌, follow, show,
  logging, say, answer_of,
}
use fxtrader.Api.Accounts.{
  TransferRequest, caller, check_transfer, balance_after, transfer_error, transfer, is_no_type,
}

module _ ⦃o : Outside⦄ where
  open o use {F}

  -- A part of a handler that leaves the users and the accounts.
  abbrev Leaves : {A : Type 0} → Handler A → Type 0
  Leaves m = (w : World) → books (m w).1 ≡ books w

  bind-Leaves :
      {A B : Type 0} (m : Handler A) (f : A → Handler B)
      → Leaves m
      → ((a : A) → Leaves (f a))
      → Leaves (m >>= f)
  bind-Leaves {A} {B} m f hm hf w = after (m w).0 (m w).1 (hm w)
    where
      after : (r : Answer F A) (v : World) → books v ≡ books w → books (follow r f v).1 ≡ books w
      after (go a) v h = hf a v ∙ h
      after (reply x) v h = h
      after crashed v h = h

  balance_after-Leaves :
      (user : String) (i : ℕ) (id type message : String)
      → Leaves (balance_after user i id type message)
  unfolding balance_after get_user get_user_by_id get_account_by_name
  balance_after-Leaves user i id type message w = ground arith

  logging-Leaves :
      (user : ℕ) (action description ip : String) → Leaves (logging user action description ip)
  unfolding logging log_action
  logging-Leaves user action description ip w = ground arith

  check_transfer-stays :
      (r : TransferRequest F) (w : World)
      → (check_transfer r w ≡ (go tt, w)) ⊎ ((z : Reply F) × (check_transfer r w ≡ (reply z, w)))
  unfolding check_transfer
  check_transfer-stays r w =
      elim (Bool-cases ((r.source_id =s= r.dest_id) && (r.source_type =s= r.dest_type))) [
        | inl e ↦ inr (say 400 "Source and destination cannot be the same", rw e refl)
        | inr e ↦ elim (Bool-cases (is_no_type r.source_type)) [
          | inl f ↦ inr (say 400 "Invalid source account type", rw (e, f) refl)
          | inr f ↦ elim (Bool-cases (is_no_type r.dest_type)) [
            | inl g ↦ inr (say 400 "Invalid destination account type", rw (e, f, g) refl)
            | inr g ↦ inl (rw (e, f, g) refl)
          ]
        ]
      ]

  module _ (contains : String → String → Bool) (driver_text : String) (c : Context)
      (r : TransferRequest F) (user : String) (i : ℕ) where
    -- The part of the handler after the service.
    rest : Handler (Reply F)
    rest = do
      source ←
          balance_after user i r.source_id r.source_type "Failed to fetch updated source balance"
      dest ←
          balance_after user i r.dest_id r.dest_type "Failed to fetch updated destination balance"
      logging i "TransferBalance" "Transferred balance within main account" c.ip
      pure (show 200 (Body.both_balances source dest))

    rest-Leaves : Leaves rest
    unfolding rest
    rest-Leaves =
        bind-Leaves
          (balance_after user i r.source_id r.source_type "Failed to fetch updated source balance")
          shown
          (balance_after-Leaves user i r.source_id r.source_type
            "Failed to fetch updated source balance")
          (λ source.
            bind-Leaves
              (balance_after user i r.dest_id r.dest_type
                "Failed to fetch updated destination balance")
              (logged source)
              (balance_after-Leaves user i r.dest_id r.dest_type
                "Failed to fetch updated destination balance")
              (λ dest.
                bind-Leaves
                  (logging i "TransferBalance" "Transferred balance within main account" c.ip)
                  (λ _. pure (show 200 (Body.both_balances source dest)))
                  (logging-Leaves i "TransferBalance" "Transferred balance within main account"
                    c.ip)
                  (λ _ w. refl)))
      where
        logged : F → F → Handler (Reply F)
        logged source dest = do
          logging i "TransferBalance" "Transferred balance within main account" c.ip
          pure (show 200 (Body.both_balances source dest))

        shown : F → Handler (Reply F)
        shown source = do
          dest ←
              balance_after user i r.dest_id r.dest_type
                "Failed to fetch updated destination balance"
          logged source dest

    abbrev serviced : World → Result (Unit {0}) × World
    serviced = transfer_balance i r.source_id r.dest_id r.amount r.source_type r.dest_type

    -- The users and the accounts are as the service leaves them, or as they were, and the handler
    -- shows balances only where the service returned no error.
    abbrev pub Posts : World → Answer F (Reply F) → World → Type 0
    Posts w (go z) w' = ((serviced w).0 ≡ ok tt) × (books w' ≡ books (serviced w).1)
    Posts w (reply z) w' = (books w' ≡ books w) ⊎ (books w' ≡ books (serviced w).1)
    Posts w crashed w' = (books w' ≡ books w) ⊎ (books w' ≡ books (serviced w).1)

    served :
        (w : World) (x : Answer F (Reply F)) (w' : World)
        → (serviced w).0 ≡ ok tt
        → books w' ≡ books (serviced w).1
        → Posts w x w'
    served w (go z) w' e h = (e, h)
    served w (reply z) w' e h = inr h
    served w crashed w' e h = inr h

    pub transfer-Posts :
        (w : World)
        → c.user_id ≡ some user
        → o.from_hex user ≡ some i
        → let (x, w') = transfer contains driver_text c (some r) w in Posts w x w'
    unfolding transfer caller rest
    transfer-Posts w named read = elim (check_transfer-stays r w) [
      | inr (z, e) ↦ rw (named, read, e) (inl refl)
      | inl e ↦ rw (named, read, e) (split (serviced w).0 refl)
    ]
      where
        split :
            (y : Result (Unit {0}))
            → (serviced w).0 ≡ y
            → let (x, w') =
                follow
                  (answer_of y (transfer_error contains driver_text))
                  (λ _. rest)
                  (serviced w).1 in
              Posts w x w'
        split (ok done) e =
            served w (rest (serviced w).1).0 (rest (serviced w).1).1 e (rest-Leaves (serviced w).1)
        split (err d) e = inr refl
        split panic e = inr refl

    -- What the service does to the books, by its result.
    abbrev pub Makes : Books → Result (Unit {0}) → Books → Type 0
    Makes = Transferred i r.source_id r.dest_id r.amount r.source_type r.dest_type

    -- What a posted transfer did, by its answer.
    abbrev pub Settles : World → Answer F (Reply F) → World → Type 0
    Settles w (go z) w' = Makes (books w) (ok tt) (books w')
    Settles w (reply z) w' = (books w' ≡ books w) ⊎ Makes (books w) (serviced w).0 (books w')
    Settles w crashed w' = (books w' ≡ books w) ⊎ Makes (books w) (serviced w).0 (books w')

    -- A transfer that a user posts and that is answered with balances was made: both sides are of
    -- that user and of the types that are named, and the books differ by its debit and its credit
    -- alone. One that ends otherwise left the users and the accounts as they were, or as the
    -- service left them, which may have made the transfer.
    pub transfer-Settles :
        (w : World)
        → c.user_id ≡ some user
        → o.from_hex user ≡ some i
        → let (x, w') = transfer contains driver_text c (some r) w in Settles w x w'
    transfer-Settles w named read =
        let (x, w') = transfer contains driver_text c (some r) w in
        settles x w' (transfer-Posts w named read)
      where
        done : Makes (books w) (serviced w).0 (books (serviced w).1)
        done =
            transfer_balance-Transferred i r.source_id r.dest_id r.amount r.source_type r.dest_type
              w

        left :
            (w' : World)
            → books w' ≡ books (serviced w).1
            → Makes (books w) (serviced w).0 (books w')
        left w' h = subst (λ b. Makes (books w) (serviced w).0 b) (sym h) done

        settles : (x : Answer F (Reply F)) (w' : World) → Posts w x w' → Settles w x w'
        settles (go z) w' (e, h) =
            subst (λ b. Makes (books w) (ok tt) b) (sym h)
              (subst (λ y. Makes (books w) y (books (serviced w).1)) e done)
        settles (reply z) w' (inl h) = inl h
        settles (reply z) w' (inr h) = inr (left w' h)
        settles crashed w' (inl h) = inl h
        settles crashed w' (inr h) = inr (left w' h)
