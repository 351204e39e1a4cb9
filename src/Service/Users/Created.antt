-- ===== src/Service/Users/Created.antt =====
-- What the creation of an account stores.
use fxtrader.Base.{ℕ, suc, false, ◌≡◌, ◌≢◌, ◌⊎◌, arith, eq_iff, ==_iff}
use fxtrader.Base.Int.{pos}
use fxtrader.Base.Result.{Result, ok, err, panic}
use fxtrader.Outside.{Outside}
use fxtrader.Model.{Account}
use fxtrader.World.{World}
use fxtrader.Repo.Accounts.{save_account}
use fxtrader.Service.Users.{create_account}

module _ ⦃o : Outside⦄ where
  open o use {F, float}

  -- The account as the collection has it: a new one has an id and the time, and is not active.
  abbrev pub fresh : ℕ → Account F → Account F
  fresh n a = record a {
    id = o.new_id n;
    registration_date = o.clock (suc n);
    is_active = false;
    balance = float (pos 0);
  }

  abbrev pub AccountEnds : Account F → World → Result (Unit {0}) → World → Type 0
  AccountEnds a w (ok _) w' =
      ((a.account_type ≡ "demo") ⊎ (a.account_type ≡ "real"))
      × (a.id ≡ 0 → w'.accounts ≡ o.insert_one (Account F) (fresh w.calls a) w.accounts)
      × (a.id ≢ 0
          → w'.accounts
            ≡ o.insert_one (Account F) (record a { balance = float (pos 0) }) w.accounts)
  AccountEnds a w (err _) w' = w'.accounts ≡ w.accounts
  AccountEnds a w panic w' = ⊥

  -- An account that is created is a demo or a real account and is inserted with the balance zero,
  -- whatever balance it came with; one that came without an id also gets an id and the time, and
  -- is not active. If there is an error, the accounts are unchanged. The method never panics.
  pub create_account-AccountEnds :
      (a : Account F) (w : World) → let (r, w') = create_account a w in AccountEnds a w r w'
  unfolding create_account save_account
  create_account-AccountEnds a w =
      ground (arith, eq_iff a.account_type "demo", eq_iff a.account_type "real", ==_iff a.id 0)
