-- ===== src/Service/Transfer/Mains.antt =====
-- A transfer from the main balance to the main balance.
use fxtrader.Base.{ℕ, String, false, suc, none, some, ◌≡◌, refl, sym, subst, arith, ==_iff}
use fxtrader.Base.Int.{pos}
use fxtrader.Base.Result.{ok}
use fxtrader.Outside.{Outside}
use fxtrader.Outside.Laws.{FindsMatching, UpdatesFound, NeverFails}
use fxtrader.Model.{User}
use fxtrader.World.{World, called}
use fxtrader.Repo.Users.{has_id, replaced_by, update_user, get_user_by_id}
use fxtrader.Service.Transfer.{
  Side, balance_of, with_balance, load_source, load_dest, save_side, crosses, settle, commit,
  transfer_balance,
}

module _ ⦃o : Outside⦄ (matching : FindsMatching) (found : UpdatesFound) (up : NeverFails) where
  open o use {F, float, add, sub, lt, le}

  abbrev main_side : User F → Side F
  main_side u = record { user = u; account = none }

  load_source_main :
      (user : ℕ) (id : String) (u : User F) (w : World)
      → o.find_one (User F) (has_id user) w.users ≡ some u
      → load_source user id "main" w ≡ (ok (main_side u), called w)
  unfolding load_source get_user_by_id
  load_source_main user id u w e = ground (arith, up w.calls)

  load_dest_main :
      (user : ℕ) (id : String) (u : User F) (w : World)
      → o.find_one (User F) (has_id user) w.users ≡ some u
      → load_dest user id "main" w ≡ (ok (main_side u), called w)
  unfolding load_dest get_user_by_id
  load_dest_main user id u w e = ground (arith, up w.calls)

  abbrev replace : User F → World → World
  replace u w = record (called w) {
    users = (o.update_one (User F) (has_id u.id) (replaced_by u) w.users).0;
  }

  settle_mains :
      (x : F) (u : User F) (w : World)
      → lt u.balance x ≡ false
      → settle x "main" "main" (main_side u) (main_side u) w ≡ (
        ok tt,
        replace
            (record u { balance = add u.balance x })
            (replace (record u { balance = sub u.balance x }) w),
      )
  unfolding settle save_side update_user balance_of with_balance crosses
  settle_mains x u w covered = ground (arith, up w.calls, up (suc w.calls))

  abbrev with_main : F → User F → User F
  with_main x u = record u { balance = x }

  transfer_mains :
      (user : ℕ) (source_id dest_id : String) (x : F) (u : User F) (w : World)
      → o.find_one (User F) (has_id user) w.users ≡ some u
      → le x (float (pos 0)) ≡ false
      → lt u.balance x ≡ false
      → transfer_balance user source_id dest_id x "main" "main" w ≡ (
        ok tt,
        called (
            replace
              (with_main (add u.balance x) u)
              (replace (with_main (sub u.balance x) u) (called (called (called w))))),
      )
  unfolding transfer_balance commit
  transfer_mains user source_id dest_id x u w e positive covered =
      let w1 = called w in
      let w2 = called w1 in
      let w3 = called w2 in
      ground (
        arith,
        up w.calls,
        up (suc (suc (suc (suc (suc w.calls))))),
        load_source_main user source_id u w1 e,
        load_dest_main user dest_id u w2 e,
        settle_mains x u w3 covered,
      )

  replaced_twice :
      (u a b : User F) (c : o.Coll (User F))
      → o.find_one (User F) (has_id u.id) c ≡ some u
      → a.id ≡ u.id
      → b.id ≡ u.id
      → o.find_one
          (User F)
          (has_id u.id)
          (o.update_one
            (User F)
            (has_id u.id)
            (replaced_by b)
            (o.update_one (User F) (has_id u.id) (replaced_by a) c).0).0
        ≡ some b
  unfolding has_id replaced_by
  replaced_twice u a b c e same_a same_b =
      found (User F) (has_id u.id) (replaced_by b) _ a
        (found (User F) (has_id u.id) (replaced_by a) c u e (ground arith)) (ground arith)

  -- The statement at the id of the document.
  own_main :
      (source_id dest_id : String) (x : F) (u : User F) (w : World)
      → o.find_one (User F) (has_id u.id) w.users ≡ some u
      → le x (float (pos 0)) ≡ false
      → lt u.balance x ≡ false
      → let (r, w') = transfer_balance u.id source_id dest_id x "main" "main" w in
        (r ≡ ok tt)
        × (o.find_one (User F) (has_id u.id) w'.users
            ≡ some (record u { balance = add u.balance x }))
  own_main source_id dest_id x u w e positive covered =
      rw (transfer_mains u.id source_id dest_id x u w e positive covered)
        (refl, replaced_twice u _ _ w.users e refl refl)

  id_of_found :
      (user : ℕ) (u : User F) (c : o.Coll (User F))
      → o.find_one (User F) (has_id user) c ≡ some u
      → u.id ≡ user
  unfolding has_id
  id_of_found user u c e = (==_iff u.id user).0 (matching (User F) (has_id user) c u e)

  -- Where no call fails, lookups answer matching documents and updates are found again: a
  -- transfer of a positive amount from the main balance to the main
  -- balance, whatever ids it names, succeeds if the balance is not below the amount, and the user
  -- then has the amount more: both sides are copies of one document, and the credited copy is
  -- written over the debited one.
  pub transfer_between_mains :
      (user : ℕ) (source_id dest_id : String) (x : F) (u : User F) (w : World)
      → o.find_one (User F) (has_id user) w.users ≡ some u
      → le x (float (pos 0)) ≡ false
      → lt u.balance x ≡ false
      → let (r, w') = transfer_balance user source_id dest_id x "main" "main" w in
        (r ≡ ok tt)
        × (o.find_one (User F) (has_id user) w'.users
            ≡ some (record u { balance = add u.balance x }))
  transfer_between_mains user source_id dest_id x u w e positive covered =
      let same = id_of_found user u w.users e in
      let own = subst (λ i. o.find_one (User F) (has_id i) w.users ≡ some u) (sym same) e in
      subst Minted same (own_main source_id dest_id x u w own positive covered)
    where
      Minted : ℕ → Type 0
      Minted i =
          let (r, w') = transfer_balance i source_id dest_id x "main" "main" w in
          (r ≡ ok tt)
          × (o.find_one (User F) (has_id i) w'.users
              ≡ some (record u { balance = add u.balance x }))
