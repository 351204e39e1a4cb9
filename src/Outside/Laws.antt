-- ===== src/Outside/Laws.antt =====
-- Documented behaviour of the collections and the ids, as hypotheses of the theorems that need it.
use fxtrader.Base.{ℕ, Bool, true, false, ◌≡◌, none, some}
use fxtrader.Outside.{Outside}

module _ ⦃o : Outside⦄ where
  -- `FindOne` answers a document that passes the filter.
  abbrev pub FindsMatching : Type 1
  FindsMatching =
      (D : Type 0) (p : D → Bool) (c : o.Coll D) (d : D) → o.find_one D p c ≡ some d → p d ≡ true

  -- After `UpdateOne`, `FindOne` by the same filter answers the changed document, if that still
  -- passes the filter.
  abbrev pub UpdatesFound : Type 1
  UpdatesFound =
      (D : Type 0) (p : D → Bool) (f : D → D) (c : o.Coll D) (d : D)
      → o.find_one D p c ≡ some d
      → p (f d) ≡ true
      → o.find_one D p (o.update_one D p f c).0 ≡ some (f d)

  -- So it does after an upsert of a document that is there.
  abbrev pub UpsertsFound : Type 1
  UpsertsFound =
      (D : Type 0) (p : D → Bool) (f : D → D) (new : D) (c : o.Coll D) (d : D)
      → o.find_one D p c ≡ some d
      → p (f d) ≡ true
      → o.find_one D p (o.upsert_one D p f new c) ≡ some (f d)

  -- No call fails.
  abbrev pub NeverFails : Type 0
  NeverFails = (n : ℕ) → o.fails n ≡ false

  -- After `InsertOne` of a document that passes a filter which none passed, `FindOne` answers it.
  abbrev pub InsertsFound : Type 1
  InsertsFound =
      (D : Type 0) (p : D → Bool) (c : o.Coll D) (d : D)
      → o.find_one D p c ≡ none
      → p d ≡ true
      → o.find_one D p (o.insert_one D d c) ≡ some d
