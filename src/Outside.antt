-- ===== src/Outside.antt =====
-- What the backend uses and this repository does not implement: `float64`, the object ids of
-- `go.mongodb.org/mongo-driver`, its collections, the clock, and whether a call to a service fails.
pub mod Laws
use fxtrader.Base.{ℕ, String, Bool, Option, List}
use fxtrader.Base.Int.{ℤ}

pub record Outside : Type 1 where
  -- `float64`; no law of arithmetic is assumed
  pub F : Type 0
  pub float : ℤ → F
  -- the literal 0.01
  pub cent : F
  pub add : F → F → F
  pub sub : F → F → F
  pub mul : F → F → F
  pub div : F → F → F
  pub neg : F → F
  pub min : F → F → F
  pub lt : F → F → Bool
  pub le : F → F → Bool
  -- the conversion `int(x)`, and the time that `time.Unix` makes of seconds
  pub to_int : F → ℤ
  pub unix : F → ℕ
  -- `primitive.ObjectIDFromHex`, `ObjectID.Hex`, and the id that `NewObjectID` gives as call `n`
  pub from_hex : String → Option ℕ
  pub to_hex : ℕ → String
  pub new_id : ℕ → ℕ
  -- `time.Now` as call `n`
  pub clock : ℕ → ℕ
  -- Whether call `n` to the database or on a connection returns an error; it then had no effect.
  pub fails : ℕ → Bool
  -- A collection of documents. A filter is a test, `$set` and `$inc` are functions.
  pub Coll : Type 0 → Type 0
  pub find_one : (D : Type 0) → (D → Bool) → Coll D → Option D
  pub find : (D : Type 0) → (D → Bool) → Coll D → List D
  -- `Find` with `SetSort` by a key, descending; with `SetSkip` and `SetLimit`
  pub find_sorted : (D : Type 0) → (D → Bool) → (D → ℕ) → Coll D → List D
  pub find_page : (D : Type 0) → (D → Bool) → ℤ → ℤ → Coll D → List D
  pub find_sorted_page : (D : Type 0) → (D → Bool) → (D → ℕ) → ℤ → ℤ → Coll D → List D
  pub count : (D : Type 0) → (D → Bool) → Coll D → ℕ
  -- the collection afterwards and `MatchedCount`, or `DeletedCount`
  pub update_one : (D : Type 0) → (D → Bool) → (D → D) → Coll D → Coll D × ℕ
  pub upsert_one : (D : Type 0) → (D → Bool) → (D → D) → D → Coll D → Coll D
  pub insert_one : (D : Type 0) → D → Coll D → Coll D
  pub delete_one : (D : Type 0) → (D → Bool) → Coll D → Coll D × ℕ
