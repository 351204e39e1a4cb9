-- ===== src/Base/Result.antt =====
-- What a Go function with an `error` result returns, a panic included.
use Prim.Native.String.{String}

-- `errors.New` and `fmt.Errorf`, with the values that the format names.
pub data Error : Type 0 where
  new : String → Error
  wrap : String → Error → Error
  with_text : String → String → Error
  -- `expected %s, got %s`
  mismatch : String → String → String → Error
  -- the error that a library returns: the database driver, a connection, bcrypt, a conversion
  driver : Error

pub data Result {ℓ} (A : Type ℓ) : Type ℓ where
  ok : A → Result A
  err : Error → Result A
  -- a nil dereference, or a send on a closed channel
  panic : Result A
