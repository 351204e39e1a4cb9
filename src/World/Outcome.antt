-- ===== src/World/Outcome.antt =====
-- How an action ends, and the case rule for a sequence of two.
use fxtrader.Base.{◌≡◌, refl}
use fxtrader.Base.Result.{Error, Result, ok, err, panic}
use fxtrader.Outside.{Outside}
use fxtrader.World.{World, Action, continue, ◌>>=◌}

module _ ⦃o : Outside⦄ where
  -- `P` holds of the result and the final state of `m`, started in `w`.
  abbrev pub Ends : {A : Type 0} → (Result A → World → Type 0) → Action A → World → Type 0
  Ends P m w = P (m w).0 (m w).1

  module _ {A B : Type 0} where
    Ends-continue :
        (P : Result B → World → Type 0) (r : Result A) (f : A → Action B) (w : World)
        → ((a : A) → r ≡ ok a → Ends P (f a) w)
        → ((e : Error) → r ≡ err e → P (err e) w)
        → (r ≡ panic → P panic w)
        → Ends P (λ v. continue r f v) w
    Ends-continue P (ok a) f w hok herr hpanic = hok a refl
    Ends-continue P (err e) f w hok herr hpanic = herr e refl
    Ends-continue P panic f w hok herr hpanic = hpanic refl

    -- A sequence ends in `P` if it does after each way in which the first action ends.
    pub Ends-bind :
        (P : Result B → World → Type 0) (m : Action A) (f : A → Action B) (w : World)
        → ((a : A) → (m w).0 ≡ ok a → Ends P (f a) (m w).1)
        → ((e : Error) → (m w).0 ≡ err e → P (err e) (m w).1)
        → ((m w).0 ≡ panic → P panic (m w).1)
        → Ends P (m >>= f) w
    Ends-bind P m f w = Ends-continue P (m w).0 f (m w).1
