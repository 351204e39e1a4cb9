-- ===== src/Api/Overview/Pages.antt =====
-- How many pages api/admin_handlers.go says that there are.
use fxtrader.Base.{ℕ, suc, ◌+◌, ◌-◌, ◌*◌, ◌/◌, ◌≤◌, ◌<◌, ◌≡◌, arith, ap}
use fxtrader.Base.Int.{ℤ, pos, negsuc, ◌+ℤ◌, ◌-ℤ◌, ◌≤ℤ◌, wrap64, from_bits, quot}
use Prim.Native.Nat.{zero, ◌^◌}
use native.Mathlib.Nat.{div-add-mod', mod-lt, zero-div}
use fxtrader.Outside.{Outside}
use fxtrader.Api.Overview.{total_pages}

-- The sum of the handler before its division.
wrapped :
    (a b : ℕ) → 1 ≤ b → a + b ≤ 2 ^ 63 → wrap64 (wrap64 (pos a +ℤ pos b) -ℤ pos 1) ≡ pos (a + b - 1)
unfolding wrap64 from_bits ◌+ℤ◌ ◌-ℤ◌
wrapped a b p h = ground arith

-- The sum wraps round to a number that is not positive.
overflown :
    (a b : ℕ) → 2 ^ 63 < a + b → a + b ≤ 2 ^ 64 → wrap64 (wrap64 (pos a +ℤ pos b) -ℤ pos 1) ≤ℤ pos 0
unfolding wrap64 from_bits ◌+ℤ◌ ◌-ℤ◌
overflown a b h l = ground arith

quot-nonpositive : (x : ℤ) (d : ℕ) → x ≤ℤ pos 0 → quot x d ≤ℤ pos 0
unfolding quot
quot-nonpositive (pos zero) d h = rw (zero-div d) (omega arith)
quot-nonpositive (pos (suc n)) d h = omega arith
quot-nonpositive (negsuc n) d h = ground arith

-- The rounded quotient of a sum.
ceiling : (a b : ℕ) → 1 ≤ b → (a ≤ (a + b - 1) / b * b) × ((a + b - 1) / b * b < a + b)
ceiling a b h =
    let e = div-add-mod' (a + b - 1) b in
    let l = mod-lt (a + b - 1) {m = b} (omega arith) in (omega (arith, e, l), omega (arith, e, l))

module _ ⦃o : Outside⦄ where
  -- While the total and a positive limit add up to 2 ^ 63 at most, the pages hold all entries and
  -- the last one is needed; beyond that, up to the greatest values of the type, the number of
  -- pages is not positive.
  pub total_pages_lem :
      (total limit : ℕ)
      → 1 ≤ limit
      → (total + limit ≤ 2 ^ 63
          → (n : ℕ) × (total_pages total limit ≡ pos n)
            × (total ≤ n * limit)
            × (n * limit < total + limit))
        × (2 ^ 63 < total + limit → total + limit ≤ 2 ^ 64 → total_pages total limit ≤ℤ pos 0)
  unfolding total_pages quot
  total_pages_lem total limit h = (
    λ l.
        let (a, b) = ceiling total limit h in
        ((total + limit - 1) / limit, ap (λ x. quot x limit) (wrapped total limit h l), a, b),
    λ l m.
        quot-nonpositive (wrap64 (wrap64 (pos total +ℤ pos limit) -ℤ pos 1)) limit
          (overflown total limit l m),
  )
