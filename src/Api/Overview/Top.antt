-- ===== src/Api/Overview/Top.antt =====
-- The most traded symbols of api/overview_handlers.go: the counts, the exchange sort, the first
-- five.
use fxtrader.Base.{
  ℕ, zero, suc, ◌+◌, ◌≤◌, String, List, [], ◌∷◌, ◌++◌, ◌≡◌, ◌⊎◌, refl, inl, inr, arith, eq_iff, map,
  length, take, drop, Bool-cases, ltb, ap, sym, subst, ◌∙◌, ◌=s=◌, if◌then◌else◌,
}
use mathlib.Core.List.{Perm}
use mathlib.Core.List.Perm
use fxtrader.Outside.{Outside}
use fxtrader.Model.{Transaction}
use fxtrader.Model.Trade.{TradeHistory}
use fxtrader.Api.{SymbolUsage}
use fxtrader.Api.Overview.{
  count_symbol, count_symbols, inner, sort_rounds, sort_usages, top_five, count_of, summary,
}

-- No symbol of the list has more than `n` trades.
abbrev pub IsBound : ℕ → List SymbolUsage → Type 0
IsBound n [] = Unit
IsBound n (u ∷ us) = (u.trade_count ≤ n) × IsBound n us

abbrev pub IsDescending : List SymbolUsage → Type 0
IsDescending [] = Unit
IsDescending (u ∷ us) = IsBound u.trade_count us × IsDescending us

IsBound-trans : {m n : ℕ} (us : List SymbolUsage) → m ≤ n → IsBound m us → IsBound n us
IsBound-trans [] l h = tt
IsBound-trans (u ∷ us) l h = (omega arith, IsBound-trans us l h.1)

-- One round of the loop on `i` puts the greatest element first.
inner_lem :
    (x : SymbolUsage) (xs : List SymbolUsage)
    → let (a, rest) = inner x xs in
      Perm (x ∷ xs) (a ∷ rest)
      × IsBound a.trade_count rest
      × (x.trade_count ≤ a.trade_count)
      × (length rest ≡ length xs)
unfolding inner
inner_lem x [] = (Perm.rfl, tt, omega arith, refl)
inner_lem x (y ∷ ys) = elim (Bool-cases (ltb x.trade_count y.trade_count)) [
  | inl e ↦
      let (p, b, l, n) = inner_lem y ys in
      rw e (
        Perm.trans (Perm.cons x p) (Perm.swap (inner y ys).0 x (inner y ys).1),
        (ground (arith, e), b),
        ground (arith, e),
        ap suc n,
      )
  | inr e ↦
      let (p, b, l, n) = inner_lem x ys in
      rw e (
        Perm.trans (Perm.swap y x ys)
            (Perm.trans (Perm.cons y p) (Perm.swap (inner x ys).0 y (inner x ys).1)),
        (ground (arith, e), b),
        l,
        ap suc n,
      )
]

inner-IsBound :
    (n : ℕ) (x : SymbolUsage) (xs : List SymbolUsage)
    → IsBound n (x ∷ xs)
    → IsBound n ((inner x xs).0 ∷ (inner x xs).1)
unfolding inner
inner-IsBound n x [] h = h
inner-IsBound n x (y ∷ ys) h = elim (Bool-cases (ltb x.trade_count y.trade_count)) [
  | inl e ↦ let k = inner-IsBound n y ys h.1 in rw e (k.0, (h.0, k.1))
  | inr e ↦ let k = inner-IsBound n x ys (h.0, h.1.1) in rw e (k.0, (h.1.0, k.1))
]

sort_rounds-IsBound :
    (k n : ℕ) (xs : List SymbolUsage) → IsBound n xs → IsBound n (sort_rounds k xs)
unfolding sort_rounds
sort_rounds-IsBound zero n xs h = h
sort_rounds-IsBound (suc k) n [] h = h
sort_rounds-IsBound (suc k) n (x ∷ xs) h =
    let (a, b) = inner-IsBound n x xs h in (a, sort_rounds-IsBound k n (inner x xs).1 b)

sort_rounds_lem :
    (k : ℕ) (xs : List SymbolUsage)
    → length xs ≤ k
    → Perm xs (sort_rounds k xs) × IsDescending (sort_rounds k xs)
unfolding sort_rounds
sort_rounds_lem zero [] h = (Perm.rfl, tt)
sort_rounds_lem zero (x ∷ xs) h = ground arith
sort_rounds_lem (suc k) [] h = (Perm.rfl, tt)
sort_rounds_lem (suc k) (x ∷ xs) h =
    let (p, b, l, n) = inner_lem x xs in
    let (q, d) = sort_rounds_lem k (inner x xs).1 (omega arith) in
    (
      Perm.trans p (Perm.cons (inner x xs).0 q),
      (sort_rounds-IsBound k (inner x xs).0.trade_count (inner x xs).1 b, d),
    )

take-drop : {A : Type 0} (n : ℕ) (xs : List A) → take n xs ++ drop n xs ≡ xs
take-drop n [] = refl
take-drop zero (x ∷ xs) = refl
take-drop (suc n) (x ∷ xs) = ap (◌∷◌ x) (take-drop n xs)

take_fits :
    {A : Type 0} (n : ℕ) (xs : List A)
    → (length (take n xs) ≡ n) ⊎ ((length (take n xs) ≤ n) × (drop n xs ≡ []))
take_fits n [] = inr (omega arith, refl)
take_fits zero (x ∷ xs) = inl refl
take_fits (suc n) (x ∷ xs) = elim (take_fits n xs) [
  | inl e ↦ inl (ap suc e)
  | inr (l, e) ↦ inr (omega arith, e)
]

-- The trades that a list of counts has for a symbol.
abbrev pub uses : String → List SymbolUsage → ℕ
uses s [] = 0
uses s (u ∷ us) = (if u.symbol_name =s= s then u.trade_count else 0) + uses s us

count_symbol-uses :
    (s t : String) (us : List SymbolUsage)
    → uses t (count_symbol s us) ≡ (if s =s= t then 1 else 0) + uses t us
unfolding count_symbol
count_symbol-uses s t [] = refl
count_symbol-uses s t (u ∷ us) = elim (Bool-cases (u.symbol_name =s= s)) [
  | inl e ↦ ground (arith, e, eq_iff u.symbol_name s, eq_iff u.symbol_name t, eq_iff s t)
  | inr e ↦ rw e (ground (arith, count_symbol-uses s t us))
]

count_symbols-uses :
    (ss : List String) (t : String) (us : List SymbolUsage)
    → uses t (count_symbols ss us) ≡ count_of (λ s. s =s= t) ss + uses t us
unfolding count_symbols count_of
count_symbols-uses [] t us = omega arith
count_symbols-uses (s ∷ ss) t us =
    ground (arith, count_symbols-uses ss t (count_symbol s us), count_symbol-uses s t us)

inner-uses :
    (t : String) (x : SymbolUsage) (xs : List SymbolUsage)
    → uses t ((inner x xs).0 ∷ (inner x xs).1) ≡ uses t (x ∷ xs)
unfolding inner
inner-uses t x [] = refl
inner-uses t x (y ∷ ys) = elim (Bool-cases (ltb x.trade_count y.trade_count)) [
  | inl e ↦ rw e (omega (arith, inner-uses t y ys))
  | inr e ↦ rw e (omega (arith, inner-uses t x ys))
]

sort_rounds-uses :
    (k : ℕ) (t : String) (xs : List SymbolUsage) → uses t (sort_rounds k xs) ≡ uses t xs
unfolding sort_rounds
sort_rounds-uses zero t xs = refl
sort_rounds-uses (suc k) t [] = refl
sort_rounds-uses (suc k) t (x ∷ xs) =
    let e = inner-uses t x xs in let r = sort_rounds-uses k t (inner x xs).1 in omega (arith, e, r)

module _ ⦃o : Outside⦄ where
  open o use {F}

  counted_trades :
      (t : String) (trades : List (TradeHistory F))
      → count_of (λ s. s =s= t) (map (λ x. x.symbol) trades) + 0
        ≡ count_of (λ x. x.symbol =s= t) trades
  unfolding count_of
  counted_trades t [] = omega arith
  counted_trades t (x ∷ xs) = ground (arith, counted_trades t xs)

  -- The top symbols of a summary and some others are the counted symbols in an order that never
  -- ascends, none lost or added, and they count the trades of every symbol exactly; the top ones
  -- are at most five, and there are others only beside five.
  pub summary_lem :
      (users symbols : ℕ) (trades : List (TradeHistory F)) (transactions : List (Transaction F))
      → let s = summary users trades transactions symbols in
        (rest : List SymbolUsage) × Perm
          (count_symbols (map (λ x. x.symbol) trades) [])
          (s.top_symbols ++ rest)
        × IsDescending (s.top_symbols ++ rest)
        × ((length s.top_symbols ≡ 5) ⊎ ((length s.top_symbols ≤ 5) × (rest ≡ [])))
        × ((t : String) → uses t (s.top_symbols ++ rest) ≡ count_of (λ x. x.symbol =s= t) trades)
  unfolding summary top_five sort_usages
  summary_lem users symbols trades transactions =
      let counted : List SymbolUsage = count_symbols (map (λ x. x.symbol) trades) [] in
      let sorted : List SymbolUsage = sort_usages counted in
      let (p, d) = sort_rounds_lem (length counted) counted (omega arith) in
      let e = sym (take-drop 5 sorted) in
      (
        drop 5 sorted,
        subst (Perm counted) e p,
        subst IsDescending e d,
        take_fits 5 sorted,
        λ t.
            subst (λ us. uses t us ≡ count_of (λ x. x.symbol =s= t) trades) e
              (sort_rounds-uses (length counted) t counted
                ∙ count_symbols-uses (map (λ x. x.symbol) trades) t []
                ∙ counted_trades t trades),
      )
