-- ===== src/Service/Trade/Place/Refused.antt =====
-- What an order ends with that the bridge refuses, and the texts of the refusals.
use fxtrader.Base.{
  ℕ, Bool, true, false, not, List, [], ◌∷◌, ◌≡◌, ◌≢◌, ◌↔◌, refl, arith, eq_iff, ◌==◌, ◌=s=◌, ◌!=s◌,
  ◌&&◌, ◌||◌, Bool-cases, inl, inr,
}
use fxtrader.Base.Result.{err, new}
use fxtrader.Outside.{Outside}
use fxtrader.Model.Retcodes.{Retcode, trade_retcodes, in_language, text_in, retcode_text}
use fxtrader.Model.Trade.{TradeHistory, TradeResponse}
use fxtrader.World.{World}
use fxtrader.Service.Trade.Place.{Order, Accepted, answered, with_status, refusal}
use fxtrader.Service.Trade.Place.Exchange.{abandon_lem}

unfoldable pub knows : List Retcode → ℕ → Bool
knows [] c = false
knows (r ∷ rs) c = (r.code == c) || knows rs c

unfoldable all_persian : List Retcode → Bool
all_persian [] = true
all_persian (r ∷ rs) = (r.fa !=s "") && all_persian rs

text-knows :
    (rs : List Retcode) (c : ℕ)
    → all_persian rs ≡ true
    → (text_in rs c "fa" =s= "") ≡ not (knows rs c)
unfolding text_in in_language knows all_persian
text-knows [] c h = ground arith
text-knows (r ∷ rs) c h =
    let full : (r.fa =s= "") ≡ false = ground (arith, h) in
    let rest : all_persian rs ≡ true = ground (arith, h) in
    elim (Bool-cases (r.code == c)) [
      | inl e ↦ rw (e, full) refl
      | inr e ↦ rw e (text-knows rs c rest)
    ]

every_text : all_persian trade_retcodes ≡ true
unfolding all_persian
every_text = refl

module _ ⦃o : Outside⦄ where
  open o use {F}

  -- An answer that names the order and says neither MATCHED nor PENDING ends the placement with the
  -- Persian text of its code as the error, and the text is empty exactly if the table of the codes
  -- does not have the code.
  pub answered-refused :
      (q : Order F) (p : Accepted F) (t : TradeHistory F) (r : TradeResponse F) (w : World)
      → r.trade_id ≡ o.to_hex t.id
      → r.status ≢ "MATCHED"
      → r.status ≢ "PENDING"
      → ((answered q p t r w).0 ≡ err (new (retcode_text r.trade_retcode "fa")))
        × (retcode_text r.trade_retcode "fa" ≡ "" ↔ knows trade_retcodes r.trade_retcode ≡ false)
  unfolding answered
  answered-refused q p t r w same matched pending =
      let c = r.trade_retcode in
      let known = text-knows trade_retcodes c every_text in
      let empty = eq_iff (retcode_text c "fa") "" in
      let (raised, _) =
        abandon_lem q p {A = TradeHistory F × TradeResponse F} (with_status r.status r t) r.status
          (refusal r) w in
      (
        ground (
          arith,
          same,
          matched,
          pending,
          raised,
          eq_iff r.trade_id (o.to_hex t.id),
          eq_iff r.status "MATCHED",
          eq_iff r.status "PENDING",
        ),
        ((λ e. ground (arith, known, empty, e)), (λ e. ground (arith, known, empty, e))),
      )
