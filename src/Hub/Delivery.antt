-- ===== src/Hub/Delivery.antt =====
-- Who gets a price: subscriptions and the non-blocking send.
use fxtrader.Base.{
  inl, inr, String, false, List, [], ◌∷◌, length, contains, ◌<◌, ◌≤◌, ◌≡◌, refl, arith, eq_iff,
  Bool-cases, ◌=s=◌,
}
use fxtrader.Outside.{Outside}
use fxtrader.Model.{PriceData}
use fxtrader.Hub.{Client, offer, remove, subscribe, unsubscribe, is_subscribed, give_price}

contains-remove : (s : String) (xs : List String) → contains (remove s xs) s ≡ false
unfolding remove
contains-remove s [] = refl
contains-remove s (x ∷ xs) = elim (Bool-cases (x =s= s)) [
  | inl e ↦ rw e (contains-remove s xs)
  | inr e ↦ rw (e, e, contains-remove s xs) refl
]

module _ ⦃o : Outside⦄ where
  open o use {F}

  -- A client that has just subscribed to the symbol of a price gets the price if its buffer has
  -- room, and loses it and nothing else if the buffer is full; one that has just unsubscribed is
  -- not changed by it.
  pub give_price_lem :
      (p : PriceData F) (c : Client F)
      → (length c.send < 256 → (give_price p (subscribe p.symbol c)).send ≡ p ∷ c.send)
        × (256 ≤ length c.send → give_price p (subscribe p.symbol c) ≡ subscribe p.symbol c)
        × (give_price p (unsubscribe p.symbol c) ≡ unsubscribe p.symbol c)
  unfolding give_price subscribe unsubscribe is_subscribed offer
  give_price_lem p c = (
    λ h. ground (arith, eq_iff p.symbol p.symbol),
    λ h. ground (arith, eq_iff p.symbol p.symbol),
    ground (arith, contains-remove p.symbol c.symbols),
  )
