-- ===== src/Repo/Trades/Expiry.antt =====
-- The trades that `GetTradesByUserID` returns, against a direct description of them.
use fxtrader.Base.{
  true, false, ℕ, suc, inl, inr, List, [], ◌∷◌, map, ltb, Option, none, some, Option-cases, ◌=s=◌,
  ◌&&◌, ◌≡◌, refl, ap, Bool-cases, if◌then◌else◌,
}
use fxtrader.Base.Result.{Result, ok, err, panic}
use fxtrader.Outside.{Outside}
use fxtrader.Model.Trade.{TradeHistory}
use fxtrader.World.{World, called, continue, pure}
use fxtrader.Repo.Trades.{
  set_status, has_expired, write_expired, expire, get_trades_by_user_id, has_user,
}

module _ ⦃o : Outside⦄ where
  open o use {F}

  -- A trade as a reader at that time sees it, by its expiration.
  pub seen_with : ℕ → Option ℕ → TradeHistory F → TradeHistory F
  seen_with time none t = t
  seen_with time (some e) t =
      if ltb e time && (t.status =s= "PENDING") then record t { status = "EXPIRED" } else t

  abbrev pub seen_at : ℕ → TradeHistory F → TradeHistory F
  seen_at time t = seen_with time t.expiration t

  seen_at_lem :
      (time : ℕ) (t : TradeHistory F)
      → (if has_expired time t then set_status "EXPIRED" t else t) ≡ seen_at time t
  unfolding has_expired set_status seen_with
  seen_at_lem time t = elim (Option-cases t.expiration) [
    | inl h ↦ rw h refl
    | inr (e, h) ↦ rw h refl
  ]

  expired_lem :
      (time : ℕ) (t : TradeHistory F)
      → has_expired time t ≡ true
      → set_status "EXPIRED" t ≡ seen_at time t
  expired_lem time t e = rw e at (seen_at_lem time t)

  unexpired_lem : (time : ℕ) (t : TradeHistory F) → has_expired time t ≡ false → t ≡ seen_at time t
  unexpired_lem time t e = rw e at (seen_at_lem time t)

  abbrev pub Shows : List (TradeHistory F) → Result (List (TradeHistory F)) → Type 0
  Shows expected (ok ts) = ts ≡ expected
  Shows expected (err e) = Unit
  Shows expected panic = ⊥

  Shows-cons :
      (t : TradeHistory F) (ts : List (TradeHistory F)) (r : Result (List (TradeHistory F)))
      (w : World)
      → Shows ts r
      → Shows (t ∷ ts) (continue r (λ ts'. pure (t ∷ ts')) w).0
  Shows-cons t ts (ok x) w h = ap (λ y. t ∷ y) h
  Shows-cons t ts (err e) w h = tt
  Shows-cons t ts panic w h = h

  expire-Shows :
      (time : ℕ) (ts : List (TradeHistory F)) (w : World)
      → Shows (map (seen_at time) ts) (expire time ts w).0
  unfolding expire write_expired
  expire-Shows time [] w = refl
  expire-Shows time (t ∷ ts) w = elim (Bool-cases (has_expired time t)) [
    | inl e ↦ elim (Bool-cases (o.fails w.calls)) [
      | inl lost ↦ rw (e, lost) tt
      | inr stored ↦
          let seen : set_status "EXPIRED" t ≡ seen_at time t = expired_lem time t e in
          rw (e, stored, ← seen) (Shows-cons _ _ _ _ (expire-Shows time ts _))
    ]
    | inr e ↦
        let seen : t ≡ seen_at time t = unexpired_lem time t e in
        rw (e, ← seen) (Shows-cons _ _ _ _ (expire-Shows time ts w))
  ]

  -- The trades of a user that a reader gets, where it gets an answer, are those that the
  -- collection has for the user, each as it was but that one with an expiration before the time
  -- of the call and the status PENDING has the status EXPIRED. The method never panics.
  pub get_trades_by_user_id-Shows :
      (user : ℕ) (w : World)
      → Shows
          (map (seen_at (o.clock (suc w.calls))) (o.find (TradeHistory F) (has_user user) w.trades))
          (get_trades_by_user_id user w).0
  unfolding get_trades_by_user_id
  get_trades_by_user_id-Shows user w = elim (Bool-cases (o.fails w.calls)) [
    | inl lost ↦ rw lost tt
    | inr read ↦ rw read (
        expire-Shows (o.clock (suc w.calls)) (o.find (TradeHistory F) (has_user user) w.trades)
          (called (called w)))
  ]
