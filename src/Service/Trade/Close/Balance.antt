-- ===== src/Service/Trade/Close/Balance.antt =====
-- `RequestBalance` where nothing is ever put on `balanceChan`.
use fxtrader.Base.{suc, String, List, [], ◌∷◌, ◌≡◌, ◌≢◌, ◌⊎◌, inl, inr, ap, refl, arith, ◌∙◌}
use fxtrader.Base.Result.{Error, Result, ok, err, panic, driver, wrap}
use fxtrader.Outside.{Outside}
use fxtrader.Model.Trade.{balance_request, Request}
use fxtrader.World.{World, on_error, with_error}
use fxtrader.World.Outcome.{Ends-bind}
use fxtrader.Repo.Users.{get_user_by_id}
use fxtrader.Repo.Accounts.{get_account_by_id}
use fxtrader.Service.Trade.Channels.{send_to_mt5, send_loop}
use fxtrader.Service.Trade.Close.{balance_account, await_balance, request_balance}

module _ ⦃o : Outside⦄ where
  open o use {F}

  -- The result is an error.
  abbrev pub Fails : {A : Type 0} → Result A → Type 0
  Fails (ok _) = ⊥
  Fails (err _) = Unit
  Fails panic = ⊥

  -- The other goroutines leave the channel of balances empty.
  abbrev pub NobodyAnswers : (World → World) → Type 0
  NobodyAnswers others = (w : World) → w.balance_chan ≡ [] → (others w).balance_chan ≡ []

  -- The collections that copying writes are the same.
  abbrev pub Kept : World → World → Type 0
  Kept w w' =
      (w'.subscriptions ≡ w.subscriptions)
      × (w'.copy_trades ≡ w.copy_trades)
      × (w'.trades ≡ w.trades)
      × (w'.accounts ≡ w.accounts)

  -- None of them was written, except by the other goroutines during the wait, if it came to one.
  abbrev pub WritesNothing : (World → World) → World → World → Type 0
  WritesNothing others w w' =
      Kept w w' ⊎ ((waiting : World) × Kept w waiting × Kept (others waiting) w')

  -- An error, for want of a balance, and nothing written.
  abbrev pub Refused : {A : Type 0} → (World → World) → World → Result A → World → Type 0
  Refused others w x w' = Fails x × WritesNothing others w w'

  send_loop_frame :
      (r : Request F) (e : Error) (cs : List String) (w : World)
      → let (x, w') = send_loop r e cs w in
        (x ≢ panic) × (w' ≡ record w { calls = w'.calls; sent = w'.sent })
  unfolding send_loop
  send_loop_frame r e [] w = ground arith
  send_loop_frame r e (c ∷ cs) w =
      ground (arith, send_loop_frame r driver cs (record w { calls = suc w.calls }))

  send_to_mt5_frame :
      (r : Request F) (w : World)
      → let (x, w') = send_to_mt5 r w in
        (x ≢ panic) × (w' ≡ record w { calls = w'.calls; sent = w'.sent })
  unfolding send_to_mt5
  send_to_mt5_frame r w = ground (arith, send_loop_frame r driver w.connections w)

  balance_account_frame :
      (user account type : String) (w : World)
      → let (x, w') = balance_account user account type w in
        (x ≢ panic) × (w' ≡ record w { calls = w'.calls })
  unfolding balance_account get_user_by_id get_account_by_id
  balance_account_frame user account type w = ground arith

  await_balance-Refused :
      (others : World → World) (user account type : String) (w w1 : World)
      → NobodyAnswers others
      → w1.balance_chan ≡ []
      → Kept w w1
      → let (x, w') = await_balance others user account type w1 in Refused others w x w'
  unfolding await_balance
  await_balance-Refused others user account type w w1 none empty kept =
      rw (none w1 empty) (tt, inr (w1, kept, (refl, refl, refl, refl)))

  -- What leaves the collections and the channel of balances alone.
  abbrev pub Same : World → World → Type 0
  Same w w' = (w'.balance_chan ≡ w.balance_chan) × Kept w w'

  Same-sent : (w w' : World) → w' ≡ record w { calls = w'.calls; sent = w'.sent } → Same w w'
  Same-sent w w' h = (
    ap (λ v. v.balance_chan) h,
    (
      ap (λ v. v.subscriptions) h,
      ap (λ v. v.copy_trades) h,
      ap (λ v. v.trades) h,
      ap (λ v. v.accounts) h,
    ),
  )

  Same-called : (w w' : World) → w' ≡ record w { calls = w'.calls } → Same w w'
  Same-called w w' h = (
    ap (λ v. v.balance_chan) h,
    (
      ap (λ v. v.subscriptions) h,
      ap (λ v. v.copy_trades) h,
      ap (λ v. v.trades) h,
      ap (λ v. v.accounts) h,
    ),
  )

  pub Same-trans : (w w1 w2 : World) → Same w w1 → Same w1 w2 → Same w w2
  Same-trans w w1 w2 (a, (b, c, d, e)) (a', (b', c', d', e')) =
      (a' ∙ a, (b' ∙ b, c' ∙ c, d' ∙ d, e' ∙ e))

  -- While the channel of balances is empty and the other goroutines leave it so, every request of
  -- a balance returns an error and writes none of the collections.
  pub request_balance-Refused :
      (others : World → World) (user account type : String) (w : World)
      → NobodyAnswers others
      → w.balance_chan ≡ []
      → let (x, w') = request_balance others user account type w in Refused others w x w'
  unfolding request_balance
  request_balance-Refused others user account type w none empty =
      let P : Result F → World → Type 0 = Refused others w in
      let (fine, frame) = balance_account_frame user account type w in
      let w1 = (balance_account user account type w).1 in
      let same = Same-called w w1 frame in
      Ends-bind P (balance_account user account type) _ w
        (λ a h.
          let r = balance_request user account type a.wallet_id in
          let w2 = (send_to_mt5 r w1).1 in
          let (fine', frame') = send_to_mt5_frame r w1 in
          let same' = Same-trans w w1 w2 same (Same-sent w1 w2 frame') in
          Ends-bind P (on_error (send_to_mt5 r) (wrap "failed to send balance request")) _ w1
            (λ u h'.
              await_balance-Refused others user account type w w2 none (same'.0 ∙ empty) same'.1)
            (λ e h'. (tt, inl same'.1)) (λ h'. absurd (fine' (on_error_panic _ _ h'))))
        (λ e h. (tt, inl same.1)) (λ h. absurd (fine h))
    where
      on_error_panic :
          {A : Type 0} (x : Result A) (f : Error → Error) → with_error x f ≡ panic → x ≡ panic
      on_error_panic x f h = ground arith
