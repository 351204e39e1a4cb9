-- ===== src/Service/Copy/Unanswered.antt =====
-- Copy trades where nothing is ever put on `balanceChan`.
use fxtrader.Base.{not, ◌∙◌, suc, String, find?, [], ◌≡◌, refl, inl, inr, Option-cases, Bool-cases}
use fxtrader.Base.Result.{Error, Result, ok, err, panic, new}
use fxtrader.Outside.{Outside}
use fxtrader.Model.{Account, User, CopyTradeSubscription}
use fxtrader.Model.Trade.{TradeHistory}
use fxtrader.World.{
  World, Action, called, pure, continue, with_error, on_error, raise_if, ◌>>=◌, ◌>>◌,
}
use fxtrader.Base.Int.{pos}
use fxtrader.Repo.Users
use fxtrader.Repo.Users.{get_user_by_id}
use fxtrader.Repo.Accounts.{get_accounts_by_user_id, has_user}
use fxtrader.Repo.Others.{get_active_subscriptions_by_leader_id, save_subscription, log_action}
use fxtrader.Service.Leaders.{get_user}
use fxtrader.Service.Users.{get_accounts}
use fxtrader.Service.Trade.Close.{request_balance}
use fxtrader.Service.Trade.Close.Balance.{
  Refused, Same, Same-trans, NobodyAnswers, request_balance-Refused,
}
use fxtrader.Service.Copy.{has_type, subscription_of, create_subscription, mirror_trade}

module _ ⦃o : Outside⦄ (others : World → World) (nobody : NobodyAnswers others) where
  open o use {F, lt}

  -- A refusal ends what needs the balance.
  Refused-continue :
      {A B : Type 0} (f : Error → Error) (k : A → Action B) (w : World) (x : Result A) (w' : World)
      → Refused others w x w'
      → let (y, w'') = continue (with_error x f) k w' in Refused others w y w''
  Refused-continue f k w (ok a) w' (h, nothing) = absurd h
  Refused-continue f k w (err e) w' h = h
  Refused-continue f k w panic w' (h, nothing) = absurd h

  mirror_trade-Refused :
      (t : TradeHistory F) (type : String) (w : World)
      → w.balance_chan ≡ []
      → let (x, w') = mirror_trade others t type w in Refused others w x w'
  unfolding mirror_trade get_active_subscriptions_by_leader_id
  mirror_trade-Refused t type w empty = elim (Bool-cases (o.fails w.calls)) [
    | inl lost ↦ rw lost (tt, inl (refl, refl, refl, refl))
    | inr read ↦
        let w1 = called w in
        let user = o.to_hex t.user_id in
        let account = o.to_hex t.account_id in
        let (x, w2) = request_balance others user account type w1 in
        rw read (
          Refused-continue (λ _. new "failed to fetch leader balance") _ w x w2
            (request_balance-Refused others user account type w1 nobody empty))
  ]

  -- The part of the creation that needs the balance.
  subscribe_rest :
      String → String → F → String → User F → User F → Account F → Action (CopyTradeSubscription F)
  subscribe_rest follower leader amount type f l a = do
    balance ←
        on_error (request_balance others follower (o.to_hex a.id) type)
          (λ _. new "failed to fetch follower balance")
    raise_if (lt balance amount) (new "insufficient balance")
    s ← save_subscription (subscription_of follower leader amount type f l)
    log_action 0 "CreateCopySubscription" "Copy trade subscription created" ""
    pure s

  Refused-after :
      {A : Type 0} (w v : World) (x : Result A) (w' : World)
      → Same w v
      → Refused others v x w'
      → Refused others w x w'
  Refused-after w v x w' same (fails, inl kept) = (
    fails,
    inl (Same-trans w v (record w' { balance_chan = v.balance_chan }) same (refl, kept)).1,
  )
  Refused-after w v x w' same (fails, inr (waiting, kept, after)) = (
    fails,
    inr (
      waiting,
      (Same-trans w v (record waiting { balance_chan = v.balance_chan }) same (refl, kept)).1,
      after,
    ),
  )

  subscribe_rest-Refused :
      (follower leader type : String) (amount : F) (f l : User F) (a : Account F) (w v : World)
      → w.balance_chan ≡ []
      → Same w v
      → let (x, w') = subscribe_rest follower leader amount type f l a v in Refused others w x w'
  unfolding subscribe_rest
  subscribe_rest-Refused follower leader type amount f l a w v empty same =
      let (x, w1) = request_balance others follower (o.to_hex a.id) type v in
      Refused-continue (λ _. new "failed to fetch follower balance") _ w x w1
        (Refused-after w v x w1 same
          (request_balance-Refused others follower (o.to_hex a.id) type v nobody (same.0 ∙ empty)))

  create_subscription-Refused :
      (follower leader type : String) (amount : F) (w : World)
      → w.balance_chan ≡ []
      → let (x, w') = create_subscription others follower leader amount type w in
        Refused others w x w'
  unfolding create_subscription get_user get_user_by_id get_accounts get_accounts_by_user_id
      subscribe_rest
  create_subscription-Refused follower leader type amount w empty =
      elim (Bool-cases (o.le amount (o.float (pos 0)))) [
        | inl e0 ↦ rw e0 (tt, inl (refl, refl, refl, refl))
        | inr e0 ↦ elim (Option-cases (o.from_hex follower)) [
          | inl h1 ↦ rw (e0, h1) (tt, inl (refl, refl, refl, refl))
          | inr (i, h1) ↦ elim (Bool-cases (o.fails w.calls)) [
            | inl e2 ↦ rw (e0, h1, e2) (tt, inl (refl, refl, refl, refl))
            | inr e2 ↦ elim (Option-cases (o.find_one (User F) (Users.has_id i) w.users)) [
              | inl h3 ↦ rw (e0, h1, e2, h3) (tt, inl (refl, refl, refl, refl))
              | inr (f, h3) ↦ elim (Option-cases (o.from_hex leader)) [
                | inl h4 ↦ rw (e0, h1, e2, h3, h4) (tt, inl (refl, refl, refl, refl))
                | inr (j, h4) ↦ elim (Bool-cases (o.fails (suc w.calls))) [
                  | inl e5 ↦ rw (e0, h1, e2, h3, h4, e5) (tt, inl (refl, refl, refl, refl))
                  | inr e5 ↦ elim (Option-cases (o.find_one (User F) (Users.has_id j) w.users)) [
                    | inl h6 ↦ rw (e0, h1, e2, h3, h4, e5, h6) (tt, inl (refl, refl, refl, refl))
                    | inr (l, h6) ↦ elim (Bool-cases (not l.is_copy_trade_leader)) [
                      | inl e7 ↦
                          rw (e0, h1, e2, h3, h4, e5, h6, e7) (tt, inl (refl, refl, refl, refl))
                      | inr e7 ↦ elim (Bool-cases (o.fails (suc (suc w.calls)))) [
                        | inl e8 ↦
                            rw (e0, h1, e2, h3, h4, e5, h6, e7, e8)
                              (tt, inl (refl, refl, refl, refl))
                        | inr e8 ↦
                            elim (Option-cases (
                              find? (has_type type) (o.find (Account F) (has_user i) w.accounts))) [
                                | inl h9 ↦
                                    rw (e0, h1, e2, h3, h4, e5, h6, e7, e8, h9)
                                      (tt, inl (refl, refl, refl, refl))
                                | inr (a, h9) ↦
                                    rw (e0, h1, e2, h3, h4, e5, h6, e7, e8, h9)
                                      (subscribe_rest-Refused follower leader type amount f l a w
                                        (called (called (called w))) empty
                                        (refl, (refl, refl, refl, refl)))
                              ]
                      ]
                    ]
                  ]
                ]
              ]
            ]
          ]
        ]
      ]

  -- While the channel of balances is empty and the other goroutines leave it so, no subscription
  -- is created and no trade is mirrored: both methods return an error on every input, and neither
  -- writes a subscription, a mirrored trade, a trade or an account; these differ from what they
  -- were at most by what the other goroutines did during the wait.
  pub copying-Refused :
      (follower leader type : String) (amount : F) (t : TradeHistory F) (w : World)
      → w.balance_chan ≡ []
      → let (x, w1) = create_subscription others follower leader amount type w in
        let (y, w2) = mirror_trade others t type w in Refused others w x w1 × Refused others w y w2
  copying-Refused follower leader type amount t w empty = (
    create_subscription-Refused follower leader type amount w empty,
    mirror_trade-Refused t type w empty,
  )
