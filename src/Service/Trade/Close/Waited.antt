-- ===== src/Service/Trade/Close/Waited.antt =====
-- What a `CloseTrade` does before and after it waits for the bridge.
use fxtrader.Base.{
  List-cases, ℕ, suc, some, ==_iff, ◌!=◌, ◌||◌, ap, inl, inr, ◌⊎◌, Option-cases, =s=_iff, ◌!=s◌,
  String, none, ◌∷◌, ◌≡◌, inl, inr, refl, arith, lookup, ◌=s=◌, Bool-cases,
}
use fxtrader.Base.Result.{wrap, new, with_text, Result, ok, err, panic}
use fxtrader.Outside.{Outside}
use fxtrader.Model.{Account}
use fxtrader.Repo.Accounts
use fxtrader.Repo.Accounts.{get_account_by_id}
use fxtrader.Repo.Trades
use fxtrader.Repo.Trades.{get_trade_by_id}
use fxtrader.Model.Trade.{TradeHistory, TradeResponse, close_trade_request, Request}
use fxtrader.World.{
  with_error, ◌>>=◌, ◌>>◌, raise_if, on_error, present, continue, World, Action, called,
}
use fxtrader.Service.Trade.Close.{close_answer, close_trade}
use fxtrader.Service.Trade.Channels.{await_response, send_to_mt5, with_channel, opened, closed}
use fxtrader.Service.Trade.Close.Asked.{Sends, send_to_mt5-Sends, with_channel-gone}

module _ ⦃o : Outside⦄ where
  open o use {F}

  -- The part of `CloseTrade` that runs with the channel.
  ask : (World → World) → String → Request F → Action (TradeResponse F)
  ask others trade q = do
    on_error (send_to_mt5 q) (wrap "failed to send close trade request")
    r ← await_response trade others
    close_answer trade r

  -- What a close that began in `w` has done, by how it ended. `waiting` is the state in which it
  -- began to wait.
  abbrev pub Waited : (World → World) → World → Request F → World → Type 0
  Waited others w q w' =
      (waiting : World) × (waiting.accounts ≡ w.accounts)
      × (waiting.trades ≡ w.trades)
      × (waiting.sent ≡ q ∷ w.sent)
      × (w'.accounts ≡ (others waiting).accounts)
      × (w'.trades ≡ (others waiting).trades)

  abbrev AskEnds :
      (World → World) → String → Request F → World → Result (TradeResponse F) → World → Type 0
  AskEnds others trade q w (ok r) w' = (r.trade_id ≡ trade) × Waited others w q w'
  AskEnds others trade q w (err _) w' =
      ((w'.accounts ≡ w.accounts) × (w'.trades ≡ w.trades) × (w'.sent ≡ w.sent))
      ⊎ Waited others w q w'
  AskEnds others trade q w panic w' = ⊥

  answer_ends :
      (others : World → World) (trade : String) (q : Request F) (w waiting : World)
      → waiting ≡ record w { calls = waiting.calls; sent = q ∷ w.sent }
      → let (x, w') = (await_response trade others >>= close_answer trade) waiting in
        AskEnds others trade q w x w'
  unfolding await_response
  answer_ends others trade q w waiting same =
      let w' = others waiting in
      let kept : Waited others w q w' = (
        waiting,
        ap (λ v. v.accounts) same,
        ap (λ v. v.trades) same,
        ap (λ v. v.sent) same,
        refl,
        refl,
      ) in
      elim (Option-cases (lookup trade waiting.trade_chans)) [
        | inl e ↦ rw e (inr kept)
        | inr (c, e) ↦ elim (List-cases (w'.channels trade c)) [
          | inl empty ↦ rw (e, empty) (inr kept)
          | inr (r, rest, full) ↦ elim (Bool-cases (r.trade_id =s= trade)) [
            | inl own ↦ rw (e, full, own) ((=s=_iff _ _).0 own, kept)
            | inr other ↦ rw (e, full, other) (inr kept)
          ]
        ]
      ]

  sent_ends :
      (others : World → World) (trade : String) (q : Request F) (w : World) (x : Result (Unit {0}))
      (w1 : World)
      → Sends q w x w1
      → let (y, w') =
          continue
            (with_error x (wrap "failed to send close trade request"))
            (λ _. await_response trade others >>= close_answer trade)
            w1 in
        AskEnds others trade q w y w'
  sent_ends others trade q w (ok u) w1 h = answer_ends others trade q w w1 h
  sent_ends others trade q w (err e) w1 h =
      inl (ap (λ v. v.accounts) h, ap (λ v. v.trades) h, ap (λ v. v.sent) h)
  sent_ends others trade q w panic w1 h = h

  ask-AskEnds :
      (others : World → World) (trade : String) (q : Request F) (w : World)
      → let (x, w') = ask others trade q w in AskEnds others trade q w x w'
  unfolding ask
  ask-AskEnds others trade q w =
      let (x, w1) = send_to_mt5 q w in sent_ends others trade q w x w1 (send_to_mt5-Sends q w).0

  -- The documents that a close names, which it found.
  pub record Names (trade user type account : String) (w : World) (t : TradeHistory F)
      (a : Account F) : Type 0 where
    pub trade_id : ℕ
    pub reads : o.from_hex trade ≡ some trade_id
    pub found : o.find_one (TradeHistory F) (Trades.has_id trade_id) w.trades ≡ some t
    pub of_user : o.from_hex user ≡ some t.user_id
    pub of_account : o.from_hex account ≡ some t.account_id
    pub typed : t.account_type ≡ type
    pub held : o.find_one (Account F) (Accounts.has_id t.account_id) w.accounts ≡ some a

  module _ (others : World → World) (trade user type account : String) (w : World) where
    abbrev request_for : Account F → Request F
    request_for a = close_trade_request trade user account type a.wallet_id

    abbrev pub Closes : Result (TradeResponse F) → World → Type 0
    Closes (ok r) w' =
        (t : TradeHistory F) × (a : Account F) × Names trade user type account w t a
        × (r.trade_id ≡ trade)
        × Waited others w (request_for a) w'
        × (lookup trade w'.trade_chans ≡ none)
    Closes (err _) w' =
        ((w'.accounts ≡ w.accounts) × (w'.trades ≡ w.trades) × (w'.sent ≡ w.sent))
        ⊎ ((a : Account F) × Waited others w (request_for a) w'
            × (lookup trade w'.trade_chans ≡ none))
    Closes panic w' = ⊥

    asked-Closes :
        (t : TradeHistory F) (a : Account F) (x : Result (TradeResponse F)) (w' : World)
        → Names trade user type account w t a
        → lookup trade w'.trade_chans ≡ none
        → AskEnds others trade (request_for a) w x w'
        → Closes x w'
    asked-Closes t a (ok r) w' names gone (own, waited) = (t, a, names, own, waited, gone)
    asked-Closes t a (err e) w' names gone (inl h) = inl h
    asked-Closes t a (err e) w' names gone (inr h) = inr (a, h, gone)
    asked-Closes t a panic w' names gone h = h

    after_reads :
        (t : TradeHistory F) (a : Account F)
        → Names trade user type account w t a
        → let (x, w') = with_channel trade (ask others trade (request_for a)) (called (called w)) in
          Closes x w'
    unfolding with_channel
    after_reads t a names =
        let w2 = opened trade (called (called w)) in
        let (x, w') = ask others trade (request_for a) w2 in
        asked-Closes t a x (closed trade w') names
          (with_channel-gone trade (ask others trade (request_for a)) (called (called w)))
          (moved x w' (ask-AskEnds others trade (request_for a) w2))
      where
        moved :
            (x : Result (TradeResponse F)) (w' : World)
            → AskEnds others trade (request_for a) (opened trade (called (called w))) x w'
            → AskEnds others trade (request_for a) w x (closed trade w')
        moved (ok r) w' h = h
        moved (err e) w' h = h
        moved panic w' h = h

    -- The rest of the method once the trade is read.
    check_trade : ℕ → ℕ → TradeHistory F → Action (TradeResponse F)
    check_trade j k t = do
      raise_if ((t.user_id != j) || (t.account_id != k))
          (new "trade belongs to another user or account")
      raise_if (t.account_type !=s type) (with_text "trade is not associated with account" type)
      held ← on_error (get_account_by_id k) (λ _. new "account not found")
      a ← present held (new "account not found")
      with_channel trade (ask others trade (request_for a))

    read :
        (i j k : ℕ) (t : TradeHistory F)
        → o.from_hex trade ≡ some i
        → o.from_hex user ≡ some j
        → o.from_hex account ≡ some k
        → o.find_one (TradeHistory F) (Trades.has_id i) w.trades ≡ some t
        → let (x, w') = check_trade j k t (called w) in Closes x w'
    unfolding check_trade get_account_by_id
    read i j k t ei ej ek et = elim (Bool-cases ((t.user_id != j) || (t.account_id != k))) [
      | inl foreign ↦ rw foreign (inl (refl, refl, refl))
      | inr own ↦ elim (Bool-cases (t.account_type =s= type)) [
        | inr other ↦ rw (own, other) (inl (refl, refl, refl))
        | inl typed ↦ elim (Bool-cases (o.fails (suc w.calls))) [
          | inl lost ↦ rw (own, typed, lost) (inl (refl, refl, refl))
          | inr f1 ↦ elim (Option-cases (o.find_one (Account F) (Accounts.has_id k) w.accounts)) [
            | inl e ↦ rw (own, typed, f1, e) (inl (refl, refl, refl))
            | inr (a, ea) ↦
                let user_same : t.user_id ≡ j = ground (arith, ==_iff t.user_id j) in
                let account_same : t.account_id ≡ k = ground (arith, ==_iff t.account_id k) in
                rw (own, typed, f1, ea)
                  (after_reads t a (record {
                    trade_id = i;
                    reads = ei;
                    found = et;
                    of_user = rw user_same ej;
                    of_account = rw account_same ek;
                    typed = (=s=_iff _ _).0 typed;
                    held = rw account_same ea;
                  }))
          ]
        ]
      ]
    ]

    -- A close that returns an answer found the trade, which is the user's and of the account and
    -- of the type asked for, and the account; it sent its request, wrote neither an account nor a
    -- trade before it waited or after, and got the answer that names the trade. One that returns
    -- an error sent nothing and wrote neither, or it waited, and wrote neither. Once it has waited
    -- there is no channel under the trade's key. It never panics.
    pub close_trade-Closes :
        let (x, w') = close_trade others trade user type account w in Closes x w'
    unfolding close_trade check_trade ask get_trade_by_id
    close_trade-Closes = elim (Option-cases (o.from_hex trade)) [
      | inl e ↦ rw e (inl (refl, refl, refl))
      | inr (i, ei) ↦ elim (Option-cases (o.from_hex user)) [
        | inl e ↦ rw (ei, e) (inl (refl, refl, refl))
        | inr (j, ej) ↦ elim (Option-cases (o.from_hex account)) [
          | inl e ↦ rw (ei, ej, e) (inl (refl, refl, refl))
          | inr (k, ek) ↦ elim (Bool-cases (o.fails w.calls)) [
            | inl lost ↦ rw (ei, ej, ek, lost) (inl (refl, refl, refl))
            | inr f0 ↦
                elim (Option-cases (o.find_one (TradeHistory F) (Trades.has_id i) w.trades)) [
                  | inl e ↦ rw (ei, ej, ek, f0, e) (inl (refl, refl, refl))
                  | inr (t, et) ↦ rw (ei, ej, ek, f0, et) (read i j k t ei ej ek et)
                ]
          ]
        ]
      ]
    ]
