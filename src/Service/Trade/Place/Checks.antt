-- ===== src/Service/Trade/Place/Checks.antt =====
-- What the checks of `PlaceTrade` let through.
use fxtrader.Base.{
  suc, String, Bool-cases, ◌=s=◌, =s=_iff, ◌↔◌, inl, inr, ℕ, true, false, Option, some, none, ◌≡◌,
  ◌≢◌, ◌⊎◌, arith, eq_iff, contains, find?, ltb,
}
use fxtrader.Base.Int.{pos, ltb_ℤ}
use fxtrader.Base.Result.{ok, panic}
use fxtrader.Outside.{Outside}
use fxtrader.Model.{Account, Symbol}
use fxtrader.World.{World}
use fxtrader.Repo.Users.{get_user_by_id}
use fxtrader.Repo.Accounts
use fxtrader.Repo.Accounts.{get_account_by_name}
use fxtrader.Repo.Others.{any_symbol, get_all_symbols}
use fxtrader.Service.Trade.Place.{
  Order, Accepted, valid_order_types, cost, required_margin, has_display_name, find_parties,
  check_expiration, check_order,
}

module _ ⦃o : Outside⦄ where
  open o use {F, float, add, mul, div, lt, le}

  -- The five types of an order.
  abbrev pub IsOrderType : String → Type 0
  IsOrderType s =
      (s ≡ "MARKET") ⊎ (s ≡ "BUY_STOP") ⊎ (s ≡ "SELL_STOP") ⊎ (s ≡ "BUY_LIMIT") ⊎ (s ≡ "SELL_LIMIT")

  contains-IsOrderType : (s : String) → contains valid_order_types s ≡ true → IsOrderType s
  contains-IsOrderType s h = ground (
    arith,
    eq_iff "MARKET" s,
    eq_iff "BUY_STOP" s,
    eq_iff "SELL_STOP" s,
    eq_iff "BUY_LIMIT" s,
    eq_iff "SELL_LIMIT" s,
  )

  IsOrderType-contains : (s : String) → IsOrderType s → contains valid_order_types s ≡ true
  IsOrderType-contains s h = ground (
    arith,
    eq_iff "MARKET" s,
    eq_iff "BUY_STOP" s,
    eq_iff "SELL_STOP" s,
    eq_iff "BUY_LIMIT" s,
    eq_iff "SELL_LIMIT" s,
  )

  -- What an order costs: the margin and the commission.
  abbrev pub due : Order F → Symbol F → F
  due q s = add (div (mul q.volume q.entry_price) (float q.leverage)) s.commission_fee

  -- What an order that passes meets, on the account and the symbol found for it.
  pub record IsAllowed (q : Order F) (a : Account F) (s : Symbol F) : Type 0 where
    pub covered : lt a.balance (due q s) ≡ false
    pub sided : (q.trade_type ≡ "BUY") ⊎ (q.trade_type ≡ "SELL")
    pub known_type : IsOrderType q.order_type
    pub enough : lt q.volume s.min_lot ≡ false
    pub not_too_much : lt s.max_lot q.volume ≡ false
    pub leveraged : ltb_ℤ s.leverage q.leverage ≡ false
    pub priced : q.order_type ≢ "MARKET" → le q.entry_price (float (pos 0)) ≡ false
    pub unpriced : q.order_type ≡ "MARKET" → lt (float (pos 0)) q.entry_price ≡ false
    pub stop : lt q.stop_loss (float (pos 0)) ≡ false
    pub profit : lt q.take_profit (float (pos 0)) ≡ false

  -- An expiration that passes is not before the clock's reading in the check.
  abbrev pub NotPast : ℕ → Option ℕ → Type 0
  NotPast time none = Unit {0}
  NotPast time (some e) = ltb e time ≡ false

  pub check_order-IsAllowed :
      (q : Order F) (a : Account F) (s : Symbol F) (w : World)
      → (check_order q a s w).0 ≡ ok tt
      → IsAllowed q a s
  unfolding check_order cost required_margin
  check_order-IsAllowed q a s w h = record {
    covered = ground arith;
    sided = ground (arith, eq_iff q.trade_type "BUY", eq_iff q.trade_type "SELL");
    known_type = contains-IsOrderType q.order_type (ground arith);
    enough = ground arith;
    not_too_much = ground arith;
    leveraged = ground arith;
    priced = λ ne. ground (arith, eq_iff q.order_type "MARKET");
    unpriced = λ e. ground (arith, eq_iff q.order_type "MARKET");
    stop = ground arith;
    profit = ground arith;
  }

  pub check_order-NotPast :
      (q : Order F) (a : Account F) (s : Symbol F) (w : World)
      → (check_order q a s w).0 ≡ ok tt
      → NotPast (o.clock w.calls) q.expiration
  unfolding check_order check_expiration
  check_order-NotPast q a s w h = ground arith

  check_order-passes :
      (q : Order F) (a : Account F) (s : Symbol F) (w : World)
      → IsAllowed q a s
      → NotPast (o.clock w.calls) q.expiration
      → (check_order q a s w).0 ≡ ok tt
  unfolding check_order check_expiration cost required_margin
  check_order-passes q a s w h later =
      let covered = h.covered in
      let sided = h.sided in
      let known = IsOrderType-contains q.order_type h.known_type in
      let enough = h.enough in
      let most = h.not_too_much in
      let leveraged = h.leveraged in
      let stop = h.stop in
      let profit = h.profit in
      elim (Bool-cases (q.order_type =s= "MARKET")) [
        | inl market ↦
            let unpriced = h.unpriced ((=s=_iff _ _).0 market) in
            ground (arith, eq_iff q.trade_type "BUY", eq_iff q.trade_type "SELL")
        | inr other ↦
            let priced = h.priced (ground (arith, eq_iff q.order_type "MARKET")) in
            ground (arith, eq_iff q.trade_type "BUY", eq_iff q.trade_type "SELL")
      ]

  -- An order passes the checks of `PlaceTrade` exactly if the account covers its cost, it is a
  -- BUY or a SELL of one of the five order types, its volume and leverage are in the symbol's
  -- limits, its price is not above zero if it is a market order and not at or below zero if it is
  -- another, its stop and its profit level are not negative, and its expiration, if any, is not
  -- before the time.
  pub check_order_iff :
      (q : Order F) (a : Account F) (s : Symbol F) (w : World)
      → ((check_order q a s w).0 ≡ ok tt)
        ↔ (IsAllowed q a s × NotPast (o.clock w.calls) q.expiration)
  check_order_iff q a s w = (
    λ h. (check_order-IsAllowed q a s w h, check_order-NotPast q a s w h),
    λ (h, later). check_order-passes q a s w h later,
  )

  pub check_order_frame :
      (q : Order F) (a : Account F) (s : Symbol F) (w : World)
      → let (r, w') = check_order q a s w in (r ≢ panic) × (w' ≡ record w { calls = w'.calls })
  unfolding check_order check_expiration
  check_order_frame q a s w = ground arith

  -- The documents that an order names.
  pub record AreParties (q : Order F) (w : World) (p : Accepted F) : Type 0 where
    pub reads : o.from_hex q.user_id ≡ some p.user
    pub named :
        o.find_one (Account F) (Accounts.has_name q.account_name p.user) w.accounts ≡ some p.account
    pub owned : p.account.user_id ≡ p.user
    pub typed : p.account.account_type ≡ q.account_type
    pub shown :
        find? (has_display_name q.symbol) (o.find (Symbol F) any_symbol w.symbols) ≡ some p.symbol

  pub find_parties-AreParties :
      (q : Order F) (w : World) (p : Accepted F) → (find_parties q w).0 ≡ ok p → AreParties q w p
  unfolding find_parties get_user_by_id get_account_by_name get_all_symbols
  find_parties-AreParties q w p h = record {
    reads = ground arith;
    named = ground arith;
    owned = ground arith;
    typed = ground (arith, eq_iff p.account.account_type q.account_type);
    shown = ground arith;
  }

  pub find_parties_calls :
      (q : Order F) (w : World) (p : Accepted F)
      → (find_parties q w).0 ≡ ok p
      → (find_parties q w).1.calls ≡ suc (suc (suc w.calls))
  unfolding find_parties get_user_by_id get_account_by_name get_all_symbols
  find_parties_calls q w p h = ground arith

  pub find_parties_frame :
      (q : Order F) (w : World)
      → let (r, w') = find_parties q w in (r ≢ panic) × (w' ≡ record w { calls = w'.calls })
  unfolding find_parties get_user_by_id get_account_by_name get_all_symbols
  find_parties_frame q w = ground arith
