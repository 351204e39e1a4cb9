-- ===== src/Service/Alerts/Levels.antt =====
-- The price levels of an alert.
use fxtrader.Base.{
  suc, Bool-cases, String, false, Option, none, some, ◌≡◌, ◌≢◌, refl, ◌↔◌, ◌⊎◌, inl, inr, subst, ap,
  sym, ◌∙◌, arith, eq_iff, Option-cases, ◌&&◌, ◌||◌,
}
use fxtrader.Base.Int.{pos}
use fxtrader.Base.Result.{Result, ok, err, panic}
use fxtrader.Outside.{Outside}
use fxtrader.Model.{Alert, PriceData}
use fxtrader.World.{World, Action, called, ignore, pure, ◌>>=◌, ◌>>◌}
use fxtrader.World.Outcome.{Ends-bind}
use fxtrader.Repo.Others.Logging.{ignored_log}
use fxtrader.Repo.Others.{save_alert, get_all_symbols, log_action}
use fxtrader.Service.Alerts.{
  check_condition, check_time, lacks_target, is_none, create_alert, should_trigger, process_price,
}

module _ ⦃o : Outside⦄ where
  open o use {F, Coll, le, float}

  -- With a target price, the two tests of a price panic exactly if one of the two levels is
  -- missing, and else they fire exactly if the ask is at most the stop level and at least the
  -- target, or the bid is at least the profit level and at most the target.
  pub should_trigger_lem :
      (p : PriceData F) (a : Alert F) (x : F)
      → a.condition.price_target ≡ some x
      → ((should_trigger p a ≡ panic) ↔ ((a.condition.sl ≡ none) ⊎ (a.condition.tp ≡ none)))
        × ((s t : F)
            → a.condition.sl ≡ some s
            → a.condition.tp ≡ some t
            → should_trigger p a ≡ ok ((le p.ask s && le x p.ask) || (le t p.bid && le p.bid x)))
  unfolding should_trigger
  should_trigger_lem p a x h = (ground arith, λ s t es et. ground arith)

  abbrev pub HasPositive : Option F → Type 0
  HasPositive none = ⊥
  HasPositive (some x) = le x (float (pos 0)) ≡ false

  -- What an alert meets that the creation returned as `b`.
  pub record Accepts (user : String) (a b : Alert F) : Type 0 where
    pub kind : (a.alert_type ≡ "PRICE") ⊎ (a.alert_type ≡ "TIME")
    pub status : b.status ≡ "PENDING"
    pub owner : b.user_id ≡ user
    pub name : b.symbol_name ≡ a.symbol_name
    pub type : b.alert_type ≡ a.alert_type
    pub condition : b.condition ≡ a.condition
    pub target : a.alert_type ≡ "PRICE" → HasPositive a.condition.price_target
    pub level : a.alert_type ≡ "PRICE" → (a.condition.sl ≢ none) ⊎ (a.condition.tp ≢ none)
    pub timed : a.alert_type ≡ "TIME" → a.condition.trigger_time ≢ none

  created-Accepts :
      (user : String) (a b : Alert F) (w : World)
      → (create_alert user a w).0 ≡ ok b
      → Accepts user a b
  unfolding create_alert check_condition check_time lacks_target is_none save_alert get_all_symbols
  created-Accepts user a b w h = record {
    kind = ground (arith, eq_iff a.alert_type "PRICE", eq_iff a.alert_type "TIME");
    status = ground arith;
    owner = ground arith;
    name = ground arith;
    type = ground arith;
    condition = ground arith;
    target = λ e. ground (arith, eq_iff a.alert_type "PRICE");
    level = λ e. ground (arith, eq_iff a.alert_type "PRICE");
    timed = λ e.
        ground
          (arith, eq_iff a.alert_type "PRICE", eq_iff a.alert_type "TIME", eq_iff "TIME" "PRICE");
  }

  -- How a creation ends: the alert that it returns is the one document that it has inserted.
  abbrev pub CreationEnds : String → Alert F → World → Result (Alert F) → World → Type 0
  CreationEnds user a w (ok b) w' =
      Accepts user a b × (w'.alerts ≡ o.insert_one (Alert F) b w.alerts)
  CreationEnds user a w (err _) w' = w'.alerts ≡ w.alerts
  CreationEnds user a w panic w' = ⊥

  check_condition_alerts :
      (a : Alert F) (w : World)
      → let (x, w') = check_condition a w in (x ≢ panic) × (w'.alerts ≡ w.alerts)
  unfolding check_condition check_time
  check_condition_alerts a w = ground arith

  -- What a creation does to the collection of alerts.
  abbrev Stores : Coll (Alert F) → Result (Alert F) → World → Type 0
  Stores as' (ok b) w' = w'.alerts ≡ o.insert_one (Alert F) b as'
  Stores as' (err _) w' = w'.alerts ≡ as'
  Stores as' panic w' = ⊥

  store : Alert F → Action (Alert F)
  store a = do
    saved ← save_alert a
    ignore (log_action 0 "CreateAlert" "Alert created" "")
    pure saved

  store-Stores : (a : Alert F) (w : World) → let (x, w') = store a w in Stores w.alerts x w'
  unfolding store save_alert
  store-Stores a w = elim (Bool-cases (o.fails (suc (suc w.calls)))) [
    | inl lost ↦ rw lost refl
    | inr stored ↦
        let a' = record a { id = o.new_id w.calls; created_at = o.clock (suc w.calls) } in
        let w1 : World = record w {
          calls = suc (suc (suc w.calls));
          alerts = o.insert_one (Alert F) a' w.alerts;
        } in
        let (ends, logs) = ignored_log 0 "CreateAlert" "Alert created" "" w1 in
        rw (stored, ends) (ap (λ v. v.alerts) logs)
  ]

  create_alert-Stores :
      (user : String) (a : Alert F) (w : World)
      → let (x, w') = create_alert user a w in Stores w.alerts x w'
  unfolding create_alert get_all_symbols store
  create_alert-Stores user a w =
      let (fine, same) = check_condition_alerts a w in
      let w1 = (check_condition a w).1 in
      Ends-bind (Stores w.alerts) (check_condition a) _ w
        (λ u h.
          ground (
            arith,
            same,
            store-Stores (record a { user_id = user; status = "PENDING" }) (called w1),
          ))
        (λ e h. same) (λ h. absurd (fine h))

  -- An alert that is created is a price or a time alert and is stored as pending for that user
  -- with its own symbol and condition, as the alert that is returned; a price alert has a positive
  -- target and at least one of the two levels, and a time alert has a time. A creation that
  -- returns an error stores no alert, and none panics.
  pub create_alert-Accepts :
      (user : String) (a : Alert F) (w : World)
      → let (x, w') = create_alert user a w in CreationEnds user a w x w'
  create_alert-Accepts user a w = by_result (create_alert user a w).0 refl
    where
      by_result :
          (x : Result (Alert F))
          → (create_alert user a w).0 ≡ x
          → CreationEnds user a w x (create_alert user a w).1
      by_result (ok b) h = (
        created-Accepts user a b w h,
        subst (λ x. Stores w.alerts x (create_alert user a w).1) h (create_alert-Stores user a w),
      )
      by_result (err e) h =
          subst (λ x. Stores w.alerts x (create_alert user a w).1) h (create_alert-Stores user a w)
      by_result panic h =
          subst (λ x. Stores w.alerts x (create_alert user a w).1) h (create_alert-Stores user a w)

  -- A price alert that was created with one of the two levels only makes the processing of any
  -- price of its symbol panic, in any state.
  pub lone_level_panics :
      (user : String) (a b : Alert F) (w w1 : World) (p : PriceData F)
      → (create_alert user a w).0 ≡ ok b
      → a.alert_type ≡ "PRICE"
      → (a.condition.sl ≡ none) ⊎ (a.condition.tp ≡ none)
      → p.symbol ≡ a.symbol_name
      → (process_price p b w1).0 ≡ panic
  unfolding process_price
  lone_level_panics user a b w w1 p made type lone same =
      let h = created-Accepts user a b w made in
      elim (Option-cases b.condition.price_target) [
        | inl e ↦
            absurd
              (subst HasPositive (ap (λ c. c.price_target) (sym h.condition) ∙ e) (h.target type))
        | inr (x, e) ↦
            let fires = (should_trigger_lem p b x e).0.1 (rw h.condition lone) in
            let name = h.name in
            let kind = h.type in
            rw fires (ground (arith, eq_iff b.symbol_name p.symbol, eq_iff b.alert_type "PRICE"))
      ]
