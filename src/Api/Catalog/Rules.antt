-- ===== src/Api/Catalog/Rules.antt =====
-- The trading rules over HTTP, api/rules_handlers.go: what is created and edited is shown again.
use fxtrader.Base.{
  ℕ, suc, String, true, false, none, some, ◌≡◌, ◌≢◌, refl, arith, eq_iff, ◌=s=◌, ==_iff,
}
use fxtrader.Outside.{Outside}
use fxtrader.Outside.Laws.{InsertsFound, UpdatesFound, NeverFails}
use fxtrader.Model.{Rule}
use fxtrader.World.{World, called}
use fxtrader.Repo.Symbols.{
  rule_has_id, save_rule, get_rule_by_id, get_rule, set_content, update_rule, change_rule,
}
use fxtrader.Api.{Body, go, say, show}
use fxtrader.Api.Catalog.{add_rule, show_rule, edit_rule}

module _ ⦃o : Outside⦄ where
  open o use {F, fails}

  not_empty : (s : String) → s ≢ "" → (s =s= "") ≡ false
  not_empty s h = ground (arith, eq_iff s "", h)

  has_itself : (r : Rule) → rule_has_id r.id r ≡ true
  unfolding rule_has_id
  has_itself r = (==_iff r.id r.id).1 refl

  show_rule-finds :
      NeverFails
      → (i : ℕ) (r : Rule) (w : World) → o.from_hex (o.to_hex i) ≡ some i
      → o.find_one Rule (rule_has_id i) w.rules ≡ some r
      → (show_rule (o.to_hex i) w).0 ≡ go (show 200 (Body.one_rule r))
  unfolding show_rule get_rule get_rule_by_id
  show_rule-finds never i r w reads e = rw (reads, never w.calls, e) refl

  add_rule-runs :
      NeverFails
      → (r : Rule) (w : World) → r.content ≢ ""
      → add_rule (some r) w ≡ (
        go (say 201 "Rule created"),
        record (called (called (called w))) {
          rules =
              o.insert_one Rule
                (record r { id = o.new_id w.calls; created_at = o.clock (suc w.calls) })
                w.rules;
        },
      )
  unfolding add_rule save_rule
  add_rule-runs never r w h = rw (not_empty r.content h, never (suc (suc w.calls))) refl

  edit_rule-runs :
      NeverFails
      → (i : ℕ) (r : Rule) (w : World) → o.from_hex (o.to_hex i) ≡ some i
      → r.content ≢ ""
      → edit_rule (o.to_hex i) (some r) w ≡ (
        go (say 200 "Rule updated"),
        record (called w) { rules = (o.update_one Rule (rule_has_id i) (set_content r) w.rules).0 },
      )
  unfolding edit_rule change_rule update_rule
  edit_rule-runs never i r w reads h = rw (not_empty r.content h, reads, never w.calls) refl

  -- Where no call fails, lookups find what was inserted and updated, the text of the fresh id is
  -- read back as that id, and no rule has it yet: a rule with a content is created, it is then shown with its content, the
  -- fresh id and the time, and once it is edited to a content it is shown with that one, and the
  -- same id and time.
  pub rule_round_trip :
      InsertsFound
      → UpdatesFound
      → NeverFails
      → (r edit : Rule) (w : World)
      → o.from_hex (o.to_hex (o.new_id w.calls)) ≡ some (o.new_id w.calls)
      → r.content ≢ ""
      → edit.content ≢ ""
      → o.find_one Rule (rule_has_id (o.new_id w.calls)) w.rules ≡ none
      → let i = o.new_id w.calls in
        let stored = record r { id = i; created_at = o.clock (suc w.calls) } in
        let (x, w1) = add_rule (some r) w in
        let (y, w2) = edit_rule (o.to_hex i) (some edit) w1 in
        (x ≡ go (say 201 "Rule created"))
        × ((show_rule (o.to_hex i) w1).0 ≡ go (show 200 (Body.one_rule stored)))
        × (y ≡ go (say 200 "Rule updated"))
        × ((show_rule (o.to_hex i) w2).0
            ≡ go (show 200 (Body.one_rule (record stored { content = edit.content }))))
  unfolding set_content rule_has_id
  rule_round_trip inserts updates never r edit w reads h k free =
      let i = o.new_id w.calls in
      let stored : Rule = record r { id = i; created_at = o.clock (suc w.calls) } in
      let w1 : World = record (called (called (called w))) {
        rules = o.insert_one Rule stored w.rules;
      } in
      let w2 : World = record (called w1) {
        rules = (o.update_one Rule (rule_has_id i) (set_content edit) w1.rules).0;
      } in
      let self = has_itself stored in
      let found = inserts Rule (rule_has_id i) w.rules stored free self in
      let again = updates Rule (rule_has_id i) (set_content edit) w1.rules stored found self in
      rw (add_rule-runs never r w h, edit_rule-runs never i edit w1 reads k)
        (
          refl,
          show_rule-finds never i stored w1 reads found,
          refl,
          show_rule-finds never i (record stored { content = edit.content }) w2 reads again,
        )
