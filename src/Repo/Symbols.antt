-- ===== src/Repo/Symbols.antt =====
-- `MongoSymbolRepository` and `MongoRuleRepository`, with their services, which only read the id:
-- repository/symbol_repository.go and repository/rule_repository.go, service/symbo_service.go and
-- service/rule_service.go.
use fxtrader.Base.{
  ℕ, String, Bool, true, false, Option, none, some, List, ◌==◌, ◌!=◌, ◌&&◌, if◌then◌else◌,
}
use fxtrader.Base.Result.{ok, err, driver}
use fxtrader.Outside.{Outside}
use fxtrader.Model.{Symbol, Rule}
use fxtrader.World.{Action, gets, ◌>>=◌, now, new_object_id, external, present}

module _ ⦃o : Outside⦄ where
  open o use {F}

  unfoldable pub symbol_has_id : ℕ → Symbol F → Bool
  symbol_has_id i s = s.id == i

  -- It returns the document, whose id and times it has set.
  unfoldable pub save_symbol : Symbol F → Action (Symbol F)
  save_symbol s = do
    i ← new_object_id
    created ← now
    updated ← now
    let s' = record s { id = i; created_at = created; updated_at = updated }
    external λ w. (ok s', record w { symbols = o.insert_one (Symbol F) s' w.symbols })

  unfoldable pub get_symbol_by_id : ℕ → Action (Option (Symbol F))
  get_symbol_by_id i = external (gets λ w. o.find_one (Symbol F) (symbol_has_id i) w.symbols)

  -- `$set` of the whole document; a zero id is left out.
  unfoldable pub set_symbol : Symbol F → Symbol F → Symbol F
  set_symbol s old = record s { id = old.id }

  -- The document names another id than that of the one to update; the database refuses to change
  -- the id of a document that is there.
  unfoldable pub moves_id : ℕ → Symbol F → Option (Symbol F) → Bool
  moves_id i s none = false
  moves_id i s (some old) = (s.id != 0) && (s.id != i)

  unfoldable pub update_symbol : ℕ → Symbol F → Action (Unit {0})
  unfolding moves_id
  update_symbol i s = do
    updated ← now
    external λ w.
        let s' = record s { updated_at = updated } in
        if moves_id i s (o.find_one (Symbol F) (symbol_has_id i) w.symbols)
        then (err driver, w)
        else (
          ok tt,
          record w {
            symbols = (o.update_one (Symbol F) (symbol_has_id i) (set_symbol s') w.symbols).0;
          },
        )

  unfoldable pub delete_symbol : ℕ → Action (Unit {0})
  delete_symbol i =
      external
        λ w. (ok tt, record w { symbols = (o.delete_one (Symbol F) (symbol_has_id i) w.symbols).0 })

  -- The methods of the services: the error of the hex text is the library's.
  unfoldable pub get_symbol : String → Action (Option (Symbol F))
  get_symbol id = do i ← present (o.from_hex id) driver; get_symbol_by_id i

  unfoldable pub change_symbol : String → Symbol F → Action (Unit {0})
  change_symbol id s = do i ← present (o.from_hex id) driver; update_symbol i s

  unfoldable pub remove_symbol : String → Action (Unit {0})
  remove_symbol id = do i ← present (o.from_hex id) driver; delete_symbol i

  unfoldable pub rule_has_id : ℕ → Rule → Bool
  rule_has_id i r = r.id == i

  unfoldable pub save_rule : Rule → Action Rule
  save_rule r = do
    i ← new_object_id
    created ← now
    let r' = record r { id = i; created_at = created }
    external λ w. (ok r', record w { rules = o.insert_one Rule r' w.rules })

  unfoldable pub get_rule_by_id : ℕ → Action (Option Rule)
  get_rule_by_id i = external (gets λ w. o.find_one Rule (rule_has_id i) w.rules)

  any_rule : Rule → Bool
  any_rule r = true

  unfoldable pub get_all_rules : Action (List Rule)
  unfolding any_rule
  get_all_rules = external (gets λ w. o.find Rule any_rule w.rules)

  unfoldable pub set_content : Rule → Rule → Rule
  set_content r old = record old { content = r.content }

  unfoldable pub update_rule : ℕ → Rule → Action (Unit {0})
  update_rule i r = external λ w.
      (ok tt, record w { rules = (o.update_one Rule (rule_has_id i) (set_content r) w.rules).0 })

  unfoldable pub delete_rule : ℕ → Action (Unit {0})
  delete_rule i =
      external λ w. (ok tt, record w { rules = (o.delete_one Rule (rule_has_id i) w.rules).0 })

  unfoldable pub get_rule : String → Action (Option Rule)
  get_rule id = do i ← present (o.from_hex id) driver; get_rule_by_id i

  unfoldable pub change_rule : String → Rule → Action (Unit {0})
  change_rule id r = do i ← present (o.from_hex id) driver; update_rule i r

  unfoldable pub remove_rule : String → Action (Unit {0})
  remove_rule id = do i ← present (o.from_hex id) driver; delete_rule i
