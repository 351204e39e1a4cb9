-- ===== src/Startup/Crash.antt =====
-- What the wiring of backend/cmd/server/main.go makes of an order that is placed.
use fxtrader.World.Outcome.{Ends, Ends-bind}
use fxtrader.Base.{
  ℕ, String, Bool-cases, inl, inr, suc, false, Option, List, ◌∷◌, ◌≡◌, refl, subst, arith,
}
use fxtrader.Base.Int.{ℤ}
use fxtrader.Base.Result.{Result, ok, err, panic}
use fxtrader.Outside.{Outside}
use fxtrader.Model.Trade.{TradeHistory, TradeResponse}
use fxtrader.World.{World, Action, continue}
use fxtrader.Service.Trade.Channels.{with_channel, opened, closed}
use fxtrader.Service.Trade.Place.{
  Order, Accepted, find_parties, check_order, execute_order, place_trade, new_trade, exchange, cost,
  charged,
}
use fxtrader.Service.Trade.Place.Whole.{charge_write}
use fxtrader.Repo.Accounts.{update_account}
use fxtrader.Startup.{Program, TradeService, start_up, mirror_goroutine}

module _ ⦃o : Outside⦄ where
  open o use {F}

  abbrev Spawns : String → Result (TradeHistory F × TradeResponse F) → World → Type 0
  Spawns type (ok (t, r)) w' =
      (rest : List (TradeHistory F × String)) × (w'.spawned ≡ (t, type) ∷ rest)
  Spawns type (err e) w' = Unit {0}
  Spawns type panic w' = Unit {0}

  abbrev finish :
      String → TradeHistory F × TradeResponse F → Action (TradeHistory F × TradeResponse F)
  finish type x w = (ok x, record w { spawned = (x.0, type) ∷ w.spawned })

  finished :
      (type : String) (x : Result (TradeHistory F × TradeResponse F)) (w : World)
      → let (y, w') = continue x (finish type) w in Spawns type y w'
  finished type (ok x) w = (w.spawned, refl)
  finished type (err e) w = tt
  finished type panic w = tt

  module _ (others : World → World) (q : Order F) where
    execute_order-Spawns :
        (p : Accepted F) (w : World) → Ends (Spawns q.account_type) (execute_order others q p) w
    unfolding execute_order with_channel update_account charged
    execute_order-Spawns p w = elim (Bool-cases (o.fails w.calls)) [
      | inl lost ↦ rw lost tt
      | inr stored ↦
          let id = o.new_id (suc w.calls) in
          let key = o.to_hex id in
          let t = new_trade q p id (o.clock (suc (suc w.calls))) in
          let w1 : World = record w {
            calls = suc (suc (suc w.calls));
            accounts = charge_write (cost q p.symbol) p.account w.accounts;
          } in
          let (x, w2) = exchange others q p t (opened key w1) in
          rw stored (finished q.account_type x (closed key w2))
    ]

    place_trade-Spawns : (w : World) → Ends (Spawns q.account_type) (place_trade others q) w
    unfolding place_trade
    place_trade-Spawns w =
        Ends-bind (Spawns q.account_type) (find_parties q) _ w
          (λ p _.
            Ends-bind (Spawns q.account_type) (check_order q p.account p.symbol) _ _
              (λ _ _. execute_order-Spawns p _) (λ _ _. tt) (λ _. tt))
          (λ _ _. tt) (λ _. tt)

  main_wires :
      (getenv : String → String) (atoi : String → Option ℤ) (hash : String → Option String)
      (format : ℕ → String) (p : Program) (w : World)
      → (start_up getenv atoi hash format w).0 ≡ ok p
      → p.trade_service.has_copy_trade_service ≡ false
  unfolding start_up
  main_wires getenv atoi hash format p w h = ground arith

  goroutine_crashes :
      (s : TradeService) (others : World → World) (x : TradeHistory F × String) (w : World)
      → s.has_copy_trade_service ≡ false
      → mirror_goroutine s others x w ≡ (panic, w)
  unfolding mirror_goroutine
  goroutine_crashes s others x w e = rw e refl

  -- In the program that a successful start builds, an order that is placed, in whatever state and
  -- whatever the other goroutines do, starts a goroutine that panics whenever it runs, outside any
  -- request.
  pub placed_order_crashes :
      (getenv : String → String) (atoi : String → Option ℤ) (hash : String → Option String)
      (format : ℕ → String) (p : Program) (w0 w : World) (others : World → World) (q : Order F)
      (t : TradeHistory F) (r : TradeResponse F)
      → (start_up getenv atoi hash format w0).0 ≡ ok p
      → (place_trade others q w).0 ≡ ok (t, r)
      → ((rest : List (TradeHistory F × String)) × ((place_trade others q w).1.spawned
            ≡ (t, q.account_type) ∷ rest))
        × ((later : World → World) (v : World)
            → mirror_goroutine p.trade_service later (t, q.account_type) v ≡ (panic, v))
  placed_order_crashes getenv atoi hash format p w0 w others q t r up placed = (
    subst (λ x. Spawns q.account_type x (place_trade others q w).1) placed
        (place_trade-Spawns others q w),
    λ later v.
        goroutine_crashes p.trade_service later (t, q.account_type) v
          (main_wires getenv atoi hash format p w0 up),
  )
