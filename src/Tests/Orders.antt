-- ===== src/Tests/Orders.antt =====
-- Orders on the concrete data, from the route to the goroutine that they start.
use fxtrader.Base.{
  ℕ, String, Bool, true, false, Option, none, some, List, [], ◌∷◌, ◌≡◌, ◌≢◌, ◌↔◌, refl, arith,
  eq_iff, lookup, Dict, Bool-cases, inl, inr, ◌=s=◌, if◌then◌else◌, ltb, ap, sym,
}
use fxtrader.Base.Int.{ℤ, pos, ◌+ℤ◌, ◌*ℤ◌}
use fxtrader.Base.Result.{ok, panic}
use fxtrader.Model.Trade.{TradeHistory, TradeResponse}
use fxtrader.World.{World}
use fxtrader.Repo.Users
use fxtrader.Repo.Accounts
use fxtrader.Service.Trade.Place.{
  Order, Accepted, place_trade, answered, check_order, has_display_name, find_parties,
  check_expiration, cost, required_margin, execute_order, new_trade, charged, exchange, conclude,
}
use fxtrader.Repo.Others.{any_symbol, get_all_symbols}
use fxtrader.Service.Trade.Place.Checks.{IsAllowed, check_order_iff}
use fxtrader.Service.Trade.Place.Progress.{AnswersAll, Progresses, place_trade-Progresses}
use fxtrader.Api.Routes.{for_users, serve}
use fxtrader.Api.Routes.Requests.{Request}
use fxtrader.Api.Trades.{TradeRequest, order_of}
use fxtrader.Repo.Users.{has_telegram_id}
use fxtrader.Api.Routes.Placing.{ShowsPlaced, posted_order-Shows}
use fxtrader.Api.Routes.OfUsers.{post_trades}
use fxtrader.Repo.Trades
use fxtrader.Service.Trade.Channels.{send_to_mt5, send_loop, with_channel, await_response}
use fxtrader.Startup.{mirror_goroutine}
use fxtrader.Startup.Crash.{placed_order_crashes}
use fxtrader.Tests.Demo.{demo, demo-NeverFails, ada, wallet, euro, position, start}
use fxtrader.Tests.Trading.{order, answer}
use fxtrader.Model.{User}
use fxtrader.World.{called}
use fxtrader.Repo.Trades.{get_trade_by_id}
use fxtrader.Api.{Body, say, show}
use fxtrader.Api.Trades.{get_trade}
use fxtrader.Api.Routes.OfUsers.{put_trades_close, get_trades_id}
use fxtrader.Api.Routes.Strangers.{strangers_request}
use fxtrader.Tests.Startup.{
  no_settings, read_port, hash, format, program, program-starts, libraries, request,
}

abbrev reply_for : String → TradeResponse ℤ
reply_for key = record answer { trade_id = key }

-- A bridge that answers on every channel that is empty.
abbrev fill : String → List (TradeResponse ℤ) → List (TradeResponse ℤ)
fill key [] = reply_for key ∷ []
fill key (r ∷ rs) = r ∷ rs

abbrev bridges : World → World
bridges w = record w { channels = λ key n. fill key (w.channels key n) }

bridges-AnswersAll : AnswersAll bridges
bridges-AnswersAll key c w own h = (reply_for key, ap (λ b. fill key b) h, refl, refl)

abbrev found : Accepted ℤ
found = record { user = 1; account = wallet; symbol = euro }

order-IsAllowed : IsAllowed order wallet euro
unfolding check_order fxtrader.Service.Trade.Place.cost fxtrader.Base.Int.◌+ℤ◌
    fxtrader.Base.Int.◌*ℤ◌ fxtrader.Service.Trade.Place.check_expiration
    fxtrader.Service.Trade.Place.required_margin
order-IsAllowed = ((check_order_iff order wallet euro start).0 refl).0

place_trade-Progresses_example :
    let (x, w') = place_trade bridges order start in Progresses order found x w'
unfolding Users.has_id Accounts.has_name any_symbol has_display_name
place_trade-Progresses_example =
    place_trade-Progresses bridges order found ada start demo-NeverFails (λ n. refl)
      bridges-AnswersAll
      (record { reads = refl; named = refl; owned = refl; typed = refl; shown = refl }) refl
      order-IsAllowed tt (λ h. ground arith)

abbrev placed : TradeHistory ℤ
placed = record {
  id = 9;
  user_id = 1;
  symbol = "EURUSD";
  account_id = 2;
  trade_type = "BUY";
  order_type = "BUY_LIMIT";
  leverage = pos 10;
  volume = pos 20;
  entry_price = pos 5;
  close_price = pos 0;
  stop_loss = pos 0;
  take_profit = pos 0;
  profit = pos 0;
  open_time = 1005;
  close_time = none;
  close_reason = "";
  status = "OPEN";
  matched_trade_id = "2";
  expiration = none;
  account_type = "demo";
  execution_type = "";
}

order-places : (place_trade bridges order start).0 ≡ ok (placed, reply_for "new")
unfolding place_trade find_parties Users.get_user_by_id Users.has_id Accounts.get_account_by_name
    Accounts.has_name Accounts.has_id Accounts.replaced_by Accounts.update_account get_all_symbols
    any_symbol has_display_name check_order check_expiration cost required_margin ◌+ℤ◌ ◌*ℤ◌
    execute_order new_trade charged exchange conclude answered Trades.save_trade Trades.upserted
    Trades.has_id Trades.set_trade Trades.decoded_empty send_to_mt5 send_loop with_channel
    await_response
order-places = refl

placed_order_crashes_example :
    ((rest : List (TradeHistory ℤ × String)) × ((place_trade bridges order start).1.spawned
        ≡ (placed, "demo") ∷ rest))
    × ((later : World → World) (v : World)
        → mirror_goroutine program.trade_service later (placed, "demo") v ≡ (panic, v))
placed_order_crashes_example =
    placed_order_crashes no_settings read_port hash format program start start bridges order placed
      (reply_for "new") program-starts order-places

abbrev posted : TradeRequest ℤ
posted = record {
  symbol_name = "Euro";
  trade_type = "BUY";
  order_type = "BUY_LIMIT";
  leverage = pos 10;
  volume = pos 20;
  entry_price = pos 5;
  stop_loss = pos 0;
  take_profit = pos 0;
  expiration = none;
  account_type = "demo";
  account_id = "main wallet";
}

abbrev answered_request : Request
answered_request = record request { others = bridges }

posted_order-Shows_example :
    let (x, w') = serve libraries answered_request (for_users (post_trades (some posted))) start in
    ShowsPlaced posted found x
unfolding order_of Users.has_id Accounts.has_name any_symbol has_display_name has_telegram_id
posted_order-Shows_example =
    posted_order-Shows libraries answered_request posted ada found start demo-NeverFails (λ n. refl)
      bridges-AnswersAll (refl, refl) (ground (arith, eq_iff "t1" "")) refl
      (ground (arith, eq_iff "demo" "admin")) refl
      (record { reads = refl; named = refl; owned = refl; typed = refl; shown = refl }) refl
      order-IsAllowed tt (λ h. ground arith)

abbrev bob : User ℤ
bob = record ada { id = 2; telegram_id = "t2" }

abbrev from_bob : Request
from_bob = record request { telegram_id = "t2" }

abbrev two_users : World
two_users = record start { users = bob ∷ ada ∷ [] }

strangers_request_example :
    (serve libraries from_bob (for_users (put_trades_close "4")) two_users
      ≡ (say 403 "Forbidden (trade belongs to another user)", (get_trade "4" (called two_users)).1))
    × ((serve libraries from_bob (for_users (get_trades_id "4")) two_users).0
        ≡ show 200 (Body.one_trade position))
unfolding has_telegram_id get_trade get_trade_by_id Trades.has_id
strangers_request_example =
    strangers_request libraries from_bob "4" bob position two_users refl
      (ground (arith, eq_iff "t2" "")) refl (ground (arith, eq_iff "demo" "admin")) refl refl
      (ground (arith, eq_iff "1" "2"))
