-- ===== src/Tests/Others.antt =====
-- Alerts, leaders and the hub on the concrete data.
use fxtrader.Base.{String, eq_iff, arith, List, some, none, [], ◌∷◌, ◌≡◌, ◌≢◌, inl, refl}
use fxtrader.Base.Int.{ℤ, pos}
use fxtrader.Base.Result.{ok, panic}
use fxtrader.Model.{Alert, PriceData, LeaderRequest}
use fxtrader.World.{World}
use fxtrader.Repo.Others.{get_all_symbols, save_alert, log_action, save_leader_request}
use fxtrader.Repo.Users.{has_id, get_user_by_id, update_user}
use fxtrader.Service.Alerts.{has_symbol_name, create_alert, process_price}
use fxtrader.Service.Alerts.Levels.{CreationEnds, create_alert-Accepts, lone_level_panics}
use fxtrader.Service.Leaders.{request_of, create_leader_request, deny_leader_request}
use fxtrader.Service.Leaders.Denied.{Created, create_leader_request-Created, denied_cannot_ask}
use fxtrader.Hub.{Client, new_client, subscribe, Event, register, unregister, price, run}
use fxtrader.Hub.Buffers.{client_of, served, run_serves}
use fxtrader.Tests.Demo.{demo, demo-FindsMatching, demo-UpdatesFound, start}

abbrev tick : PriceData ℤ
tick = record { symbol = "EURUSD"; ask = pos 12; bid = pos 11; timestamp = 5 }

-- It has a profit level and no stop level.
abbrev lone : Alert ℤ
lone = record {
  id = 0;
  user_id = "1";
  symbol_name = "EURUSD";
  alert_type = "PRICE";
  condition = record {
    price_target = some (pos 10);
    sl = none;
    tp = some (pos 9);
    trigger_time = none;
  };
  status = "";
  created_at = 0;
  triggered_at = none;
  notification_method = "";
}

abbrev created : Alert ℤ
created = record lone { id = 9; user_id = "1"; status = "PENDING"; created_at = 1002 }

create_alert-Accepts_example :
    let (x, w') = create_alert "1" lone start in CreationEnds "1" lone start x w'
create_alert-Accepts_example = create_alert-Accepts "1" lone start

lone_level_panics_example : (process_price tick created start).0 ≡ panic
unfolding create_alert get_all_symbols save_alert log_action has_symbol_name
lone_level_panics_example =
    lone_level_panics "1" lone created start start tick refl refl (inl refl) refl

create_leader_request-Created_example :
    let (r, w') = create_leader_request "1" "please" start in Created "1" "please" start r w'
create_leader_request-Created_example = create_leader_request-Created "1" "please" start

abbrev asked : World
asked = (create_leader_request "1" "please" start).1

abbrev refused : World
refused = (deny_leader_request "new" "no" asked).1

abbrev request : LeaderRequest
request = record {
  id = 9;
  user_id = "1";
  reason = "please";
  telegram_id = "t1";
  status = "PENDING";
  admin_reason = "";
  created_at = 1002;
  updated_at = 1003;
}

denied_cannot_ask_example :
    let (x, w') = create_leader_request "1" "again" refused in
    (x ≢ panic)
    × ((y : LeaderRequest) → x ≢ ok y)
    × (w'.users ≡ refused.users)
    × (w'.leader_requests ≡ refused.leader_requests)
unfolding create_leader_request log_action get_user_by_id has_id save_leader_request update_user
    request_of
denied_cannot_ask_example =
    denied_cannot_ask demo-FindsMatching demo-UpdatesFound "1" "please" "again" "new" "no" start
      asked refused request refl refl refl

-- A client that is subscribed to one symbol, and another that comes and goes.
abbrev visitor : Client ℤ
visitor = subscribe "EURUSD" (new_client "c1")

abbrev other : Client ℤ
other = new_client "c2"

abbrev events : List Event
events =
    register other
    ∷ price tick
    ∷ price (record tick { symbol = "USDJPY" })
    ∷ unregister other
    ∷ price tick
    ∷ []

run_serves_example : client_of "c1" (run events (visitor ∷ [])) ≡ some (served events visitor)
unfolding new_client subscribe
run_serves_example =
    run_serves events "c1" (visitor ∷ []) visitor (other_ne, (tt, (tt, (other_ne, (tt, tt)))))
      (ground (arith, eq_iff "c1" "c1"))
  where
    other_ne : ◌≢◌ {A = String} "c2" "c1"
    other_ne h = ground (arith, eq_iff "c2" "c1")
