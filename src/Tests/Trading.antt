-- ===== src/Tests/Trading.antt =====
-- Orders, the bridge's answers and streams on the concrete data.
use fxtrader.Base.{arith, false, none, [], ◌∷◌, ◌≡◌, map, ◌↔◌, refl}
use fxtrader.Base.Int.{ℤ, pos}
use fxtrader.Base.Result.{ok, panic}
use fxtrader.Repo.Accounts
use fxtrader.Model.Trade.{BalanceResponse, TradeResponse, OrderStreamResponse}
use fxtrader.World.{World}
use fxtrader.Repo.Trades
use fxtrader.Repo.Trades.{upserted, get_trades_by_user_id, has_user}
use fxtrader.Repo.Trades.Expiry.{Shows, seen_at, get_trades_by_user_id-Shows}
use fxtrader.Service.Trade.Place.Checks.{IsAllowed, NotPast, check_order_iff}
use fxtrader.Service.Trade.Place.{Order, check_order, place_trade}
use fxtrader.Service.Trade.Place.Whole.{Placed, place_trade-Placed}
use fxtrader.Service.Trade.Respond.Reported.{Reports, handle_balance_response-Reports}
use fxtrader.Service.Trade.Respond.{
  handle_balance_response, handle_trade_response, handle_close_trade_response,
  handle_order_stream_response, stream_key,
}
use fxtrader.Service.Trade.Respond.Answer.{AnswerEnds, handle_trade_response-AnswerEnds}
use fxtrader.Service.Trade.Respond.Closing.{ClosingEnds, handle_close_trade_response-ClosingEnds}
use fxtrader.Service.Trade.Close.{close_trade}
use fxtrader.Service.Trade.Close.Waited.{Closes, close_trade-Closes}
use fxtrader.Service.Trade.Close.Balance.{Refused}
use fxtrader.Service.Trade.Stream.{reap, stop_stream}
use fxtrader.Service.Trade.Stream.Stopped.{stop_stream_panics}
use fxtrader.Service.Copy.{create_subscription, mirror_trade}
use fxtrader.Service.Copy.Unanswered.{copying-Refused}
use fxtrader.Tests.Demo.{demo, wallet, euro, position, start}

abbrev pub answer : TradeResponse ℤ
answer = record {
  trade_id = "4";
  user_id = "1";
  matched_trade_id = "2";
  trade_retcode = 0;
  timestamp = pos 77;
  matched_volume = pos 3;
  account_type = "demo";
  account_id = "2";
  status = "MATCHED";
  close_price = pos 8;
  close_reason = "TP";
}

abbrev pub order : Order ℤ
order = record {
  user_id = "1";
  account_name = "main wallet";
  symbol = "Euro";
  account_type = "demo";
  trade_type = "BUY";
  order_type = "BUY_LIMIT";
  leverage = pos 10;
  volume = pos 20;
  entry_price = pos 5;
  stop_loss = pos 0;
  take_profit = pos 0;
  expiration = none;
}

-- The bridge answers the order's trade while it waits.
abbrev bridge : World → World
bridge w = record w { channels = λ key n. record answer { trade_id = key } ∷ [] }

check_order_iff_example :
    ((check_order order wallet euro start).0 ≡ ok tt)
    ↔ (IsAllowed order wallet euro × NotPast 1000 none)
check_order_iff_example = check_order_iff order wallet euro start

place_trade-Placed_example :
    let (x, w') = place_trade bridge order start in Placed bridge order start x w'
place_trade-Placed_example = place_trade-Placed bridge order start

handle_trade_response-AnswerEnds_example :
    let (x, w') = handle_trade_response answer start in AnswerEnds answer position wallet start x w'
unfolding Trades.has_id Accounts.has_id
handle_trade_response-AnswerEnds_example =
    handle_trade_response-AnswerEnds answer 4 position wallet start (refl, refl, refl)
      (ground arith)

abbrev success : TradeResponse ℤ
success = record answer { status = "SUCCESS" }

handle_close_trade_response-ClosingEnds_example :
    let (x, w') = handle_close_trade_response success start in
    ClosingEnds success position wallet start x w'
unfolding Trades.has_id Accounts.has_id
handle_close_trade_response-ClosingEnds_example =
    handle_close_trade_response-ClosingEnds success 4 position wallet start (refl, refl, refl)
      (ground arith)

get_trades_by_user_id-Shows_example :
    Shows
      (map (seen_at 1001) (demo.find _ (has_user 1) start.trades))
      (get_trades_by_user_id 1 start).0
get_trades_by_user_id-Shows_example = get_trades_by_user_id-Shows 1 start

copying-Refused_example :
    let (x, w1) = create_subscription (λ w. w) "1" "1" (pos 5) "demo" start in
    let (y, w2) = mirror_trade (λ w. w) position "demo" start in
    Refused (λ w. w) start x w1 × Refused (λ w. w) start y w2
copying-Refused_example =
    copying-Refused (λ w. w) (λ w e. e) "1" "1" "demo" (pos 5) position start refl

abbrev message : OrderStreamResponse ℤ
message = record { user_id = 1; account_type = "DEMO"; trades = [] }

stop_stream_panics_example :
    (handle_order_stream_response message (reap "1:DEMO" (stop_stream "1" "DEMO" start).1)).0
    ≡ panic
unfolding stream_key
stop_stream_panics_example =
    stop_stream_panics "1" "DEMO" (record { buffer = []; is_closed = false }) start
      (reap "1:DEMO" (stop_stream "1" "DEMO" start).1) message (refl, refl, refl) refl refl refl
      refl

abbrev closing : World → World
closing w = record w { channels = λ key n. success ∷ [] }

close_trade-Closes_example :
    let (x, w') = close_trade closing "4" "1" "demo" "2" start in
    Closes closing "4" "1" "demo" "2" start x w'
close_trade-Closes_example = close_trade-Closes closing "4" "1" "demo" "2" start

abbrev report : BalanceResponse ℤ
report = record { user_id = "1"; account_id = "2"; account_type = "demo"; balance = pos 42 }

handle_balance_response-Reports_example :
    let (x, w') = handle_balance_response report start in Reports report start x w'
handle_balance_response-Reports_example = handle_balance_response-Reports report start
