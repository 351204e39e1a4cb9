-- ===== src/Tests/Web.antt =====
-- The HTTP handlers, the websocket and the server of the bridges on the concrete data.
use fxtrader.Base.{
  ℕ, ◌+◌, ◌*◌, ◌≤◌, ◌<◌, arith, eq_iff, String, Bool, true, some, none, List, [], ◌∷◌, ◌++◌, map,
  length, ◌≡◌, ◌≢◌, ◌⊎◌, refl, ap, subst, lookup, erase, ◌=s=◌,
}
use Prim.Native.Nat.{◌^◌}
use mathlib.Core.List.{Perm}
use fxtrader.Base.Int.{ℤ, pos, ◌≤ℤ◌}
use fxtrader.Model.{User, Rule}
use fxtrader.Model.Trade.{TradeHistory, Request}
use fxtrader.World.{called}
use fxtrader.Service.Transactions.History.{
  approval, denial, ReviewedOnce, perform_all, perform_all-ReviewedOnce,
}
use fxtrader.Api.{Body, SymbolUsage, go, say, show}
use fxtrader.Api.Auth.{user_auth}
use fxtrader.Api.Users.{signup}
use fxtrader.Api.Users.Signup.{SignsUp, signup-SignsUp}
use fxtrader.Api.Access.{AuthEnds, user_auth-AuthEnds}
use fxtrader.Api.Overview.{count_symbols, count_of, summary, total_pages}
use fxtrader.Api.Overview.Top.{IsDescending, uses, summary_lem}
use fxtrader.Api.Overview.Pages.{total_pages_lem}
use fxtrader.Api.Catalog.{add_rule, show_rule, edit_rule}
use fxtrader.Api.Catalog.Rules.{rule_round_trip}
use fxtrader.Hub.{new_client}
use fxtrader.Hub.Handler.{SocketMessage, Session, on_message}
use fxtrader.Hub.Strangers.{RoundEnds, on_message-RoundEnds}
use fxtrader.Socket.{Client, Server, done, blocked, holds, on_ping, on_disconnect}
use fxtrader.Socket.Messages.{Fields, Incoming, typed, not_json, untyped}
use fxtrader.Socket.Clients.{send_request, remove_client, is_client_connected}
use fxtrader.Socket.Connection.{read_error, read_loop, ticked, ping_monitor, process_message}
use fxtrader.Socket.Locks.{IsRunning, IsIdle}
use fxtrader.Socket.Deadlock.{process_message-Idle, disconnect_deadlocks}
use fxtrader.Socket.Loops.{errors, read_loop-errors, ping_monitor-ends}
use fxtrader.Tests.Demo.{
  demo, demo-FindsMatching, demo-UpdatesFound, demo-InsertsFound, demo-NeverFails, ada, position,
  start,
}

-- The deposit is approved, and then once more, and then denied.
perform_all-ReviewedOnce_example :
    let w' =
      perform_all "4" (approval "seen" "" ∷ approval "again" "" ∷ denial "no" "" ∷ []) start in
    ReviewedOnce "4" start.transactions start.users w'.transactions w'.users
perform_all-ReviewedOnce_example =
    perform_all-ReviewedOnce demo-FindsMatching demo-UpdatesFound "4"
      (approval "seen" "" ∷ approval "again" "" ∷ denial "no" "" ∷ []) start

user_auth-AuthEnds_example :
    let (r, w') = user_auth "t1" "::1" start in
    AuthEnds "t1" "::1" start r × ((w' ≡ start) ⊎ (w' ≡ called start))
user_auth-AuthEnds_example = user_auth-AuthEnds "t1" "::1" start

abbrev others : List (TradeHistory ℤ)
others = record position { symbol = "GBPUSD" } ∷ position ∷ position ∷ []

summary_lem_example :
    let s = summary 1 others [] 2 in
    (rest : List SymbolUsage) × Perm
      (count_symbols (map (λ x. x.symbol) others) [])
      (s.top_symbols ++ rest)
    × IsDescending (s.top_symbols ++ rest)
    × ((length s.top_symbols ≡ 5) ⊎ ((length s.top_symbols ≤ 5) × (rest ≡ [])))
    × ((t : String) → uses t (s.top_symbols ++ rest) ≡ count_of (λ x. x.symbol =s= t) others)
summary_lem_example = summary_lem 1 2 others []

total_pages_lem_example :
    (21 + 10 ≤ 2 ^ 63 → (n : ℕ) × (total_pages 21 10 ≡ pos n) × (21 ≤ n * 10) × (n * 10 < 21 + 10))
    × (2 ^ 63 < 21 + 10 → 21 + 10 ≤ 2 ^ 64 → total_pages 21 10 ≤ℤ pos 0)
total_pages_lem_example = total_pages_lem 21 10 (omega arith)

abbrev rule : Rule
rule = record { id = 0; content = "be kind"; created_at = 0 }

rule_round_trip_example :
    let stored = record rule { id = 9; created_at = 1001 } in
    let (x, w1) = add_rule (some rule) start in
    let (y, w2) = edit_rule "new" (some (record rule { content = "be fair" })) w1 in
    (x ≡ go (say 201 "Rule created"))
    × ((show_rule "new" w1).0 ≡ go (show 200 (Body.one_rule stored)))
    × (y ≡ go (say 200 "Rule updated"))
    × ((show_rule "new" w2).0
        ≡ go (show 200 (Body.one_rule (record stored { content = "be fair" }))))
rule_round_trip_example =
    rule_round_trip demo-InsertsFound demo-UpdatesFound demo-NeverFails rule
      (record rule { content = "be fair" }) start refl (ground (arith, eq_iff "be kind" ""))
      (ground (arith, eq_iff "be fair" "")) refl

abbrev session : Session
session = record {
  client = new_client "c1";
  world = start;
  told = [];
  forwards = [];
  has_left = Bool.false;
}

abbrev for_nobody : SocketMessage
for_nobody = record {
  action = "subscribe_trades";
  symbol = "";
  account_type = "DEMO";
  user_id = "nobody";
}

on_message-RoundEnds_example :
    RoundEnds (some for_nobody) session ((on_message (some for_nobody) session).0)
on_message-RoundEnds_example = on_message-RoundEnds (some for_nobody) session

abbrev bridge : Client
bridge = record { conn = 7; ping = 1; client_id = "mt5"; mutex = 2 }

abbrev server : Server
server = record {
  handlers = ("ping", on_ping) ∷ ("disconnect", on_disconnect) ∷ [];
  clients = ("mt5", bridge) ∷ [];
  clients_mu = Bool.false;
  held = [];
  cancelled = [];
  is_stopped = Bool.false;
  closed = [];
  monitors = [];
  has_trade_service = true;
  mt5_conn = some 7;
  written = [];
  next = 3;
  world = start;
}

abbrev nothing : Fields ℤ
nothing = record {
  client_id = none;
  account_name = none;
  user_id = none;
  trade_response = none;
  balance_response = none;
  order_stream = none;
}

abbrev kind_of : Incoming ℤ → String
kind_of not_json = ""
kind_of untyped = ""
kind_of (typed kind f) = kind

ping_stays :
    (kind : String) (f : Fields ℤ)
    → typed "ping" nothing ≡ typed kind f
    → lookup kind server.handlers ≢ some on_disconnect
ping_stays kind f e =
    subst (λ k. lookup k server.handlers ≢ some on_disconnect) (ap kind_of e) (ground arith)

process_message-Idle_example :
    let (r, s') = process_message (typed "ping" nothing) 7 "mt5" server in IsRunning r × IsIdle s'
process_message-Idle_example =
    process_message-Idle (typed "ping" nothing) 7 "mt5" server (refl, refl) ping_stays

disconnect_deadlocks_example :
    let (r, s') = process_message (typed "disconnect" nothing) 7 "mt5" server in
    (r ≡ blocked)
    × ((m : Incoming ℤ) (other : ℕ) (id x : String) → (process_message m other id s').0 ≢ done x)
    × ((q : Request ℤ) → send_request q s' ≡ (blocked, s'))
    × ((id : String) → remove_client id s' ≡ (blocked, s'))
    × ((id : String) → is_client_connected id s' ≡ (blocked, s'))
disconnect_deadlocks_example = disconnect_deadlocks nothing 7 bridge server (refl, refl) refl refl

read_loop-errors_example :
    (10 ≤ 4 + 6 → read_loop (errors read_error 6 []) 7 "mt5" 4 server ≡ (done true, server))
    × (4 + 6 < 10
        → read_loop (errors read_error 6 []) 7 "mt5" 4 server ≡ read_loop [] 7 "mt5" (4 + 6) server)
read_loop-errors_example = read_loop-errors 6 4 [] 7 "mt5" server (omega arith)

abbrev gone : Server
gone = record server { closed = 7 ∷ [] }

ping_monitor-ends_example :
    let (r, s') = ping_monitor bridge (errors ticked 5 []) 0 gone in
    (r ≡ done true) × (s'.clients ≡ erase "mt5" gone.clients)
unfolding holds
ping_monitor-ends_example =
    ping_monitor-ends 5 0 [] bridge bridge gone (refl, refl) refl refl (omega arith) (omega arith)

abbrev applicant : User ℤ
applicant = record ada { telegram_id = "t9"; referral_code = "" }

signup-SignsUp_example :
    let (x, w') = signup (λ name time. name) "code" "::1" (some applicant) start in
    SignsUp applicant start x w'
signup-SignsUp_example = signup-SignsUp (λ name time. name) "code" "::1" applicant start
