-- ===== src/Tests/Demo.antt =====
-- An instance of the outside code: integers for `float64`, lists for collections, calls that never
-- fail, and one of each document.
use fxtrader.Base.{
  ℕ, String, Bool, true, false, Option, none, some, List, [], ◌∷◌, ◌+◌, ◌/◌, ◌≡◌, find?, select,
  take, drop, length, arith, refl, if◌then◌else◌, ◌=s=◌, ◌==◌,
}
use fxtrader.Base.Int.{ℤ, pos, pos_part, ◌+ℤ◌, ◌-ℤ◌, ◌*ℤ◌, ltb_ℤ, leb_ℤ}
use fxtrader.Outside.{Outside}
use fxtrader.Outside.Laws.{FindsMatching, UpdatesFound, UpsertsFound, InsertsFound, NeverFails}
use fxtrader.Model.{Account, User, Transaction, Symbol}
use fxtrader.Model.Trade.{TradeHistory}
use fxtrader.World.{World}

module _ {D : Type 0} where
  abbrev update_first : (D → Bool) → (D → D) → List D → List D
  update_first p f [] = []
  update_first p f (x ∷ xs) = if p x then f x ∷ xs else x ∷ update_first p f xs

  abbrev upsert_first : (D → Bool) → (D → D) → D → List D → List D
  upsert_first p f new [] = new ∷ []
  upsert_first p f new (x ∷ xs) = if p x then f x ∷ xs else x ∷ upsert_first p f new xs

  abbrev delete_first : (D → Bool) → List D → List D
  delete_first p [] = []
  delete_first p (x ∷ xs) = if p x then xs else x ∷ delete_first p xs

  abbrev matched : (D → Bool) → List D → ℕ
  matched p xs = elim (find? p xs) [ none ↦ 0 | some x ↦ 1 ]

  find-matching : (p : D → Bool) (xs : List D) (d : D) → find? p xs ≡ some d → p d ≡ true
  find-matching p [] d h = ground arith
  find-matching p (x ∷ xs) d h = ground (arith, find-matching p xs d)

  find-update :
      (p : D → Bool) (f : D → D) (xs : List D) (d : D)
      → find? p xs ≡ some d
      → p (f d) ≡ true
      → find? p (update_first p f xs) ≡ some (f d)
  find-update p f [] d h e = ground arith
  find-update p f (x ∷ xs) d h e = ground (arith, find-update p f xs d)

  find-upsert :
      (p : D → Bool) (f : D → D) (new : D) (xs : List D) (d : D)
      → find? p xs ≡ some d
      → p (f d) ≡ true
      → find? p (upsert_first p f new xs) ≡ some (f d)
  find-upsert p f new [] d h e = ground arith
  find-upsert p f new (x ∷ xs) d h e = ground (arith, find-upsert p f new xs d)

abbrev read_id : String → Option ℕ
read_id s =
    if s =s= "1"
    then some 1
    else if s =s= "2"
    then some 2
    else if s =s= "3"
    then some 3
    else if s =s= "4"
    then some 4
    else if s =s= "new"
    then some 9
    else none

abbrev show_id : ℕ → String
show_id i =
    if i == 1
    then "1"
    else if i == 2
    then "2"
    else if i == 3
    then "3"
    else if i == 4
    then "4"
    else "new"

instance abbrev pub demo : Outside
demo = record {
  F = ℤ;
  float = λ n. n;
  cent = pos 1;
  add = ◌+ℤ◌;
  sub = ◌-ℤ◌;
  mul = ◌*ℤ◌;
  div = λ a b. pos (pos_part a / pos_part b);
  neg = λ a. pos 0 -ℤ a;
  min = λ a b. if leb_ℤ a b then a else b;
  lt = ltb_ℤ;
  le = leb_ℤ;
  to_int = λ n. n;
  unix = pos_part;
  from_hex = read_id;
  to_hex = show_id;
  new_id = λ n. 9;
  clock = λ n. 1000 + n;
  fails = λ n. false;
  Coll = λ D. List D;
  find_one = λ D p xs. find? p xs;
  find = λ D p xs. select p xs;
  find_sorted = λ D p key xs. select p xs;
  find_page = λ D p skip limit xs. take (pos_part limit) (drop (pos_part skip) (select p xs));
  find_sorted_page =
      λ D p key skip limit xs. take (pos_part limit) (drop (pos_part skip) (select p xs));
  count = λ D p xs. length (select p xs);
  update_one = λ D p f xs. (update_first p f xs, matched p xs);
  upsert_one = λ D p f new xs. upsert_first p f new xs;
  insert_one = λ D d xs. d ∷ xs;
  delete_one = λ D p xs. (delete_first p xs, matched p xs);
}

pub demo-FindsMatching : FindsMatching
demo-FindsMatching D p c d h = find-matching p c d h

pub demo-UpdatesFound : UpdatesFound
demo-UpdatesFound D p f c d h e = find-update p f c d h e

pub demo-UpsertsFound : UpsertsFound
demo-UpsertsFound D p f new c d h e = find-upsert p f new c d h e

find-insert :
    {D : Type 0} (p : D → Bool) (d : D) (xs : List D) → p d ≡ true → find? p (d ∷ xs) ≡ some d
find-insert p d xs h = rw h refl

pub demo-InsertsFound : InsertsFound
demo-InsertsFound D p c d h e = find-insert p d c e

pub demo-NeverFails : NeverFails
demo-NeverFails n = refl

abbrev pub ada : User ℤ
ada = record {
  id = 1;
  full_name = "Ada";
  phone_number = "";
  telegram_id = "t1";
  username = "ada";
  card_number = "";
  citizenship = "";
  national_id = "";
  residence = "";
  birthday = "";
  registration_date = 0;
  is_active = true;
  is_copy_trade_leader = false;
  account_type = "demo";
  is_copy_pending_trade_leader = false;
  balance = pos 100;
  bonus = pos 0;
  leverage = pos 1;
  trade_type = "";
  wallet_address = "";
  referral_code = "";
  referred_by = 0;
  account_types = [];
}

abbrev pub wallet : Account ℤ
wallet = record {
  id = 2;
  user_id = 1;
  account_name = "main wallet";
  account_type = "demo";
  wallet_id = "wallet-1";
  balance = pos 500;
  registration_date = 0;
  is_active = true;
}

abbrev pub euro : Symbol ℤ
euro = record {
  id = 1;
  symbol_name = "EURUSD";
  display_name = "Euro";
  category = "";
  denied_accounts = [];
  leverage = pos 100;
  min_lot = pos 1;
  max_lot = pos 50;
  spread = pos 0;
  commission_deposit = pos 0;
  commission_fee = pos 2;
  commission_withdrawal = pos 0;
  trading_hours = record { unlimited = false; open_time = "08:00"; close_time = "18:00" };
  is_trading_open = true;
  created_at = 0;
  updated_at = 0;
}

abbrev pub withdrawal : Transaction ℤ
withdrawal = record {
  id = 3;
  user_id = "1";
  telegram_id = "t1";
  transaction_type = "WITHDRAWAL";
  payment_method = "CARD_TO_CARD";
  amount = pos 700;
  receipt_image = "";
  status = "PENDING";
  request_time = 0;
  response_time = none;
  reason = "";
  admin_comment = "";
}

abbrev pub deposit : Transaction ℤ
deposit = record withdrawal { id = 4; transaction_type = "DEPOSIT"; amount = pos 30 }

abbrev pub position : TradeHistory ℤ
position = record {
  id = 4;
  user_id = 1;
  symbol = "EURUSD";
  account_id = 2;
  trade_type = "BUY";
  order_type = "MARKET";
  leverage = pos 1;
  volume = pos 10;
  entry_price = pos 5;
  close_price = pos 0;
  stop_loss = pos 0;
  take_profit = pos 0;
  profit = pos 0;
  open_time = 0;
  close_time = none;
  close_reason = "";
  status = "OPEN";
  matched_trade_id = "";
  expiration = none;
  account_type = "demo";
  execution_type = "";
}

abbrev pub start : World
start = record {
  calls = 0;
  users = ada ∷ [];
  accounts = wallet ∷ [];
  trades = position ∷ [];
  symbols = euro ∷ [];
  transactions = withdrawal ∷ deposit ∷ [];
  leader_requests = [];
  alerts = [];
  subscriptions = [];
  copy_trades = [];
  logs = [];
  rules = [];
  admins = [];
  prices = [];
  connections = "bridge" ∷ [];
  sent = [];
  trade_chans = [];
  channels = λ key n. [];
  next_channel = 0;
  balance_chan = [];
  stream_ctx = "1:DEMO" ∷ [];
  order_chans = ("1:DEMO", record { buffer = []; is_closed = false }) ∷ [];
  spawned = [];
  broadcasts = [];
}
