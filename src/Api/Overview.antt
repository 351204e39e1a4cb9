-- ===== src/Api/Overview.antt =====
-- `GetOverview` of api/overview_handlers.go, and the referrals of api/admin_handlers.go.
pub mod Top
pub mod Pages
use fxtrader.Base.{
  ℕ, zero, suc, ◌+◌, ◌-◌, String, Bool, not, Option, none, some, List, [], ◌∷◌, ◌++◌, map, length,
  take, ltb, ◌=s=◌, ◌||◌, if◌then◌else◌,
}
use fxtrader.Base.Int.{ℤ, pos, negsuc, ◌+ℤ◌, ◌-ℤ◌, ltb_ℤ, wrap64, quot}
use fxtrader.Outside.{Outside}
use fxtrader.Model.{User, Transaction}
use fxtrader.Model.Trade.{TradeHistory}
use fxtrader.Repo.Trades.{get_all_trades}
use fxtrader.Repo.Others.{get_all_symbols}
use fxtrader.Repo.Pages.{
  get_all_users, get_all_transactions, get_users_referred_by, get_all_referrals,
}
use fxtrader.Service.Leaders.{get_user}
use fxtrader.Api.{
  Body, Reply, Context, Handler, SymbolUsage, OverviewResponse, UserReferralResponse,
  PaginatedReferralsResponse, text_of, flag_of, pure, ◌>>=◌, ◌>>◌, say, show, call, refuse_if, need,
  logging, hex_or_zero, reply, follow, Answer,
}
use fxtrader.Api.Catalog.{at_least_one}

-- `symbolCounts[symbol]++`, on a map in the order in which its keys came.
unfoldable pub count_symbol : String → List SymbolUsage → List SymbolUsage
count_symbol s [] = record { symbol_name = s; trade_count = 1 } ∷ []
count_symbol s (u ∷ us) =
    if u.symbol_name =s= s
    then record u { trade_count = suc u.trade_count } ∷ us
    else u ∷ count_symbol s us

unfoldable pub count_symbols : List String → List SymbolUsage → List SymbolUsage
unfolding count_symbol
count_symbols [] us = us
count_symbols (s ∷ ss) us = count_symbols ss (count_symbol s us)

-- The loop on `j`, for the element `x` at `i`: the element at `i` at its end, and the others.
unfoldable pub inner : SymbolUsage → List SymbolUsage → SymbolUsage × List SymbolUsage
inner x [] = (x, [])
inner x (y ∷ ys) =
    let (a, as') = inner y ys in
    let (b, bs) = inner x ys in
    if ltb x.trade_count y.trade_count then (a, x ∷ as') else (b, y ∷ bs)

-- The loop on `i`; `n` is the number of elements from `i` on.
unfoldable pub sort_rounds : ℕ → List SymbolUsage → List SymbolUsage
unfolding inner
sort_rounds zero xs = xs
sort_rounds (suc n) [] = []
sort_rounds (suc n) (x ∷ xs) = let (a, rest) = inner x xs in a ∷ sort_rounds n rest

unfoldable pub sort_usages : List SymbolUsage → List SymbolUsage
unfolding sort_rounds
sort_usages us = sort_rounds (length us) us

-- `len(topSymbols) > 5`
unfoldable pub top_five : List SymbolUsage → List SymbolUsage
unfolding sort_usages
top_five us = take 5 (sort_usages us)

unfoldable pub count_of : {A : Type 0} → (A → Bool) → List A → ℕ
count_of p [] = 0
count_of p (x ∷ xs) = if p x then suc (count_of p xs) else count_of p xs

module _ ⦃o : Outside⦄ where
  open o use {F}

  unfoldable pub is_pending_trade : TradeHistory F → Bool
  is_pending_trade t = t.status =s= "PENDING"

  unfoldable pub is_pending_transaction : Transaction F → Bool
  is_pending_transaction t = t.status =s= "PENDING"

  unfoldable pub summary : ℕ → List (TradeHistory F) → List (Transaction F) → ℕ → OverviewResponse
  unfolding count_of is_pending_trade is_pending_transaction top_five count_symbols
  summary user_count trades transactions symbol_count = record {
    user_count = user_count;
    total_trades = length trades;
    pending_trades = count_of is_pending_trade trades;
    total_transactions = length transactions;
    pending_transactions = count_of is_pending_transaction transactions;
    top_symbols = top_five (count_symbols (map (λ t. t.symbol) trades) []);
    symbols = symbol_count;
  }

  unfoldable pub show_overview : Context → Handler (Reply F)
  unfolding summary
  show_overview c = do
    refuse_if (not (flag_of c.is_admin)) (say 403 "Forbidden (non-admin)")
    users ← call get_all_users (λ _. say 500 "Failed to retrieve user data")
    trades ← call get_all_trades (λ _. say 500 "Failed to retrieve trade data")
    symbols ← call get_all_symbols (λ _. say 500 "Failed to retrieve symbbols")
    transactions ← call get_all_transactions (λ _. say 500 "Failed to retrieve transaction data")
    logging (hex_or_zero (text_of c.user_id)) "GetOverview" "Admin overview data retrieved" c.ip
    pure (show 200 (Body.overview_of (summary (length users) trades transactions (length symbols))))

  -- `describe` is the library's `ObjectID.String`, or `Hex`.
  unfoldable pub referral_response : (ℕ → String) → User F → List (User F) → UserReferralResponse
  referral_response describe u referred = record {
    user_id = o.to_hex u.id;
    username = u.username;
    referral_code = u.referral_code;
    referred_by = describe u.referred_by;
    referred_users = map (λ v. o.to_hex v.id) referred;
  }

  -- `GetUserReferrals`; the numbers are those of the query.
  unfoldable pub show_referrals : (ℕ → String) → Context → Option ℤ → Option ℤ → Handler (Reply F)
  unfolding referral_response
  show_referrals describe c page limit = do
    user ← need c.user_id (say 401 "Unauthorized")
    found ← call (get_user user) (λ _. say 404 "User not found")
    u ← need found (say 404 "User not found")
    p ← at_least_one page "Invalid page number"
    l ← at_least_one limit "Invalid limit"
    (referred, total) ←
        call (get_users_referred_by u.referral_code p l)
          (λ _. say 500 "Failed to fetch referred users")
    pure (show 200 (Body.referrals_of (referral_response describe u referred)))

  -- The loop over the users of the page.
  unfoldable pub referral_rows : List (User F) → Handler (List UserReferralResponse)
  unfolding referral_response
  referral_rows [] = pure []
  referral_rows (u ∷ us) = do
    (referred, total) ←
        call (get_users_referred_by u.referral_code (pos 1) (pos 1000))
          (λ _. say 500 "Failed to fetch referred users")
    rest ← referral_rows us
    pure (referral_response o.to_hex u referred ∷ rest)

  -- `(total + limit - 1) / limit` on `int64`, with a limit that is at least 1.
  unfoldable pub total_pages : ℕ → ℕ → ℤ
  total_pages total limit = quot (wrap64 (wrap64 (pos total +ℤ pos limit) -ℤ pos 1)) limit

  abbrev natural : ℤ → ℕ
  natural (pos n) = n
  natural (negsuc n) = 0

  -- `GetAllReferrals`: it asks whether "is_admin" is set.
  unfoldable pub show_all_referrals : Context → Option ℤ → Option ℤ → Handler (Reply F)
  unfolding referral_rows total_pages
  show_all_referrals c page limit = do
    _ ← need c.is_admin (say 401 "Admin access required")
    p ← at_least_one page "Invalid page number"
    l ← at_least_one limit "Invalid limit"
    (users, total) ← call (get_all_referrals p l) (λ _. say 500 "Failed to fetch referrals")
    rows ← referral_rows users
    pure (
        show 200 (
          Body.paged_referrals (record {
            users = rows;
            total = total;
            page = p;
            limit = l;
            total_pages = total_pages total (natural l);
          })))
