-- ===== src/Api/Routes/Placing.antt =====
-- An order that is posted: the route, its authentication, the handler and `PlaceTrade` together.
use fxtrader.Base.{
  suc, String, true, false, some, [], ◌≡◌, ◌≢◌, refl, arith, eq_iff, ◌=s=◌, ◌&&◌, ◌||◌, Bool-cases,
  inl, inr, if◌then◌else◌,
}
use fxtrader.Base.Int.{pos}
use fxtrader.Outside.{Outside}
use fxtrader.Outside.Laws.{NeverFails}
use fxtrader.Model.{User}
use fxtrader.Model.Trade.{TradeHistory, TradeResponse}
use fxtrader.World.{World, called}
use fxtrader.Repo.Users
use fxtrader.Repo.Users.{get_user_by_telegram_id}
use fxtrader.Service.Trade.Place.{Order, Accepted, place_trade}
use fxtrader.Service.Trade.Place.Checks.{IsAllowed, NotPast, AreParties}
use fxtrader.Service.Trade.Place.Progress.{
  IdsAreSet, AnswersAll, Progresses, place_trade-Progresses,
}
use fxtrader.Api.{Reply, Body, Context, go, show, hex_or_zero}
use fxtrader.Api.Access.{names, context_of, logging-goes, auth_passes}
use fxtrader.Api.Trades.{TradeRequest, order_of, place}
use fxtrader.Api.Routes.{for_users, handle, recovered, serve}
use fxtrader.Api.Routes.OfUsers.{post_trades, handle_user}
use fxtrader.Api.Routes.Requests.{Libraries, Request}

module _ ⦃o : Outside⦄ where
  open o use {F, float, lt, le}

  abbrev pub kind_of : String → String
  kind_of type = if type =s= "MARKET" then "platform" else "user-to-user"

  -- `strings.Contains` on the text of a market order.
  abbrev pub ReadsMarket : Libraries → Type 0
  ReadsMarket l = (l.contains "MARKET" "LIMIT" ≡ false) × (l.contains "MARKET" "STOP" ≡ false)

  -- The reply shows an open trade of the user, with the volume that was asked for.
  abbrev pub ShowsPlaced : TradeRequest F → Accepted F → Reply F → Type 0
  ShowsPlaced r p x =
      (t : TradeHistory F) × (a : TradeResponse F) × (x
        ≡ show 201 (Body.placed t a (kind_of r.order_type)))
      × (t.status ≡ "OPEN")
      × (t.user_id ≡ p.user)
      × (t.symbol ≡ p.symbol.symbol_name)
      × (t.volume ≡ r.volume)

  market_price :
      (q : Order F) (p : Accepted F)
      → IsAllowed q p.account p.symbol
      → ((q.order_type =s= "MARKET") && lt (float (pos 0)) q.entry_price) ≡ false
  market_price q p h = elim (Bool-cases (q.order_type =s= "MARKET")) [
    | inl e ↦ let f = h.unpriced ((eq_iff q.order_type "MARKET").0 e) in rw (e, f) refl
    | inr e ↦ rw e refl
  ]

  other_price :
      (l : Libraries) (q : Order F) (p : Accepted F)
      → ReadsMarket l
      → IsAllowed q p.account p.symbol
      → ((l.contains q.order_type "LIMIT" || l.contains q.order_type "STOP")
          && le q.entry_price (float (pos 0)))
        ≡ false
  other_price l q p (limit, stop) h = elim (Bool-cases (q.order_type =s= "MARKET")) [
    | inl e ↦ rw ((eq_iff q.order_type "MARKET").0 e, limit, stop) refl
    | inr e ↦
        let f = h.priced (λ m. ground (arith, e, (eq_iff q.order_type "MARKET").1 m)) in
        ground (arith, f)
  ]

  -- The handler on an order that `PlaceTrade` places.
  placed-Shows :
      (l : Libraries) (others : World → World) (c : Context) (user : String) (r : TradeRequest F)
      (p : Accepted F) (w : World)
      → c.user_id ≡ some user
      → ReadsMarket l
      → let q = order_of user r in
        IsAllowed q p.account p.symbol
        → let (y, w') = place_trade others q w in
          Progresses q p y w'
          → let (x, w2) = place l.contains others c (some r) w in
            (z : Reply F) × (x ≡ go z) × ShowsPlaced r p z
  unfolding place order_of
  placed-Shows l others c user r p w is reads allowed
        (t, a, e, open_now, of, _, sym_of, vol, _, _) =
      let q = order_of user r in
      let market = market_price q p allowed in
      let other = other_price l q p reads allowed in
      let w1 = (place_trade others q w).1 in
      (
        show 201 (Body.placed t a (kind_of r.order_type)),
        rw
            (
              is,
              market,
              other,
              e,
              logging-goes (hex_or_zero user) "PlaceTrade" "Trade order placed" c.ip w1,
            )
            refl,
        (t, a, refl, open_now, of, sym_of, vol),
      )

  -- Where no call fails and new ids are not zero, an order that is posted by an active user who is
  -- no admin, for an account and a symbol that are there, and that meets the conditions, is
  -- answered with 201 and shows an open trade of the user, of the symbol and the volume that were
  -- asked for, if some bridge is connected, the others answer on every open channel that the trade
  -- is matched, and `strings.Contains` finds neither "LIMIT" nor "STOP" in "MARKET".
  pub posted_order-Shows :
      (l : Libraries) (q : Request) (r : TradeRequest F) (u : User F) (p : Accepted F) (w : World)
      → NeverFails
      → IdsAreSet
      → AnswersAll q.others
      → ReadsMarket l
      → q.telegram_id ≢ ""
      → names q.telegram_id w ≡ some u
      → u.account_type ≢ "admin"
      → u.is_active ≡ true
      → let order = order_of (o.to_hex u.id) r in
        AreParties order (called w) p
        → o.find_one (User F) (Users.has_id p.user) w.users ≡ some u
        → IsAllowed order p.account p.symbol
        → NotPast (o.clock (suc (suc (suc (suc w.calls))))) r.expiration
        → w.connections ≢ []
        → let (x, w') = serve l q (for_users (post_trades (some r))) w in ShowsPlaced r p x
  unfolding serve handle recovered handle_user order_of
  posted_order-Shows l q r u p w never ids answers reads ne n plain active parties found allowed
        later linked =
      let order = order_of (o.to_hex u.id) r in
      let c = context_of u q.ip in
      let placed =
        place_trade-Progresses q.others order p u (called w) never ids answers parties found allowed
          later linked in
      let (z, ends, shows) =
        placed-Shows l q.others c (o.to_hex u.id) r p (called w) refl reads allowed placed in
      rw (auth_passes q.telegram_id q.ip u w (never w.calls) ne n plain active, ends) shows
