-- ===== src/Api/Routes/Strangers.antt =====
-- What the routes of trades answer to a user whose trade it is not.
use fxtrader.Base.{String, true, false, some, ◌≡◌, ◌≢◌, refl}
use fxtrader.Base.Result.{ok}
use fxtrader.Outside.{Outside}
use fxtrader.Model.{User}
use fxtrader.Model.Trade.{TradeHistory}
use fxtrader.World.{World, called}
use fxtrader.Api.{Body, say, show}
use fxtrader.Api.Access.{names, context_of, auth_passes, strangers_trade}
use fxtrader.Api.Trades.{get_trade}
use fxtrader.Api.Routes.{for_users, handle, recovered, serve}
use fxtrader.Api.Routes.OfUsers.{put_trades_close, get_trades_id, handle_user}
use fxtrader.Api.Routes.Requests.{Libraries, Request}

module _ ⦃o : Outside⦄ where
  open o use {F, fails}

  -- An active user who is no admin asks for a trade that the lookup finds and that is another
  -- user's: the request to close it is answered with 403, in the state that the lookup leaves, and
  -- the request to see it is answered with the trade.
  pub strangers_request :
      (l : Libraries) (q : Request) (id : String) (u : User F) (t : TradeHistory F) (w : World)
      → fails w.calls ≡ false
      → q.telegram_id ≢ ""
      → names q.telegram_id w ≡ some u
      → u.account_type ≢ "admin"
      → u.is_active ≡ true
      → (get_trade id (called w)).0 ≡ ok (some t)
      → o.to_hex t.user_id ≢ o.to_hex u.id
      → (serve l q (for_users (put_trades_close id)) w
          ≡ (say 403 "Forbidden (trade belongs to another user)", (get_trade id (called w)).1))
        × ((serve l q (for_users (get_trades_id id)) w).0 ≡ show 200 (Body.one_trade t))
  unfolding serve handle recovered handle_user
  strangers_request l q id u t w up ne n plain active found other =
      let c = context_of u q.ip in
      let (closing, seeing) = strangers_trade q.others c id t (called w) found other in
      let passes = auth_passes q.telegram_id q.ip u w up ne n plain active in
      (rw (passes, closing) refl, rw (passes, seeing) refl)
