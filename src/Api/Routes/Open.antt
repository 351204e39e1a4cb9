-- ===== src/Api/Routes/Open.antt =====
-- The routes of api/routes.go that have no authentication.
use fxtrader.Base.{String, Option}
use fxtrader.Outside.{Outside}
use fxtrader.Model.{PriceData, User}
use fxtrader.Api.{Reply, Handler, pure, say}
use fxtrader.Api.Auth.{AdminLoginRequest, admin_login}
use fxtrader.Api.Users.{signup, show_me, login}
use fxtrader.Api.Catalog.{take_price, show_symbol, show_symbols, show_rules}
use fxtrader.Api.Routes.Requests.{Libraries, Request}

-- A route with the parameter of its path and what its body binds to.
pub data OpenRoute (F : Type 0) : Type 0 where
  get_health : OpenRoute F
  post_prices : Option (PriceData F) → OpenRoute F
  post_users_signup : Option (User F) → OpenRoute F
  get_users_me : String → OpenRoute F
  post_users_login : Option String → OpenRoute F
  get_symbols : OpenRoute F
  get_symbols_id : String → OpenRoute F
  get_rules : OpenRoute F
  post_admin_login : Option AdminLoginRequest → OpenRoute F

module _ ⦃o : Outside⦄ where
  open o use {F}

  unfoldable pub handle_open : Libraries → Request → OpenRoute F → Handler (Reply F)
  handle_open l q get_health = pure (say 200 "healthy")
  handle_open l q (post_prices p) = take_price q.ip p
  handle_open l q (post_users_signup u) = signup l.code_of q.uuid q.ip u
  handle_open l q (get_users_me x) = show_me q.ip x
  handle_open l q (post_users_login t) = login q.ip t
  handle_open l q get_symbols = show_symbols q.ip
  handle_open l q (get_symbols_id x) = show_symbol q.ip x
  handle_open l q get_rules = show_rules
  handle_open l q (post_admin_login r) = admin_login l.matches l.sign r
