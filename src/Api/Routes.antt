-- ===== src/Api/Routes.antt =====
-- `SetupRoutes` of api/routes.go: which handler serves a route and which authentication is before
-- it. The files and the documentation that the server shows are not routes of the model, and the
-- websocket of the hub is in Hub/Handler. If the working directory cannot be read, `SetupRoutes`
-- returns before it has made a route but /health; the model is of the other case.
pub mod Requests
pub mod Open
pub mod OfUsers
pub mod OfAdmins
pub mod Guards
pub mod Placing
pub mod Strangers
use fxtrader.Base.{ℕ, String}
use fxtrader.Outside.{Outside}
use fxtrader.World.{World}
use fxtrader.Api.{Reply, Answer, go, reply, crashed, Handler, ◌>>=◌, say}
use fxtrader.Api.Auth.{as_user, admin_auth}
use fxtrader.Api.Routes.Requests.{Libraries, Request}
use fxtrader.Api.Routes.Open.{OpenRoute, handle_open}
use fxtrader.Api.Routes.OfUsers.{UserRoute, handle_user}
use fxtrader.Api.Routes.OfAdmins.{AdminRoute, handle_admin}

pub data Route (F : Type 0) : Type 0 where
  for_all : OpenRoute F → Route F
  for_users : UserRoute F → Route F
  for_admins : AdminRoute F → Route F

module _ ⦃o : Outside⦄ where
  open o use {F}

  unfoldable pub handle : Libraries → Request → Route F → Handler (Reply F)
  unfolding handle_open handle_user handle_admin
  handle l q (for_all r) = handle_open l q r
  handle l q (for_users r) = as_user q.telegram_id q.ip (handle_user l q r)
  handle l q (for_admins r) =
      admin_auth l.split l.parse l.byte_length q.authorization q.ip >>= handle_admin l q r

  -- `gin.Recovery` answers 500 for a handler that panics.
  unfoldable pub recovered : Answer F (Reply F) → Reply F
  recovered (go r) = r
  recovered (reply r) = r
  recovered crashed = say 500 ""

  unfoldable pub serve : Libraries → Request → Route F → World → Reply F × World
  unfolding handle recovered
  serve l q r w = let (a, w') = handle l q r w in (recovered a, w')
