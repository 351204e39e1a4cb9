-- ===== src/Service/Leaders.antt =====
-- `leaderRequestService` of service/leader_request.go.
pub mod Denied
use fxtrader.Base.{ℕ, String, Bool, true, Option, none, some, List, ◌!=s◌, if◌then◌else◌}
use fxtrader.Base.Result.{driver, new}
use fxtrader.Outside.{Outside}
use fxtrader.Model.{User, LeaderRequest}
use fxtrader.World.{Action, pure, ◌>>=◌, ◌>>◌, raise_if, on_error, present, ignore}
use fxtrader.Repo.Users.{get_user_by_id, update_user, get_users_by_leader_status}
use fxtrader.Repo.Others.{
  log_action, save_leader_request, get_leader_request_by_id, update_leader_request,
  get_pending_leader_requests,
}

module _ ⦃o : Outside⦄ where
  open o use {F}

  -- `userService.GetUser`; the error of the hex string is the library's
  unfoldable pub get_user : String → Action (Option (User F))
  get_user id = do i ← present (o.from_hex id) driver; get_user_by_id i

  -- A request before it is saved: the zero id and zero times.
  unfoldable pub request_of : User F → String → String → LeaderRequest
  request_of u user reason = record {
    id = 0;
    user_id = user;
    reason = reason;
    telegram_id = u.telegram_id;
    status = "PENDING";
    admin_reason = "";
    created_at = 0;
    updated_at = 0;
  }

  unfoldable pub create_leader_request : String → String → Action LeaderRequest
  unfolding get_user
  create_leader_request user reason = do
    found ← on_error (get_user user) (λ _. new "user not found")
    u ← present found (new "user not found")
    raise_if u.is_copy_pending_trade_leader (new "user is already a copy trade leader")
    request ← save_leader_request (request_of u user reason)
    update_user (record u { is_copy_pending_trade_leader = true })
    ignore (log_action 0 "CreateLeaderRequest" "Leader request created" "")
    pure request

  -- The checks that approval and denial begin with.
  unfoldable pub pending_request : String → Action LeaderRequest
  pending_request id = do
    i ← present (o.from_hex id) (new "invalid request ID")
    found ← get_leader_request_by_id i
    r ← present found (new "request not found")
    raise_if (r.status !=s "PENDING") (new "request is not pending")
    pure r

  unfoldable pub approve_leader_request : String → String → Action (Unit {0})
  unfolding pending_request get_user
  approve_leader_request id admin_reason = do
    r ← pending_request id
    update_leader_request (record r { status = "APPROVED"; admin_reason = admin_reason })
    found ← on_error (get_user r.user_id) (λ _. new "user not found")
    u ← present found (new "user not found")
    update_user (record u { is_copy_trade_leader = true })
    ignore (log_action 0 "ApproveLeaderRequest" "Leader request approved" "")

  unfoldable pub deny_leader_request : String → String → Action (Unit {0})
  unfolding pending_request
  deny_leader_request id admin_reason = do
    r ← pending_request id
    update_leader_request (record r { status = "DENIED"; admin_reason = admin_reason })
    ignore (log_action 0 "DenyLeaderRequest" "Leader request denied" "")

  unfoldable pub get_pending : Action (List LeaderRequest)
  get_pending = get_pending_leader_requests

  unfoldable pub get_approved_leaders : Action (List (User F))
  get_approved_leaders = get_users_by_leader_status true
