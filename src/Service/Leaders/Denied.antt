-- ===== src/Service/Leaders/Denied.antt =====
-- A request to become a leader that is denied.
use fxtrader.Base.{
  ℕ, suc, String, true, false, some, ◌≡◌, ◌≢◌, inl, inr, refl, sym, ap, subst, ◌∙◌, arith,
  Bool-cases, Option-cases, ==_iff,
}
use fxtrader.Base.Result.{Result, ok, err, panic}
use fxtrader.Outside.{Outside}
use fxtrader.Outside.Laws.{UpdatesFound, FindsMatching}
use fxtrader.Model.{User, LeaderRequest}
use fxtrader.World.{World, Action, continue, pure, ignore, called, ◌>>=◌, ◌>>◌}
use fxtrader.Repo.Users
use fxtrader.Repo.Users.{has_id, get_user_by_id, update_user, replaced_by}
use fxtrader.Repo.Others.{
  log_action, save_leader_request, get_leader_request_by_id, update_leader_request,
}
use fxtrader.Repo.Others.Logging.{ignored_log}
use fxtrader.Service.Leaders.{
  get_user, request_of, create_leader_request, pending_request, deny_leader_request,
}

module _ ⦃o : Outside⦄ where
  open o use {F, Coll}

  -- The user that an id names.
  abbrev pub IsUser : String → Coll (User F) → ℕ → User F → Type 0
  IsUser id us i u = (o.from_hex id ≡ some i) × (o.find_one (User F) (Users.has_id i) us ≡ some u)

  -- A request of a user that is flagged is refused before anything is written.
  pub flagged_refused :
      (user reason : String) (i : ℕ) (u : User F) (w : World)
      → IsUser user w.users i u
      → u.is_copy_pending_trade_leader ≡ true
      → let (r, w') = create_leader_request user reason w in
        (r ≢ panic)
        × ((x : LeaderRequest) → r ≢ ok x)
        × (w'.users ≡ w.users)
        × (w'.leader_requests ≡ w.leader_requests)
  unfolding create_leader_request get_user get_user_by_id
  flagged_refused user reason i u w (hex, e) flagged = elim (Bool-cases (o.fails w.calls)) [
    | inl lost ↦ rw (hex, lost) (ground arith)
    | inr f ↦ rw (hex, f, e, flagged) (ground arith)
  ]

  deny_frame :
      (id reason : String) (w : World)
      → let (r, w') = deny_leader_request id reason w in (r ≢ panic) × (w'.users ≡ w.users)
  unfolding deny_leader_request pending_request get_leader_request_by_id update_leader_request
      log_action
  deny_frame id reason w = ground arith

  -- The users after the pending flag of `u` is set.
  abbrev pub flagged_in : User F → Coll (User F) → Coll (User F)
  flagged_in u us =
      (o.update_one (User F) (Users.has_id u.id)
        (replaced_by (record u { is_copy_pending_trade_leader = true })) us).0

  abbrev pub Created : String → String → World → Result LeaderRequest → World → Type 0
  Created user reason w (ok r) w' =
      (i : ℕ) × (u : User F) × IsUser user w.users i u
      × (u.is_copy_pending_trade_leader ≡ false)
      × (r.status ≡ "PENDING")
      × (r.user_id ≡ user)
      × (r.reason ≡ reason)
      × (w'.leader_requests ≡ o.insert_one LeaderRequest r w.leader_requests)
      × (w'.users ≡ flagged_in u w.users)
  Created user reason w (err _) w' = w'.users ≡ w.users
  Created user reason w panic w' = ⊥

  -- The rest of the method once the user is found and not flagged.
  write_request : User F → String → String → Action LeaderRequest
  write_request u user reason = do
    request ← save_leader_request (request_of u user reason)
    update_user (record u { is_copy_pending_trade_leader = true })
    ignore (log_action 0 "CreateLeaderRequest" "Leader request created" "")
    pure request

  logged-Created :
      (user reason : String) (w : World) (r : LeaderRequest) (v : World)
      → Created user reason w (ok r) v
      → let (x, w') =
          (ignore (log_action 0 "CreateLeaderRequest" "Leader request created" "") >> pure r) v in
        Created user reason w x w'
  logged-Created user reason w r v (i, u, is_user, free, status, name, why, stored, flagged) =
      let m = ignore (log_action 0 "CreateLeaderRequest" "Leader request created" "") in
      let (ends, frame) = ignored_log 0 "CreateLeaderRequest" "Leader request created" "" v in
      subst
        (λ z.
          Created user reason w (continue z (λ _. pure r) (m v).1).0
            (continue z (λ _. pure r) (m v).1).1)
        (sym ends)
        (
          i,
          u,
          is_user,
          free,
          status,
          name,
          why,
          ap (λ z. z.leader_requests) frame ∙ stored,
          ap (λ z. z.users) frame ∙ flagged,
        )

  write_request-Created :
      (user reason : String) (i : ℕ) (u : User F) (w w1 : World)
      → IsUser user w.users i u
      → u.is_copy_pending_trade_leader ≡ false
      → w1.users ≡ w.users
      → w1.leader_requests ≡ w.leader_requests
      → let (r, w') = write_request u user reason w1 in Created user reason w r w'
  unfolding write_request save_leader_request update_user request_of
  write_request-Created user reason i u w w1 is_user free same_users same =
      let w4 = called (called (called w1)) in
      elim (Bool-cases (o.fails w4.calls)) [
        | inl lost ↦ rw lost same_users
        | inr saved ↦ elim (Bool-cases (o.fails (suc w4.calls))) [
          | inl lost ↦ rw (saved, lost) same_users
          | inr stored ↦
              let r : LeaderRequest = record (request_of u user reason) {
                id = o.new_id w1.calls;
                created_at = o.clock (suc w1.calls);
                updated_at = o.clock (suc (suc w1.calls));
              } in
              let v : World = record (called (called w4)) {
                leader_requests = o.insert_one LeaderRequest r w1.leader_requests;
                users = flagged_in u w1.users;
              } in
              rw (saved, stored)
                (logged-Created user reason w r v (
                  i,
                  u,
                  is_user,
                  free,
                  refl,
                  refl,
                  refl,
                  ap (o.insert_one LeaderRequest r) same,
                  ap (flagged_in u) same_users,
                ))
        ]
      ]

  -- A request that is accepted is of a user without the pending flag, is inserted as pending with
  -- the user's id and reason, and sets the flag of the user; a request that returns an error has
  -- not changed the users. The method never panics.
  pub create_leader_request-Created :
      (user reason : String) (w : World)
      → let (r, w') = create_leader_request user reason w in Created user reason w r w'
  unfolding create_leader_request get_user get_user_by_id write_request request_of
  create_leader_request-Created user reason w = elim (Option-cases (o.from_hex user)) [
    | inl e ↦ rw e refl
    | inr (i, hex) ↦ elim (Bool-cases (o.fails w.calls)) [
      | inl lost ↦ rw (hex, lost) refl
      | inr f ↦ elim (Option-cases (o.find_one (User F) (Users.has_id i) w.users)) [
        | inl e ↦ rw (hex, f, e) refl
        | inr (u, e) ↦ elim (Bool-cases u.is_copy_pending_trade_leader) [
          | inl flagged ↦ rw (hex, f, e, flagged) refl
          | inr free ↦
              rw (hex, f, e, free)
                (write_request-Created user reason i u w (called w) (hex, e) free refl refl)
        ]
      ]
    ]
  ]

  module _ (matching : FindsMatching) (found : UpdatesFound) where
    -- If lookups answer matching documents and updates are found again, a user whose request was
    -- accepted and then denied cannot ask again: the denial leaves the
    -- users, so in any state with the users of the denial, which took place in any state with the
    -- users of the acceptance, another request returns an error and writes neither users nor
    -- requests.
    pub denied_cannot_ask :
        (user reason again id admin : String) (w w1 w2 : World) (r : LeaderRequest)
        → (create_leader_request user reason w).0 ≡ ok r
        → w1.users ≡ (create_leader_request user reason w).1.users
        → w2.users ≡ (deny_leader_request id admin w1).1.users
        → let (x, w') = create_leader_request user again w2 in
          (x ≢ panic)
          × ((y : LeaderRequest) → x ≢ ok y)
          × (w'.users ≡ w2.users)
          × (w'.leader_requests ≡ w2.leader_requests)
    unfolding has_id replaced_by
    denied_cannot_ask user reason again id admin w w1 w2 r made same1 same2 =
        let w0 = (create_leader_request user reason w).1 in
        let (i, u, (hex, e), free, status, name, why, stored, flagged) =
          subst (λ x. Created user reason w x w0) made
            (create_leader_request-Created user reason w) in
        let u' = record u { is_copy_pending_trade_leader = true } in
        let is_i : u.id ≡ i = (==_iff u.id i).0 (matching (User F) (Users.has_id i) w.users u e) in
        let users2 = same2 ∙ ((deny_frame id admin w1).1 ∙ (same1 ∙ flagged)) in
        flagged_refused user again i u' w2
          (
            hex,
            subst (λ us. o.find_one (User F) (Users.has_id i) us ≡ some u') (sym users2)
                (subst
                  (λ j.
                    o.find_one (User F) (Users.has_id i)
                      (o.update_one (User F) (Users.has_id j) (replaced_by u') w.users).0
                    ≡ some u')
                  (sym is_i)
                  (found (User F) (Users.has_id i) (replaced_by u') w.users u e
                    ((==_iff u.id i).1 is_i))),
          )
          refl
