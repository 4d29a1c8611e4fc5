-- ===== src/Service/Users.antt =====
-- services/access.py: `update_user_status` and `revoke_user_sessions`.
use fastapi_templates_xtn.Prelude.{
  ℕ, ◌+◌, Bool, true, false, not, [], none, some, ok, ◌>>=◌, ◌>>◌, if◌then◌else◌,
}
use fastapi_templates_xtn.Errors.{Outcome}
use fastapi_templates_xtn.Audit.{Python, int, end, field}
use fastapi_templates_xtn.Domain.Keys
use fastapi_templates_xtn.Domain.Snapshot.{AuthorizationContext}
use fastapi_templates_xtn.Policy.{decide_user_status_change, decide_user_sessions_revoke}
use fastapi_templates_xtn.Models.{User, Db}
use fastapi_templates_xtn.Repository.Visible.{load_user_access_view}
use fastapi_templates_xtn.Service.Payloads.{UserResponse, user_response, snapshot_payload}
use fastapi_templates_xtn.Service.Base.{
  MutationOutcome, Operation, require_allowed, write_user, bump_epoch,
}
use fastapi_templates_xtn.Service.Locking.{LockedTarget, lock_actor_and_target_user}
use fastapi_templates_xtn.Service.Audited.{run_audited}

abbrev pub xor : Bool → Bool → Bool
xor true b = not b
xor false b = b

abbrev pub with_status : User → Bool → User
with_status row is_active = record row {
  is_active = is_active;
  token_version = row.token_version + 1;
  authz_version = row.authz_version + 1;
}

module _ (py : Python) where
  -- The writes of `update_user_status` and its outcome, after the decision.
  unfoldable pub apply_status : LockedTarget → Bool → Db → MutationOutcome UserResponse × Db
  unfolding write_user bump_epoch
  apply_status locked is_active db =
      let changed = xor locked.target_row.is_active is_active in
      let row = if changed then with_status locked.target_row is_active else locked.target_row in
      let db' = if changed then bump_epoch locked.state (write_user row db) else db in
      let target_after = record locked.target {
        user_is_active = is_active;
        authz_version = if changed then row.authz_version else locked.target.authz_version;
      } in
      (
        record {
          value = user_response (load_user_access_view db' locked.actor row);
          reason_code = if changed then "user_status_updated" else "user_status_unchanged";
          before_state = some (snapshot_payload py locked.target);
          after_state = some (snapshot_payload py target_after);
          audit_target_role_id = none;
        },
        db',
      )

  unfoldable pub status_operation : AuthorizationContext → ℕ → Bool → Operation UserResponse
  unfolding apply_status
  status_operation context target_user_id is_active db = do
    locked ← lock_actor_and_target_user context target_user_id Keys.users_status_update [] db
    require_allowed (decide_user_status_change locked.actor locked.target)
    ok (apply_status locked is_active db)

  unfoldable pub update_user_status :
      AuthorizationContext → ℕ → Bool → Db → Outcome UserResponse × Db
  unfolding status_operation
  update_user_status context target_user_id is_active =
      run_audited py
        (record {
          context = context;
          action = "user.status.update";
          target_user_id = some target_user_id;
          target_role_id = none;
        })
        (status_operation context target_user_id is_active)

  unfoldable pub revoke_operation : AuthorizationContext → ℕ → Operation (Unit {0})
  unfolding write_user
  revoke_operation context target_user_id db = do
    locked ← lock_actor_and_target_user context target_user_id Keys.users_sessions_revoke [] db
    require_allowed (decide_user_sessions_revoke locked.actor locked.target)
    let previous_version = locked.target_row.token_version
    let row = record locked.target_row { token_version = previous_version + 1 }
    ok (
      record {
        value = tt;
        reason_code = "user_sessions_revoked";
        before_state = some (field "token_version" (int previous_version) end);
        after_state = some (field "token_version" (int row.token_version) end);
        audit_target_role_id = none;
      },
      write_user row db,
    )

  unfoldable pub revoke_user_sessions : AuthorizationContext → ℕ → Db → Outcome (Unit {0}) × Db
  unfolding revoke_operation
  revoke_user_sessions context target_user_id =
      run_audited py
        (record {
          context = context;
          action = "user.sessions.revoke";
          target_user_id = some target_user_id;
          target_role_id = none;
        })
        (revoke_operation context target_user_id)
