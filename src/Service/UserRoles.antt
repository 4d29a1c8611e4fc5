-- ===== src/Service/UserRoles.antt =====
-- services/access.py: `change_user_roles`. The time of a deletion is the argument `now`.
use fastapi_templates_xtn.Prelude.{
  ℕ, ◌+◌, String, Bool, true, false, not, ◌&&◌, List, [], ◌∷◌, ◌++◌, map, none, some, ok, err,
  ◌>>=◌, ◌>>◌, raise_if, require, or_raise, if◌then◌else◌, ltb, ◌==◌, nat_eq, is_none, keep_if, all,
  length, contains, to_set, diff, inter, sorted_ids,
}
use fastapi_templates_xtn.Errors.{Outcome, not_found, conflict, invalid_request}
use fastapi_templates_xtn.Audit.{Python}
use fastapi_templates_xtn.Domain.Keys.{max_roles_per_user}
use fastapi_templates_xtn.Domain.Snapshot.{
  RoleGrant, AuthoritySnapshot, AuthorizationContext, with_role, without_role,
}
use fastapi_templates_xtn.Policy.{
  RoleOperation, bind, unbind, is_bind, required_for_change, decide_role_change,
  is_administrative_role_visible,
}
use fastapi_templates_xtn.Models.{Role, UserRole, Db}
use fastapi_templates_xtn.Repository.{role_of, load_role_grants_for_roles, count_live_user_roles}
use fastapi_templates_xtn.Repository.Visible.{load_user_access_view}
use fastapi_templates_xtn.Service.Payloads.{
  UserRoleMutationResponse, user_response, snapshot_payload,
}
use fastapi_templates_xtn.Service.Base.{
  MutationOutcome, Operation, require_allowed, write_user, bump_epoch, delete_user_roles,
}
use fastapi_templates_xtn.Service.Locking.{LockedTarget, lock_actor_and_target_user}
use fastapi_templates_xtn.Service.Audited.{run_audited}

abbrev pub is_empty {ℓ} : {A : Type ℓ} → List A → Bool
is_empty [] = true
is_empty (x ∷ xs) = false

-- `existing_ids`: the requested roles that the target has
unfoldable pub existing_role_ids : Db → ℕ → List ℕ → List ℕ
existing_role_ids db user_id requested = to_set (
    map (λ a. a.role_id)
      (keep_if (λ a. (a.user_id == user_id) && contains requested a.role_id && is_none a.deleted_at)
        db.user_roles))

-- The loop over the sorted ids: every role is there, and active if it is to be bound anew.
unfoldable pub requested_roles : RoleOperation → List Role → List ℕ → List ℕ → Outcome (List Role)
requested_roles operation locked_roles existing_ids [] = ok []
requested_roles operation locked_roles existing_ids (role_id ∷ ids) = do
  role ← or_raise (role_of locked_roles role_id) (not_found "role_not_found")
  raise_if (is_bind operation && not (contains existing_ids role_id) && not role.is_active)
      (not_found "role_not_found")
  rest ← requested_roles operation locked_roles existing_ids ids
  ok (role ∷ rest)

unfoldable pub snapshot_after :
    RoleOperation → AuthoritySnapshot → List RoleGrant → AuthoritySnapshot
snapshot_after operation target [] = target
snapshot_after bind target (g ∷ gs) = snapshot_after bind (with_role target g) gs
snapshot_after unbind target (g ∷ gs) = snapshot_after unbind (without_role target g.role_id) gs

unfoldable pub changed_role_ids : RoleOperation → List ℕ → List ℕ → List ℕ
changed_role_ids bind requested existing = diff requested existing
changed_role_ids unbind requested existing = inter requested existing

abbrev pub new_assignment : ℕ → ℕ → ℕ → UserRole
new_assignment target_user_id actor_id role_id = record {
  user_id = target_user_id;
  role_id = role_id;
  assigned_by_user_id = some actor_id;
  deleted_at = none;
  deleted_by_user_id = none;
}

-- The inserts of a bind, or the soft deletes of an unbind.
unfoldable pub write_user_roles : RoleOperation → ℕ → ℕ → ℕ → List ℕ → Db → Db
write_user_roles bind now actor_id target_user_id changed_ids db = record db {
  user_roles =
      db.user_roles ++ map (new_assignment target_user_id actor_id) (sorted_ids changed_ids);
}
write_user_roles unbind now actor_id target_user_id changed_ids db =
    delete_user_roles (λ a. (a.user_id == target_user_id) && contains changed_ids a.role_id) now
      actor_id db

abbrev role_change_reason : RoleOperation → Bool → String
role_change_reason operation false = "user_roles_unchanged"
role_change_reason bind true = "user_roles_bound"
role_change_reason unbind true = "user_roles_unbound"

module _ (py : Python) where
  -- The writes and the outcome, after the decision.
  unfoldable pub apply_role_change :
      RoleOperation
      → ℕ
      → ℕ
      → LockedTarget
      → AuthoritySnapshot
      → List ℕ
      → Db
      → MutationOutcome UserRoleMutationResponse × Db
  unfolding write_user_roles write_user bump_epoch
  apply_role_change operation now target_user_id locked target_after changed_ids db =
      let changed = not (is_empty changed_ids) in
      let row =
        if changed
        then record locked.target_row { authz_version = locked.target_row.authz_version + 1 }
        else locked.target_row in
      let db' =
        if changed
        then bump_epoch locked.state (
            write_user row
              (write_user_roles operation now locked.actor.user_id target_user_id changed_ids db))
        else db in
      let after = record target_after {
        authz_version = if changed then row.authz_version else target_after.authz_version;
      } in
      (
        record {
          value = record {
            changed = changed;
            user = user_response (load_user_access_view db' locked.actor row);
          };
          reason_code = role_change_reason operation changed;
          before_state = some (snapshot_payload py locked.target);
          after_state = some (snapshot_payload py after);
          audit_target_role_id = none;
        },
        db',
      )

  unfoldable pub role_change_operation :
      AuthorizationContext → ℕ → List ℕ → RoleOperation → ℕ → Operation UserRoleMutationResponse
  unfolding apply_role_change
  role_change_operation context target_user_id requested_role_ids operation now db = do
    locked ←
        lock_actor_and_target_user context target_user_id (required_for_change operation)
          requested_role_ids db
    let existing_ids = existing_role_ids db target_user_id requested_role_ids
    roles ←
        requested_roles operation locked.locked_roles existing_ids (sorted_ids requested_role_ids)
    let grants = load_role_grants_for_roles db roles
    require (all (is_administrative_role_visible locked.actor) grants) (not_found "role_not_found")
    let target_after = snapshot_after operation locked.target grants
    let changed_ids = changed_role_ids operation requested_role_ids existing_ids
    require_allowed (decide_role_change operation locked.actor locked.target target_after grants)
    raise_if
        (is_bind operation
          && not (is_empty changed_ids)
          && ltb max_roles_per_user (count_live_user_roles db target_user_id + length changed_ids))
        (conflict "user_role_limit_exceeded")
    ok (apply_role_change operation now target_user_id locked target_after changed_ids db)

  abbrev role_change_action : RoleOperation → String
  role_change_action bind = "user.roles.bind"
  role_change_action unbind = "user.roles.unbind"

  unfoldable pub change_user_roles :
      AuthorizationContext
      → ℕ
      → List ℕ
      → RoleOperation
      → ℕ
      → Db
      → Outcome UserRoleMutationResponse × Db
  unfolding role_change_operation
  change_user_roles context target_user_id role_ids operation now db =
      let requested_role_ids = to_set role_ids in
      if is_empty requested_role_ids
      then (err (invalid_request "role_ids_required"), db)
      else run_audited py
          (record {
            context = context;
            action = role_change_action operation;
            target_user_id = some target_user_id;
            target_role_id = none;
          })
          (role_change_operation context target_user_id requested_role_ids operation now) db
