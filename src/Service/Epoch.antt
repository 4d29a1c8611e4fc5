-- ===== src/Service/Epoch.antt =====
-- The authorization epoch, by which a cached authority is known to be out of date.
use fastapi_templates_xtn.Prelude.{ℕ, ◌+◌, ◌≡◌, refl, ap, ◌⊎◌, inl, inr, Option, some}
use fastapi_templates_xtn.Audit.{Python}
use fastapi_templates_xtn.Domain.Snapshot.{AuthorizationContext}
use fastapi_templates_xtn.Models.{RbacState, Db}
use fastapi_templates_xtn.Service.Base.{write_user, bump_epoch}
use fastapi_templates_xtn.Service.Locking.{bump_shared_authority}
use fastapi_templates_xtn.Service.Commands.{Command, execute, context_of}
use fastapi_templates_xtn.Service.Effects.{
  Effect, nothing, status_written, sessions_revoked, roles_changed, role_created, role_updated,
  role_shared,
}
use fastapi_templates_xtn.Service.Invariants.{execute_by_Effect}

-- The tables that authority is read from, apart from the users' own rows.
pub record SameAuthority (d db : Db) : Type 0 where
  pub state : d.state ≡ db.state
  pub permissions : d.permissions ≡ db.permissions
  pub roles : d.roles ≡ db.roles
  pub role_permissions : d.role_permissions ≡ db.role_permissions
  pub user_roles : d.user_roles ≡ db.user_roles

-- The epoch has moved on by one.
abbrev pub HasNextEpoch : Db → Db → Type 0
HasNextEpoch d db =
    (state : RbacState) × (db.state ≡ some state)
    × (d.state ≡ some (record state { epoch = state.epoch + 1 }))

module _ (context : AuthorizationContext) (new_id : Option ℕ) (db : Db) where
  Effect-epoch : (d : Db) → Effect context new_id db d → SameAuthority d db ⊎ HasNextEpoch d db
  unfolding write_user bump_epoch bump_shared_authority
  Effect-epoch d (nothing e) = inl (record {
    state = ap (λ x. x.state) e;
    permissions = ap (λ x. x.permissions) e;
    roles = ap (λ x. x.roles) e;
    role_permissions = ap (λ x. x.role_permissions) e;
    user_roles = ap (λ x. x.user_roles) e;
  })
  Effect-epoch d (status_written t locked is_active target e) =
      inr (locked.state, target.state, ap (λ x. x.state) e)
  Effect-epoch d (sessions_revoked t locked target e) = inl (record {
    state = ap (λ x. x.state) e;
    permissions = ap (λ x. x.permissions) e;
    roles = ap (λ x. x.roles) e;
    role_permissions = ap (λ x. x.role_permissions) e;
    user_roles = ap (λ x. x.user_roles) e;
  })
  Effect-epoch d (roles_changed t locked operation now changed target f room e) =
      inr (locked.state, target.state, ap (λ x. x.state) e)
  Effect-epoch d (role_created role_id request state fresh st reserved unique tier e) =
      inr (state, st, ap (λ x. x.state) e)
  Effect-epoch d (role_updated role_id locked name description custom e) =
      inr (locked.state, custom.state, ap (λ x. x.state) e)
  Effect-epoch d (role_shared role_id locked written base custom rev shared e) =
      inr (locked.state, custom.state, ap (λ x. x.state) e)

-- A request either leaves the state row and the tables of roles, permissions and assignments as they are, or
-- moves the epoch on by exactly one.
pub execute-epoch :
    (py : Python) (c : Command) (db : Db)
    → SameAuthority (execute py c db) db ⊎ HasNextEpoch (execute py c db) db
execute-epoch py c db =
    execute_by_Effect py (λ d. SameAuthority d db ⊎ HasNextEpoch d db) stable c db
      (Effect-epoch (context_of c) _ db)
      (inl (record {
        state = refl;
        permissions = refl;
        roles = refl;
        role_permissions = refl;
        user_roles = refl;
      }))
  where
    stable :
        (d : Db) (events : _)
        → SameAuthority d db ⊎ HasNextEpoch d db
        → SameAuthority (record d { audit_events = events }) db
          ⊎ HasNextEpoch (record d { audit_events = events }) db
    stable d events (inl s) = inl (record {
      state = s.state;
      permissions = s.permissions;
      roles = s.roles;
      role_permissions = s.role_permissions;
      user_roles = s.user_roles;
    })
    stable d events (inr n) = inr n
