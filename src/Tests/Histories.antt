-- ===== src/Tests/Histories.antt =====
-- Requests to the sample installation.
use fastapi_templates_xtn.Prelude.{
  ◌≡◌, refl, true, false, [], ◌∷◌, ◌==◌, nat_eq, keep_if, arith, ◌⊎◌, some, none,
}
use fastapi_templates_xtn.Models.{Db}
use fastapi_templates_xtn.Models.Constraints.{MeetsConstraints}
use fastapi_templates_xtn.Policy.{bind}
use fastapi_templates_xtn.Service.Audited.{Request, run_audited}
use fastapi_templates_xtn.Service.Audited.Atomic.{SameTables, Audited, run_audited_atomic}
use fastapi_templates_xtn.Service.Users.{status_operation}
use fastapi_templates_xtn.Service.Commands.{
  Command, change_roles, soft_delete, change_permissions, execute,
}
use fastapi_templates_xtn.Service.History.{
  Reaches, start, step, Reaches-protected_assignments, Reaches-built_in_roles,
  Reaches-MeetsConstraints, Reaches-IsWithinLimit,
}
use fastapi_templates_xtn.Service.Invariants.RoleLimit.{IsWithinLimit}
use fastapi_templates_xtn.Service.Invariants.OwnAccount.{execute-own_account}
use fastapi_templates_xtn.Service.Epoch.{SameAuthority, HasNextEpoch, execute-epoch}
use fastapi_templates_xtn.Service.Locking.Facts.{find_live_role}
use fastapi_templates_xtn.Service.Versions.{execute-stale_version}
use fastapi_templates_xtn.Tests.Samples.{sample_db, sample_python, chief}
use fastapi_templates_xtn.Tests.Valid.{
  sample_db-IsConsistent, sample_db-IsWithinLimit, sample_db-MeetsConstraints,
}

-- The administrator gives the plain user two roles.
abbrev bind_two : Command
bind_two = change_roles chief 4 (14 ∷ 15 ∷ []) bind 77

-- The administrator widens the reader's permissions.
abbrev widen : Command
widen = change_permissions chief 15 (38 ∷ []) bind 0 99

abbrev after_bind : Db
after_bind = execute sample_python bind_two sample_db

abbrev after_both : Db
after_both = execute sample_python widen after_bind

both : Reaches sample_python sample_db after_both
both = step after_bind widen (step sample_db bind_two start tt) tt

protected_assignments_example :
    keep_if (λ a. a.role_id == 11) after_both.user_roles
    ≡ keep_if (λ a. a.role_id == 11) sample_db.user_roles
protected_assignments_example =
    Reaches-protected_assignments sample_python sample_db after_both 11 sample_db-IsConsistent refl
      both

built_in_roles_example :
    keep_if (λ r. r.is_system) after_both.roles ≡ keep_if (λ r. r.is_system) sample_db.roles
built_in_roles_example =
    Reaches-built_in_roles sample_python sample_db after_both sample_db-IsConsistent both

MeetsConstraints_example : MeetsConstraints (λ _ _. true) after_both
MeetsConstraints_example =
    Reaches-MeetsConstraints sample_python (λ _ _. true) sample_db after_both
      sample_db-MeetsConstraints both

IsWithinLimit_example : IsWithinLimit after_both
IsWithinLimit_example =
    Reaches-IsWithinLimit sample_python sample_db after_both sample_db-IsWithinLimit both

own_account_example :
    (keep_if (λ u. u.id == 2) after_bind.users ≡ keep_if (λ u. u.id == 2) sample_db.users)
    × (keep_if (λ a. a.user_id == 2) after_bind.user_roles
        ≡ keep_if (λ a. a.user_id == 2) sample_db.user_roles)
own_account_example = execute-own_account sample_python bind_two sample_db

epoch_example : SameAuthority after_bind sample_db ⊎ HasNextEpoch after_bind sample_db
epoch_example = execute-epoch sample_python bind_two sample_db

abbrev stale : Command
stale = soft_delete chief 14 3 99

stale_version_example : SameTables (execute sample_python stale sample_db) sample_db
unfolding find_live_role
stale_version_example =
    execute-stale_version sample_python stale sample_db 14 3 (refl, refl)
      (λ role found e. ground arith)

abbrev disable_editor : Request
disable_editor = record {
  context = chief;
  action = "user.status.update";
  target_user_id = some 3;
  target_role_id = none;
}

atomic_example :
    Audited sample_python disable_editor (status_operation sample_python chief 3 false) sample_db (
      run_audited sample_python disable_editor
        (status_operation sample_python chief 3 false)
        sample_db)
atomic_example =
    run_audited_atomic sample_python disable_editor (status_operation sample_python chief 3 false)
      sample_db
