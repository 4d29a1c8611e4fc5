-- ===== src/Tests/Sessions.antt =====
-- Versions, the log, sessions and assignments in the sample installation.
use fastapi_templates_xtn.Prelude.{
  ◌∷◌, ℕ, ◌≡◌, refl, true, false, [], Ensures, arith, ◌⊎◌, nat_eq, contains,
}
use fastapi_templates_xtn.Domain.Snapshot.{AuthorizationContext, http, build}
use fastapi_templates_xtn.Repository.{find_live_user}
use fastapi_templates_xtn.Service.Audited.Atomic.{SameTables}
use fastapi_templates_xtn.Service.Commands.{
  Command, set_active, soft_delete, update_status, execute,
}
use fastapi_templates_xtn.Service.Users.{status_operation, revoke_operation}
use fastapi_templates_xtn.Service.Versions.Progress.{execute-no_lost_update}
use fastapi_templates_xtn.Policy.{bind, is_bind}
use fastapi_templates_xtn.Service.UserRoles.{role_change_operation}
use fastapi_templates_xtn.Service.Holding.{holds_role, role_change_operation-holds_role}
use fastapi_templates_xtn.Service.Log.{IsLogged, execute-IsLogged}
use fastapi_templates_xtn.Service.Sessions.{
  IsRefused, revoke_operation-IsRefused, status_operation-IsRefused,
}
use fastapi_templates_xtn.Tests.Samples.{sample_db, sample_python, sample_user, chief}

abbrev disable : Command
disable = set_active chief 14 false 0

abbrev remove : Command
remove = soft_delete chief 14 0 99

no_lost_update_example :
    SameTables (execute sample_python disable sample_db) sample_db
    ⊎ SameTables
        (execute sample_python remove (execute sample_python disable sample_db))
        (execute sample_python disable sample_db)
no_lost_update_example =
    execute-no_lost_update sample_python disable remove sample_db 14 0 (refl, refl) (refl, refl)

abbrev suspend : Command
suspend = update_status chief 3 false

IsLogged_example : IsLogged chief sample_db (execute sample_python suspend sample_db)
IsLogged_example = execute-IsLogged sample_python suspend sample_db

-- The editor's request, with the current token version.
abbrev pub editor_context : AuthorizationContext
editor_context = record {
  principal = record {
    user_id = 3;
    token_version = 5;
    token_id = 91;
    issued_at = 1000;
    expires_at = 2000;
  };
  authorization_epoch = 20;
  authority = build 3 true false 5 1 [];
  request_id = "request-2";
  audit_source = http;
}

revoke_example :
    Ensures (revoke_operation sample_python chief 3 sample_db) (λ r. IsRefused editor_context r.1)
unfolding find_live_user
revoke_example =
    revoke_operation-IsRefused editor_context sample_db (sample_user 3 "editor" false) refl
      (ground arith) sample_python chief

suspend_example :
    Ensures
      (status_operation sample_python chief 3 false sample_db)
      (λ r. IsRefused editor_context r.1)
suspend_example = status_operation-IsRefused sample_python chief editor_context sample_db

holds_role_example :
    Ensures (role_change_operation sample_python chief 4 (14 ∷ 15 ∷ []) bind 77 sample_db) (λ r.
      (role_id : ℕ)
      → contains (14 ∷ 15 ∷ []) role_id ≡ true
      → holds_role r.1 4 role_id ≡ is_bind bind)
holds_role_example =
    role_change_operation-holds_role sample_python chief 4 (14 ∷ 15 ∷ []) bind 77 sample_db
