-- ===== src/Tests/Routes.antt =====
-- The permission check of a route in the sample installation.
use fastapi_templates_xtn.Prelude.{◌≡◌, refl, ◌∷◌, [], Bool, ok}
use fastapi_templates_xtn.Errors.{Outcome}
use fastapi_templates_xtn.Domain.Keys.{roles_create, roles_read}
use fastapi_templates_xtn.Domain.Snapshot.{AuthorizationContext}
use fastapi_templates_xtn.Models.{Db}
use fastapi_templates_xtn.Requests.{HttpRequest, require_permissions}
use fastapi_templates_xtn.Requests.Permitted.{Checked, require_permissions-Checked}
use fastapi_templates_xtn.Tests.Samples.{sample_python}

require_permissions_example :
    (check : Bool → AuthorizationContext → HttpRequest → Db → Outcome AuthorizationContext × Db)
    × (require_permissions sample_python (roles_create ∷ roles_read ∷ []) "any" ≡ ok check)
    × ((reachable : Bool) (context : AuthorizationContext) (request : HttpRequest) (db : Db)
        → Checked sample_python
            (roles_create ∷ roles_read ∷ [])
            "any"
            context
            request
            db
            (check reachable context request db))
require_permissions_example =
    require_permissions-Checked sample_python roles_create (roles_read ∷ []) "any" refl
