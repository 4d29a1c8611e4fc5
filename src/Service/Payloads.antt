-- ===== src/Service/Payloads.antt =====
-- schemas/access.py and services/access_projections.py: the responses; services/access.py: the states that
-- an audit event keeps.
use fastapi_templates_xtn.Prelude.{
  ℕ, String, Bool, not, List, map, Option, string_eq, is_none, sorted_texts,
}
use fastapi_templates_xtn.Audit.{Python, bool, int, text, texts, Fields, end, field}
use fastapi_templates_xtn.Domain.Snapshot.{AuthoritySnapshot}
use fastapi_templates_xtn.Models.{Role}
use fastapi_templates_xtn.Repository.Visible.{UserAccessView}

pub record RoleResponse : Type 0 where
  pub id : ℕ
  pub key : String
  pub name : String
  pub description : String
  pub management_tier : ℕ
  pub is_active : Bool
  pub is_system : Bool
  pub is_protected : Bool
  pub permissions : List String
  pub version : ℕ
  pub deleted_at : Option ℕ

pub record RoleMutationResponse : Type 0 where
  pub changed : Bool
  pub role : RoleResponse

pub record UserResponse : Type 0 where
  pub id : ℕ
  pub user_name : String
  pub is_active : Bool
  pub assigned_role_ids : List ℕ
  pub effective_role_ids : List ℕ
  pub effective_management_tier : ℕ
  pub effective_permissions : List String
  pub authz_version : ℕ

pub record UserRoleMutationResponse : Type 0 where
  pub changed : Bool
  pub user : UserResponse

pub record RoleCreateRequest : Type 0 where
  pub key : String
  pub name : String
  pub description : String
  pub management_tier : ℕ

pub record RoleUpdateRequest : Type 0 where
  pub expected_version : ℕ
  pub name : Option String
  pub description : Option String

unfoldable pub role_response : Role → List String → RoleResponse
role_response role permissions = record {
  id = role.id;
  key = role.key;
  name = role.name;
  description = role.description;
  management_tier = role.management_tier;
  is_active = role.is_active;
  is_system = role.is_system;
  is_protected = role.is_protected;
  permissions = sorted_texts permissions;
  version = role.version;
  deleted_at = role.deleted_at;
}

unfoldable pub user_response : UserAccessView → UserResponse
user_response access = record {
  id = access.authority.user_id;
  user_name = access.user_name;
  is_active = access.authority.user_is_active;
  assigned_role_ids = access.assigned_role_ids;
  effective_role_ids = map (λ r. r.role_id) access.authority.roles;
  effective_management_tier = access.authority.management_tier;
  effective_permissions = sorted_texts access.authority.permissions;
  authz_version = access.authority.authz_version;
}

unfoldable pub snapshot_payload : Python → AuthoritySnapshot → Fields
snapshot_payload py snapshot = field "user_id" (text (py.str_uuid snapshot.user_id)) (
    field "is_active" (bool snapshot.user_is_active) (
      field "role_ids" (texts (map (λ r. py.str_uuid r.role_id) snapshot.roles)) (
        field "role_keys" (texts (sorted_texts (map (λ r. r.key) snapshot.roles))) (
          field "permissions" (texts (sorted_texts snapshot.permissions)) (
            field "management_tier" (int snapshot.management_tier) (
              field "is_protected" (bool snapshot.is_protected) (
                field "is_super_admin" (bool snapshot.is_super_admin)
                  (field "authz_version" (int snapshot.authz_version) end))))))))

unfoldable pub role_payload : Python → RoleResponse → Fields
role_payload py role = field "role_id" (text (py.str_uuid role.id)) (
    field "key" (text role.key) (
      field "name" (text role.name) (
        field "description" (text role.description) (
          field "management_tier" (int role.management_tier) (
            field "is_active" (bool role.is_active) (
              field "is_system" (bool role.is_system) (
                field "is_deleted" (bool (not (is_none role.deleted_at))) (
                  field "permissions" (texts role.permissions)
                    (field "version" (int role.version) end)))))))))
