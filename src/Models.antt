-- ===== src/Models.antt =====
-- models/access.py: the tables of the access model, and the database as its tables. Surrogate ids of the
-- assignment tables and server-side timestamps of creation, which no modelled code reads, are left out.
-- A deletion time is a number.
pub mod Constraints
use fastapi_templates_xtn.Prelude.{ℕ, String, Bool, Option, List}
use fastapi_templates_xtn.Audit.{Fields}
use fastapi_templates_xtn.Domain.Snapshot.{AuditSource}

pub record User : Type 0 where
  pub id : ℕ
  pub user_name : String
  pub password_hash : Option String
  pub must_change_password : Bool
  pub password_changed_at : Option ℕ
  pub is_active : Bool
  pub is_protected : Bool
  pub token_version : ℕ
  pub authz_version : ℕ
  pub deleted_at : Option ℕ
  pub deleted_by_user_id : Option ℕ

-- The one row of scope 'global'.
pub record RbacState : Type 0 where
  pub epoch : ℕ
  pub public_registration_enabled : Bool

pub record Permission : Type 0 where
  pub id : ℕ
  pub key : String
  pub description : String
  pub deleted_at : Option ℕ
  pub deleted_by_user_id : Option ℕ

pub record Role : Type 0 where
  pub id : ℕ
  pub key : String
  pub name : String
  pub description : String
  pub management_tier : ℕ
  pub is_active : Bool
  pub is_protected : Bool
  pub is_system : Bool
  pub is_super_admin : Bool
  pub version : ℕ
  pub deleted_at : Option ℕ
  pub deleted_by_user_id : Option ℕ

pub record RolePermission : Type 0 where
  pub role_id : ℕ
  pub permission_id : ℕ
  pub assigned_by_user_id : Option ℕ
  pub deleted_at : Option ℕ
  pub deleted_by_user_id : Option ℕ

pub record UserRole : Type 0 where
  pub user_id : ℕ
  pub role_id : ℕ
  pub assigned_by_user_id : Option ℕ
  pub deleted_at : Option ℕ
  pub deleted_by_user_id : Option ℕ

pub data Decision : Type 0 where
  allowed denied : Decision

pub record RbacAuditEvent : Type 0 where
  pub actor_user_id : ℕ
  pub target_user_id : Option ℕ
  pub target_role_id : Option ℕ
  pub action : String
  pub decision : Decision
  pub reason_code : String
  pub source : AuditSource
  pub before_state : Option Fields
  pub after_state : Option Fields
  pub request_id : String

pub record Db : Type 0 where
  pub users : List User
  pub state : Option RbacState
  pub permissions : List Permission
  pub roles : List Role
  pub role_permissions : List RolePermission
  pub user_roles : List UserRole
  pub audit_events : List RbacAuditEvent
