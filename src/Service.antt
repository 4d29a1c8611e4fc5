-- ===== src/Service.antt =====
-- services/access.py: `RbacService`. The children hold the parts of the class: what every operation shares
-- (Base, Locking, Audited), and the operations on users and on roles.
pub mod Payloads
pub mod Base
pub mod Locking
pub mod Audited
pub mod Success
pub mod Effects
pub mod Users
pub mod UserRoles
pub mod Roles
pub mod RolePermissions
pub mod Commands
pub mod Invariants
pub mod History
pub mod Epoch
pub mod Versions
pub mod Log
pub mod Sessions
pub mod Holding
