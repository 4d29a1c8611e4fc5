-- ===== src/Domain.antt =====
-- core/security/domain.py
pub mod Keys
pub mod Snapshot
