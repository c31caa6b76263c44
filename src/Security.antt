-- ===== src/Security.antt =====
-- src/security: what a role may do.
pub mod Rbac
