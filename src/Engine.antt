-- ===== src/Engine.antt =====
-- internal/authz/engine: who may do what.
pub mod Request
pub mod Grants
pub mod Spec
pub mod Authorize
pub mod Mapping
pub mod Resources
