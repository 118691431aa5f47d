-- ===== src/Core.antt =====
-- internal/authz/core: the path functions and the shared constants.
pub mod Strings
pub mod Paths
