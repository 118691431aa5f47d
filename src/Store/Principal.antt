-- ===== src/Store/Principal.antt =====
-- internal/authz/store/principal: users, groups and clients, and the policies they are granted.
pub mod User
pub mod Client
pub mod Group
