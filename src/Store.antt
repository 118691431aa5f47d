-- ===== src/Store.antt =====
-- The database that every package works on, and the packages under internal/authz/store.
pub mod Ltree
pub mod Schema
pub mod Rows
pub mod Lookup
pub mod Protection
pub mod Role
pub mod Policy
pub mod Resource
pub mod Principal
