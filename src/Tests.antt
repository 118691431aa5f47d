-- ===== src/Tests.antt =====
-- Runs of the definitions on concrete inputs, and the theorems at concrete data.
mod Paths
mod Labels
mod Samples
mod Owned
mod Mapping
mod Engine
mod Stores
mod Epochs
mod Resources
mod Roles
mod Ownership
mod Access
mod Handlers
