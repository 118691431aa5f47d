-- ===== src/Handlers.antt =====
-- The packages' entry points over HTTP, internal/httpapi: what a handler decides, and with which
-- status. Reading the request and writing the response are left out.
pub mod Token
pub mod Auth
pub mod Listings
pub mod Ownership
