-- ===== src/Api.antt =====
-- The read API (api/src): pagination, the routers and protocol services, sign-in, guards.
pub mod Pagination
pub mod Routers
pub mod Protocol
pub mod Auth
pub mod Explorer
pub mod Status
