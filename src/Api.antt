-- ===== src/Api.antt =====
-- web/src/api: the client of the HTTP interface.
pub mod Client
pub mod Triage
pub mod Fleet
pub mod Query
