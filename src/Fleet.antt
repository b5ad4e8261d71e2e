-- ===== src/Fleet.antt =====
-- The fleet pages and the page of a host: web/src/routes/_authed/fleet and hosts, their hooks in
-- web/src/hooks, and the components under web/src/components/Fleet and Host.
pub mod Events
pub mod Hosts
pub mod Details
pub mod Cards
pub mod Notices
pub mod Tables
pub mod Polling
pub mod HostPage
