-- ===== src/Api/Fleet.antt =====
-- web/src/api/fleet.ts: the wire types of the fleet endpoints and the typed views of evidence.
mod Events
mod Hosts
unfoldable pub use Events.*
pub use Hosts.*
