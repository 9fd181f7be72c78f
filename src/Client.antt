-- ===== src/Client.antt =====
-- pkg/vcloud/client: the client of the vCloud API.
pub mod Json
pub mod Types
pub mod Errors
pub mod Request
pub mod Volumes
pub mod Snapshots
pub mod RoundTrip
pub mod Decoded
