-- ===== src/Controller.antt =====
-- pkg/vcloud/controllerserver.go: the CSI Controller service.
pub mod Messages
pub mod Volumes
pub mod Publish
pub mod Snapshots
pub mod Locking
pub mod Calls
pub mod Removal
pub mod Attachment
pub mod Missing
pub mod Existing
pub mod Refusals
pub mod Busy
pub mod Backend
