-- ===== src/Node.antt =====
-- pkg/vcloud/nodeserver.go.
pub mod Messages
pub mod Stage
pub mod Publish
pub mod Stats
pub mod Expand
pub mod Calls
pub mod Locking
pub mod Mounted
pub mod Cycle
pub mod Usage
pub mod Busy
pub mod MountTable
