-- ===== src/Controller/Busy.antt =====
-- A call whose key is held by another operation.
use csi_driver_bs.Base.{◌≡◌, ◌≢◌, some, [], arith}
use csi_driver_bs.Base.Int.{ℤ, pos, ◌<ℤ◌}
use csi_driver_bs.Text.{Text}
use csi_driver_bs.Driver.{Driver}
use csi_driver_bs.Locks.{Held}
use csi_driver_bs.Client.Request.{Transport}
use csi_driver_bs.Grpc.{aborted, fail, State}
use csi_driver_bs.Grpc.Keeps.{locked_busy}
use csi_driver_bs.Controller.Calls.{
  ControllerCall, create_volume_call, delete_volume_call, publish_call, unpublish_call, expand_call,
  create_snapshot_call, delete_snapshot_call, handle,
}
use csi_driver_bs.Controller.Messages.{
  VolumeCapability, CapacityRange, CreateVolumeRequest, ControllerPublishVolumeRequest,
  ControllerUnpublishVolumeRequest, ControllerExpandVolumeRequest, CreateSnapshotRequest,
}
use csi_driver_bs.Controller.Volumes.{
  volume_busy, create_volume_locked, create_volume, delete_volume_locked, delete_volume,
}
use csi_driver_bs.Controller.Publish.{
  controller_publish_volume_locked, controller_publish_volume, controller_unpublish_volume_locked,
  controller_unpublish_volume, controller_expand_volume_locked, expand_to, controller_expand_volume,
}
use csi_driver_bs.Controller.Snapshots.{
  snapshot_busy, snapshot_with, create_snapshot, delete_snapshot_locked, delete_snapshot,
}

-- A call that passes its checks, the key that it locks, and the message if the key is held.
pub data Locking : ControllerCall → Text → Text → Type 0 where
  create_volume_locks :
      (req : CreateVolumeRequest)
      → req.name ≢ []
      → req.volume_capabilities ≢ []
      → Locking (create_volume_call req) req.name (volume_busy req.name)
  delete_volume_locks : (k : Text) → k ≢ [] → Locking (delete_volume_call k) k (volume_busy k)
  publish_locks :
      (req : ControllerPublishVolumeRequest) (cap : VolumeCapability)
      → req.volume_id ≢ []
      → req.node_id ≢ []
      → req.volume_capability ≡ some cap
      → Locking (publish_call req) req.volume_id (volume_busy req.volume_id)
  unpublish_locks :
      (req : ControllerUnpublishVolumeRequest)
      → req.volume_id ≢ []
      → Locking (unpublish_call req) req.volume_id (volume_busy req.volume_id)
  expand_locks :
      (req : ControllerExpandVolumeRequest) (range : CapacityRange)
      → req.volume_id ≢ []
      → req.capacity_range ≡ some range
      → pos 0 <ℤ range.required_bytes
      → Locking (expand_call req) req.volume_id (volume_busy req.volume_id)
  create_snapshot_locks :
      (req : CreateSnapshotRequest)
      → req.name ≢ []
      → req.source_volume_id ≢ []
      → Locking (create_snapshot_call req) req.name (snapshot_busy req.name)
  delete_snapshot_locks : (k : Text) → k ≢ [] → Locking (delete_snapshot_call k) k (snapshot_busy k)

module _ {W : Type 0} (t : Transport W) (d : Driver) (now : W → ℤ) where
  -- While the key of a call is held by another operation, the call fails with `Aborted`, asks the
  -- backend nothing and leaves the lock map alone.
  pub handle_busy :
      {call : ControllerCall} {key message : Text} (s : State W)
      → Locking call key message
      → Held key s.volume_locks
      → handle t d now call s ≡ (fail aborted message, s)
  unfolding handle create_volume delete_volume controller_publish_volume controller_unpublish_volume
      controller_expand_volume expand_to create_snapshot delete_snapshot
  handle_busy s (create_volume_locks req named capable) held =
      ground
        (arith, locked_busy req.name (volume_busy req.name) (create_volume_locked t d req) s held)
  handle_busy s (delete_volume_locks k given) held =
      ground (arith, locked_busy k (volume_busy k) (delete_volume_locked t d k) s held)
  handle_busy s (publish_locks req cap id node capable) held = ground (
    arith,
    locked_busy req.volume_id (volume_busy req.volume_id) (controller_publish_volume_locked t d req)
        s held,
  )
  handle_busy s (unpublish_locks req given) held = ground (
    arith,
    locked_busy req.volume_id (volume_busy req.volume_id)
        (controller_unpublish_volume_locked t d req) s held,
  )
  handle_busy s (expand_locks req range id given positive) held = ground (
    arith,
    locked_busy req.volume_id (volume_busy req.volume_id)
        (controller_expand_volume_locked t d req.volume_id range.required_bytes) s held,
  )
  handle_busy s (create_snapshot_locks req named source) held = ground (
    arith,
    locked_busy req.name (snapshot_busy req.name) (snapshot_with t d d.vcloud_client now req) s
        held,
  )
  handle_busy s (delete_snapshot_locks k given) held =
      ground (arith, locked_busy k (snapshot_busy k) (delete_snapshot_locked t d k) s held)
