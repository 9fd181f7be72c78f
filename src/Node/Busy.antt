-- ===== src/Node/Busy.antt =====
-- Node calls whose key is held.
use csi_driver_bs.Base.{◌≡◌, ◌≢◌, arith, some, []}
use csi_driver_bs.Text.{Text, str}
use csi_driver_bs.Driver.{Driver}
use csi_driver_bs.Os.{Os}
use csi_driver_bs.Mounter.{Mounter}
use csi_driver_bs.Locks.{Held}
use csi_driver_bs.Grpc.{aborted, fail, State, status}
use csi_driver_bs.Grpc.Keeps.{locked_busy}
use csi_driver_bs.Controller.Messages.{VolumeCapability}
use csi_driver_bs.Controller.Volumes.{volume_busy}
use csi_driver_bs.Node.Messages.{
  NodeStageVolumeRequest, NodeUnstageVolumeRequest, NodePublishVolumeRequest,
  NodeUnpublishVolumeRequest, lock_key, value_at,
}
use csi_driver_bs.Node.Stage.{
  node_stage_volume_locked, stage_capability, node_stage_volume, unmount_if_mounted,
  node_unstage_volume,
}
use csi_driver_bs.Node.Publish.{
  mount_options, node_publish_volume_locked, publish_capability, node_publish_volume,
  node_unpublish_volume,
}
use csi_driver_bs.Node.Calls.{
  NodeCall, stage_call, unstage_call, publish_call, unpublish_call, handle_node,
}

-- A call with the fields that it needs, its volume and the path that its lock is for.
pub data Claims : NodeCall → Text → Text → Type 0 where
  stage_claims :
      (req : NodeStageVolumeRequest) (cap : VolumeCapability)
      → req.volume_id ≢ []
      → req.staging_target_path ≢ []
      → req.volume_capability ≡ some cap
      → Claims (stage_call req) req.volume_id req.staging_target_path
  unstage_claims :
      (req : NodeUnstageVolumeRequest)
      → req.volume_id ≢ []
      → req.staging_target_path ≢ []
      → Claims (unstage_call req) req.volume_id req.staging_target_path
  publish_claims :
      (req : NodePublishVolumeRequest) (cap : VolumeCapability)
      → req.volume_id ≢ []
      → req.target_path ≢ []
      → req.staging_target_path ≢ []
      → req.volume_capability ≡ some cap
      → Claims (publish_call req) req.volume_id req.target_path
  unpublish_claims :
      (req : NodeUnpublishVolumeRequest)
      → req.volume_id ≢ []
      → req.target_path ≢ []
      → Claims (unpublish_call req) req.volume_id req.target_path

module _ {W : Type 0} (os : Os W) (mo : Mounter W) (d : Driver) where
  -- While a call on the same volume and path is running, a call that stages, unstages, publishes or
  -- unpublishes the volume there fails with `Aborted`, does nothing on the host and leaves the lock
  -- map alone.
  pub handle_node_busy :
      {call : NodeCall} {volume_id path : Text} (s : State W)
      → Claims call volume_id path
      → Held (lock_key volume_id path) s.volume_locks
      → handle_node os mo d call s ≡ (fail aborted (volume_busy volume_id), s)
  unfolding handle_node status node_stage_volume stage_capability node_unstage_volume
      node_publish_volume publish_capability node_unpublish_volume
  handle_node_busy s (stage_claims req cap named pathed capable) held = ground (
    arith,
    locked_busy (lock_key req.volume_id req.staging_target_path) (volume_busy req.volume_id)
        (node_stage_volume_locked os mo d (value_at (str "devicePath") req.publish_context)
          req.staging_target_path cap)
        s held,
  )
  handle_node_busy s (unstage_claims req named pathed) held = ground (
    arith,
    locked_busy (lock_key req.volume_id req.staging_target_path) (volume_busy req.volume_id)
        (unmount_if_mounted os mo req.staging_target_path (str "failed to unmount staging path: "))
        s held,
  )
  handle_node_busy s (publish_claims req cap named pathed staged capable) held = ground (
    arith,
    locked_busy (lock_key req.volume_id req.target_path) (volume_busy req.volume_id)
        (node_publish_volume_locked os mo d req.staging_target_path req.target_path
          (mount_options req.readonly cap))
        s held,
  )
  handle_node_busy s (unpublish_claims req named pathed) held = ground (
    arith,
    locked_busy (lock_key req.volume_id req.target_path) (volume_busy req.volume_id)
        (unmount_if_mounted os mo req.target_path (str "failed to unmount target path: ")) s held,
  )
