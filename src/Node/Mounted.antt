-- ===== src/Node/Mounted.antt =====
-- What the calls of the Node service do to the mount table.
pub mod Bodies
use csi_driver_bs.Base.{
  ℕ, Bool, true, false, not, ◌&&◌, ◌≡◌, ◌≢◌, refl, arith, Option, none, some, List, [], ◌==◌, ap,
  if◌then◌else◌,
}
use csi_driver_bs.Text.{Text, text_eq, str}
use csi_driver_bs.Dict
use csi_driver_bs.Dict.{Dict}
use csi_driver_bs.Driver.{Driver, or_text}
use csi_driver_bs.Os.{OsError, Os}
use csi_driver_bs.Os.Files.{wait_until_timeout, make_dir, chmod_if_permission_mismatch}
use csi_driver_bs.Mounter.{Mounter, default_fs_type}
use csi_driver_bs.Mounter.Laws.{IsMounter, KeepsMounts, present}
use csi_driver_bs.Controller.Messages.{VolumeCapability, block, mount, unset}
use csi_driver_bs.Controller.Volumes.{volume_busy}
use csi_driver_bs.Grpc.{reply, State, return, status, call, Handler, locked, ◌>>=◌}
use csi_driver_bs.Grpc.Keeps.{locked-post}
use csi_driver_bs.Node.Messages.{
  NodeStageVolumeRequest, NodeUnstageVolumeRequest, NodePublishVolumeRequest,
  NodeUnpublishVolumeRequest, lock_key, value_at, file_mode,
}
use csi_driver_bs.Node.Stage.{
  set_permissions, mount_device, stage_device, stage_unless_mounted, stage_with,
  node_stage_volume_locked, stage_capability, node_stage_volume, unmount_and_remove,
  unmount_if_mounted, node_unstage_volume, mount_timeout,
}
use csi_driver_bs.Node.Publish.{
  mount_options, bind_mount, publish_target, publish_unless_mounted, node_publish_volume_locked,
  publish_capability, node_publish_volume, node_unpublish_volume,
}
use csi_driver_bs.Node.Mounted.Bodies.{
  Added, Removed, stage_locked-Added, publish_locked-Added, unmount_if_mounted-Removed,
}

module _ {W : Type 0} (os : Os W) (mo : Mounter W) (d : Driver) (points : W → Dict Text Text)
    (m : IsMounter mo points) (o : KeepsMounts os points) where
  stage_capability-Added :
      (req : NodeStageVolumeRequest) (cap : Option VolumeCapability) (s : State W) (k : Text)
      → (stage_capability os mo d req cap s).0 ≡ reply tt
      → Dict.lookup k (points (stage_capability os mo d req cap s).1.world) ≡ (
          if k == req.staging_target_path
            && not (present (Dict.lookup req.staging_target_path (points s.world)))
          then some (value_at (str "devicePath") req.publish_context)
          else Dict.lookup k (points s.world))
  unfolding stage_capability status
  stage_capability-Added req none s k e = ground arith
  stage_capability-Added req (some cap) s k e =
      let device = value_at (str "devicePath") req.publish_context in
      let path = req.staging_target_path in
      locked-post (λ w w'. Added path device (points w) (points w')) (lock_key req.volume_id path)
        (volume_busy req.volume_id) (node_stage_volume_locked os mo d device path cap) tt
        (stage_locked-Added os mo d points m o device path cap) s e k

  publish_capability-Added :
      (req : NodePublishVolumeRequest) (cap : Option VolumeCapability) (s : State W)
      → (publish_capability os mo d req cap s).0 ≡ reply tt
      → (present (Dict.lookup req.staging_target_path (points s.world)) ≡ true)
        × Added req.target_path req.staging_target_path
            (points s.world)
            (points (publish_capability os mo d req cap s).1.world)
  unfolding publish_capability status
  publish_capability-Added req none s e = (ground arith, λ k. ground arith)
  publish_capability-Added req (some cap) s e =
      let staging = req.staging_target_path in
      let options = mount_options req.readonly cap in
      locked-post
        (λ w w'.
          (present (Dict.lookup staging (points w)) ≡ true)
          × Added req.target_path staging (points w) (points w'))
        (lock_key req.volume_id req.target_path) (volume_busy req.volume_id)
        (node_publish_volume_locked os mo d staging req.target_path options) tt
        (publish_locked-Added os mo d points m o staging req.target_path options) s e

  locked_unmount-Removed :
      (key volume_id path message : Text) (s : State W) (k : Text)
      → (locked key (volume_busy volume_id) (unmount_if_mounted os mo path message) s).0 ≡ reply tt
      → Dict.lookup k (
          points
            (locked key (volume_busy volume_id) (unmount_if_mounted os mo path message) s).1.world)
        ≡ (if k == path then none else Dict.lookup k (points s.world))
  locked_unmount-Removed key volume_id path message s k e =
      locked-post (λ w w'. Removed path (points w) (points w')) key (volume_busy volume_id)
        (unmount_if_mounted os mo path message) tt
        (unmount_if_mounted-Removed os mo d points m o path message) s e k

  publish_capability-staged :
      (req : NodePublishVolumeRequest) (cap : Option VolumeCapability) (s : State W)
      → (publish_capability os mo d req cap s).0 ≡ reply tt
      → present (Dict.lookup req.staging_target_path (points s.world)) ≡ true
  publish_capability-staged req cap s e = (publish_capability-Added req cap s e).0

  publish_capability-at :
      (req : NodePublishVolumeRequest) (cap : Option VolumeCapability) (s : State W) (k : Text)
      → (publish_capability os mo d req cap s).0 ≡ reply tt
      → Dict.lookup k (points (publish_capability os mo d req cap s).1.world) ≡ (
          if k == req.target_path && not (present (Dict.lookup req.target_path (points s.world)))
          then some req.staging_target_path
          else Dict.lookup k (points s.world))
  publish_capability-at req cap s k e = (publish_capability-Added req cap s e).1 k

  -- A reply of `NodeStageVolume` means that the staging path is mounted: from the device of the
  -- publish context, unless it was mounted before. No other mount changes. The mounter and the host
  -- are any that keep the laws of a mount table.
  pub node_stage_volume-Added :
      (req : NodeStageVolumeRequest) (s : State W)
      → (node_stage_volume os mo d req s).0 ≡ reply tt
      → Added req.staging_target_path
          (value_at (str "devicePath") req.publish_context)
          (points s.world)
          (points (node_stage_volume os mo d req s).1.world)
  unfolding node_stage_volume status
  node_stage_volume-Added req s e k =
      ground (arith, stage_capability-Added req req.volume_capability s k)

  -- A reply of `NodePublishVolume` means that the staging path was mounted, and that the target path
  -- is mounted: from the staging path, unless it was mounted before. No other mount changes. The
  -- mounter and the host are any that keep the laws of a mount table.
  pub node_publish_volume-Added :
      (req : NodePublishVolumeRequest) (s : State W)
      → (node_publish_volume os mo d req s).0 ≡ reply tt
      → (present (Dict.lookup req.staging_target_path (points s.world)) ≡ true)
        × Added req.target_path req.staging_target_path
            (points s.world)
            (points (node_publish_volume os mo d req s).1.world)
  unfolding node_publish_volume status
  node_publish_volume-Added req s e = (
    ground (arith, publish_capability-staged req req.volume_capability s),
    λ k. ground (arith, publish_capability-at req req.volume_capability s k),
  )

  -- A reply of `NodeUnpublishVolume` means that the target path is not mounted any more, whatever
  -- its state was before, and that no other mount has changed. The mounter and the host are any
  -- that keep the laws of a mount table.
  pub node_unpublish_volume-Removed :
      (req : NodeUnpublishVolumeRequest) (s : State W)
      → (node_unpublish_volume os mo req s).0 ≡ reply tt
      → Removed req.target_path
          (points s.world)
          (points (node_unpublish_volume os mo req s).1.world)
  unfolding node_unpublish_volume status
  node_unpublish_volume-Removed req s e k = ground (
    arith,
    locked_unmount-Removed (lock_key req.volume_id req.target_path) req.volume_id req.target_path
        (str "failed to unmount target path: ") s k,
  )

  -- A reply of `NodeUnstageVolume` means that the staging path is not mounted any more, whatever its
  -- state was before, and that no other mount has changed. The mounter and the host are any that
  -- keep the laws of a mount table.
  pub node_unstage_volume-Removed :
      (req : NodeUnstageVolumeRequest) (s : State W)
      → (node_unstage_volume os mo req s).0 ≡ reply tt
      → Removed req.staging_target_path
          (points s.world)
          (points (node_unstage_volume os mo req s).1.world)
  unfolding node_unstage_volume status
  node_unstage_volume-Removed req s e k = ground (
    arith,
    locked_unmount-Removed (lock_key req.volume_id req.staging_target_path) req.volume_id
        req.staging_target_path (str "failed to unmount staging path: ") s k,
  )
