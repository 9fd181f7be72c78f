-- ===== src/Node/Locking.antt =====
-- The node's handlers and the lock map.
use csi_driver_bs.Base.{◌≡◌, refl, arith, Option, none, some, Result, ok, err, List}
use csi_driver_bs.Text.{Text, str}
use csi_driver_bs.Driver.{Driver, or_text}
use csi_driver_bs.Os.{OsError, Os}
use csi_driver_bs.Mounter.{Mounter, default_fs_type}
use csi_driver_bs.Controller.Messages.{VolumeCapability, block, mount, unset, CapacityRange}
use csi_driver_bs.Controller.Volumes.{volume_busy}
use csi_driver_bs.Grpc.{State, status, call, ◌>>=◌}
use csi_driver_bs.Grpc.Keeps.{KeepsLocks, locked-KeepsLocks, bind_call-KeepsLocks}
use csi_driver_bs.Node.Messages.{
  NodeStageVolumeRequest, NodePublishVolumeRequest, NodeExpandVolumeRequest,
  NodeGetVolumeStatsRequest, lock_key, value_at,
}
use csi_driver_bs.Node.Stage.{
  set_permissions, mount_device, stage_device, stage_unless_mounted, stage_with,
  node_stage_volume_locked, stage_capability, node_stage_volume, unmount_and_remove,
  unmount_if_mounted, node_unstage_volume,
}
use csi_driver_bs.Node.Publish.{
  mount_options, bind_mount, publish_target, publish_unless_mounted, node_publish_volume_locked,
  publish_capability, node_publish_volume, node_unpublish_volume,
}
use csi_driver_bs.Node.Stats.{node_get_volume_stats}
use csi_driver_bs.Node.Expand.{
  resize_command, resize, expand_file_system, expand_device, get_device_for_mount_point,
  node_expand_volume,
}
use csi_driver_bs.Node.Calls.{
  NodeCall, stage_call, unstage_call, publish_call, unpublish_call, stats_call, expand_call,
  handle_node,
}

module _ {W : Type 0} (os : Os W) (mo : Mounter W) where
  unmount-KeepsLocks : (path message : Text) → KeepsLocks (unmount_if_mounted os mo path message)
  unfolding unmount_if_mounted unmount_and_remove ◌>>=◌
  unmount-KeepsLocks path message s = ground arith

  resize-KeepsLocks :
      (fs : Text) (command : Option (Text × List Text)) (range : Option CapacityRange)
      → KeepsLocks (resize os fs command range)
  unfolding resize status ◌>>=◌
  resize-KeepsLocks fs command range s = ground arith

  expand_file_system-KeepsLocks :
      (device : Text) (req : NodeExpandVolumeRequest) (r : Result OsError Text)
      → KeepsLocks (expand_file_system os device req r)
  unfolding expand_file_system status
  expand_file_system-KeepsLocks device req (err e) s = refl
  expand_file_system-KeepsLocks device req (ok fs) s =
      resize-KeepsLocks fs (resize_command fs device req.volume_path) req.capacity_range s

  expand_device-KeepsLocks :
      (req : NodeExpandVolumeRequest) (r : Result OsError Text)
      → KeepsLocks (expand_device os mo req r)
  unfolding expand_device status
  expand_device-KeepsLocks req (err e) s = refl
  expand_device-KeepsLocks req (ok device) s =
      bind_call-KeepsLocks (mo.get_device_fs_type device) (expand_file_system os device req)
        (expand_file_system-KeepsLocks device req) s

  get_device-KeepsLocks :
      (req : NodeExpandVolumeRequest)
      → KeepsLocks
          (call (get_device_for_mount_point os req.volume_path) >>= expand_device os mo req)
  get_device-KeepsLocks req s =
      bind_call-KeepsLocks (get_device_for_mount_point os req.volume_path) (expand_device os mo req)
        (expand_device-KeepsLocks req) s

module _ {W : Type 0} (os : Os W) where
  stats-KeepsLocks : (req : NodeGetVolumeStatsRequest) → KeepsLocks (node_get_volume_stats os req)
  unfolding node_get_volume_stats status ◌>>=◌
  stats-KeepsLocks req s = ground arith

module _ {W : Type 0} (os : Os W) (mo : Mounter W) (d : Driver) where
  stage_device-KeepsLocks :
      (device path fs : Text) (options : List Text)
      → KeepsLocks (stage_device os mo d device path fs options)
  unfolding stage_device mount_device set_permissions ◌>>=◌
  stage_device-KeepsLocks device path fs options s = ground arith

  stage_unless_mounted-KeepsLocks :
      (device path fs : Text) (options : List Text)
      → KeepsLocks (stage_unless_mounted os mo d device path fs options)
  unfolding stage_unless_mounted ◌>>=◌
  stage_unless_mounted-KeepsLocks device path fs options s = ground (
    arith,
    stage_device-KeepsLocks device path fs options
        (record s { world = (mo.is_mount_point path s.world).1 }),
  )

  stage_locked-KeepsLocks :
      (device path : Text) (cap : VolumeCapability)
      → KeepsLocks (node_stage_volume_locked os mo d device path cap)
  unfolding node_stage_volume_locked stage_with ◌>>=◌
  stage_locked-KeepsLocks device path block s = ground arith
  stage_locked-KeepsLocks device path unset s = ground arith
  stage_locked-KeepsLocks device path (mount m) s = ground (
    arith,
    stage_unless_mounted-KeepsLocks device path (or_text m.fs_type default_fs_type) m.mount_flags
        (record s { world = (os.stat device s.world).1 }),
  )

  publish_target-KeepsLocks :
      (staging path : Text) (options : List Text)
      → KeepsLocks (publish_target os mo d staging path options)
  unfolding publish_target bind_mount ◌>>=◌
  publish_target-KeepsLocks staging path options s = ground arith

  publish_unless_mounted-KeepsLocks :
      (staging path : Text) (options : List Text)
      → KeepsLocks (publish_unless_mounted os mo d staging path options)
  unfolding publish_unless_mounted ◌>>=◌
  publish_unless_mounted-KeepsLocks staging path options s = ground (
    arith,
    publish_target-KeepsLocks staging path options
        (record s { world = (mo.is_mount_point path s.world).1 }),
  )

  publish_locked-KeepsLocks :
      (staging path : Text) (options : List Text)
      → KeepsLocks (node_publish_volume_locked os mo d staging path options)
  unfolding node_publish_volume_locked ◌>>=◌
  publish_locked-KeepsLocks staging path options s = ground (
    arith,
    publish_unless_mounted-KeepsLocks staging path options
        (record s { world = (mo.is_mount_point staging s.world).1 }),
  )

  stage_capability-KeepsLocks :
      (req : NodeStageVolumeRequest) (cap : Option VolumeCapability)
      → KeepsLocks (stage_capability os mo d req cap)
  unfolding stage_capability status
  stage_capability-KeepsLocks req none s = refl
  stage_capability-KeepsLocks req (some cap) s =
      locked-KeepsLocks (lock_key req.volume_id req.staging_target_path) (volume_busy req.volume_id)
        (node_stage_volume_locked os mo d (value_at (str "devicePath") req.publish_context)
          req.staging_target_path cap)
        (stage_locked-KeepsLocks (value_at (str "devicePath") req.publish_context)
          req.staging_target_path cap)
        s

  publish_capability-KeepsLocks :
      (req : NodePublishVolumeRequest) (cap : Option VolumeCapability)
      → KeepsLocks (publish_capability os mo d req cap)
  unfolding publish_capability status
  publish_capability-KeepsLocks req none s = refl
  publish_capability-KeepsLocks req (some cap) s =
      locked-KeepsLocks (lock_key req.volume_id req.target_path) (volume_busy req.volume_id)
        (node_publish_volume_locked os mo d req.staging_target_path req.target_path
          (mount_options req.readonly cap))
        (publish_locked-KeepsLocks req.staging_target_path req.target_path
          (mount_options req.readonly cap))
        s

  -- Every node call gives the lock map back as it found it, whether it replies or fails.
  pub handle_node-KeepsLocks :
      (call : NodeCall) (s : State W) → (handle_node os mo d call s).1.volume_locks ≡ s.volume_locks
  unfolding handle_node status node_stage_volume node_unstage_volume node_publish_volume
      node_unpublish_volume node_expand_volume
  handle_node-KeepsLocks (stage_call req) s =
      ground (arith, stage_capability-KeepsLocks req req.volume_capability s)
  handle_node-KeepsLocks (unstage_call req) s = ground (
    arith,
    locked-KeepsLocks (lock_key req.volume_id req.staging_target_path) (volume_busy req.volume_id)
        (unmount_if_mounted os mo req.staging_target_path (str "failed to unmount staging path: "))
        (unmount-KeepsLocks os mo req.staging_target_path (str "failed to unmount staging path: "))
        s,
  )
  handle_node-KeepsLocks (publish_call req) s =
      ground (arith, publish_capability-KeepsLocks req req.volume_capability s)
  handle_node-KeepsLocks (unpublish_call req) s = ground (
    arith,
    locked-KeepsLocks (lock_key req.volume_id req.target_path) (volume_busy req.volume_id)
        (unmount_if_mounted os mo req.target_path (str "failed to unmount target path: "))
        (unmount-KeepsLocks os mo req.target_path (str "failed to unmount target path: ")) s,
  )
  handle_node-KeepsLocks (stats_call req) s = ground (arith, stats-KeepsLocks os req s)
  handle_node-KeepsLocks (expand_call req) s = ground (arith, get_device-KeepsLocks os mo req s)
