-- ===== src/Node/Stage.antt =====
-- `NodeStageVolume` and `NodeUnstageVolume` of pkg/vcloud/nodeserver.go.
use csi_driver_bs.Base.{ℕ, not, ltb, Option, none, some, List, ◌++◌, if◌then◌else◌}
use csi_driver_bs.Text.{Text, str, is_empty}
use csi_driver_bs.Driver.{Driver, or_text}
use csi_driver_bs.Os.{Os, is_not_exist, hard_error, soft_error}
use csi_driver_bs.Os.Files.{wait_until_timeout, make_dir, chmod_if_permission_mismatch}
use csi_driver_bs.Mounter.{Mounter, default_fs_type}
use csi_driver_bs.Grpc.{
  invalid_argument, not_found, Handler, return, status, call, unless, locked, or_internal, ◌>>=◌,
}
use csi_driver_bs.Controller.Messages.{VolumeCapability, mount}
use csi_driver_bs.Controller.Volumes.{volume_busy}
use csi_driver_bs.Node.Messages.{
  NodeStageVolumeRequest, NodeUnstageVolumeRequest, lock_key, value_at, mount_permissions_of,
  file_mode,
}

-- In nanoseconds.
abbrev pub mount_timeout : ℕ
mount_timeout = 120000000000

module _ {W : Type 0} (os : Os W) (d : Driver) where
  -- "Set permissions if needed"; an error is only logged.
  unfoldable pub set_permissions : Text → Handler W (Unit {0})
  set_permissions path =
      if ltb 0 (mount_permissions_of d)
      then (do _ ← call (chmod_if_permission_mismatch os path (file_mode d)); return tt)
      else return tt

module _ {W : Type 0} (os : Os W) (mo : Mounter W) (d : Driver) where
  -- "Mount device to staging path with timeout".
  unfoldable pub mount_device : Text → Text → Text → List Text → Handler W (Unit {0})
  mount_device device_path path fs_type options = do
    e ← call (
        wait_until_timeout os mount_timeout (mo.mount device_path path fs_type options)
          (λ w. (none, w)))
    or_internal e (str "failed to mount device: ") (set_permissions os d path)

  -- From "Create staging directory".
  unfoldable pub stage_device : Text → Text → Text → List Text → Handler W (Unit {0})
  stage_device device_path path fs_type options = do
    e ← call (make_dir os path (file_mode d))
    or_internal e (str "failed to create staging directory: ") (do
      e' ← call (mo.format device_path fs_type)
      or_internal e' (str "failed to format device: ")
          (mount_device device_path path fs_type options))

  -- From "Check if already mounted".
  unfoldable pub stage_unless_mounted : Text → Text → Text → List Text → Handler W (Unit {0})
  stage_unless_mounted device_path path fs_type options = do
    r ← call (mo.is_mount_point path)
    or_internal (hard_error r.1) (str "failed to check mount point: ")
        (if r.0 then return tt else stage_device device_path path fs_type options)

  -- From "Get mount capability".
  unfoldable pub stage_with : Text → Text → VolumeCapability → Handler W (Unit {0})
  stage_with device_path path (mount m) =
      stage_unless_mounted device_path path (or_text m.fs_type default_fs_type) m.mount_flags
  stage_with device_path path _ =
      status invalid_argument (str "NodeStageVolume mount capability required")

  unfoldable pub node_stage_volume_locked : Text → Text → VolumeCapability → Handler W (Unit {0})
  node_stage_volume_locked device_path path cap =
      unless (is_empty device_path) invalid_argument
        (str "NodeStageVolume device path not found in publish context")
        (do
          st ← call (os.stat device_path)
          unless (is_not_exist st) not_found (str "device " ++ (device_path ++ str " not found"))
              (stage_with device_path path cap))

  -- With the capability of the request, which must be there.
  unfoldable pub stage_capability :
      NodeStageVolumeRequest → Option VolumeCapability → Handler W (Unit {0})
  stage_capability req none =
      status invalid_argument (str "NodeStageVolume volume capability must be provided")
  stage_capability req (some cap) =
      locked (lock_key req.volume_id req.staging_target_path) (volume_busy req.volume_id) (
        node_stage_volume_locked (value_at (str "devicePath") req.publish_context)
          req.staging_target_path cap)

  unfoldable pub node_stage_volume : NodeStageVolumeRequest → Handler W (Unit {0})
  node_stage_volume req =
      unless (is_empty req.volume_id) invalid_argument
        (str "NodeStageVolume volume ID must be provided")
        (unless (is_empty req.staging_target_path) invalid_argument
          (str "NodeStageVolume staging target path must be provided")
          (stage_capability req req.volume_capability))

module _ {W : Type 0} (os : Os W) (mo : Mounter W) where
  -- "Unmount", and the removal of the directory, of which an error is only logged.
  unfoldable pub unmount_and_remove : Text → Text → Handler W (Unit {0})
  unmount_and_remove path message = do
    e ← call (mo.unmount path)
    or_internal e message (do _ ← call (os.remove_all path); return tt)

  -- From "Check if mounted", which the two calls that unmount have in common.
  unfoldable pub unmount_if_mounted : Text → Text → Handler W (Unit {0})
  unmount_if_mounted path message = do
    r ← call (mo.is_mount_point path)
    (if soft_error r.1
        then return tt
        else or_internal r.1 (str "failed to check mount point: ")
            (if not r.0 then return tt else unmount_and_remove path message))

  unfoldable pub node_unstage_volume : NodeUnstageVolumeRequest → Handler W (Unit {0})
  node_unstage_volume req =
      unless (is_empty req.volume_id) invalid_argument
        (str "NodeUnstageVolume volume ID must be provided")
        (unless (is_empty req.staging_target_path) invalid_argument
          (str "NodeUnstageVolume staging target path must be provided")
          (locked (lock_key req.volume_id req.staging_target_path) (volume_busy req.volume_id)
            (unmount_if_mounted req.staging_target_path (str "failed to unmount staging path: "))))
