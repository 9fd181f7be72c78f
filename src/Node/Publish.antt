-- ===== src/Node/Publish.antt =====
-- `NodePublishVolume` and `NodeUnpublishVolume` of pkg/vcloud/nodeserver.go.
use csi_driver_bs.Base.{Bool, not, Option, none, some, List, [], ◌∷◌, ◌++◌, if◌then◌else◌}
use csi_driver_bs.Text.{Text, str, is_empty}
use csi_driver_bs.Driver.{Driver}
use csi_driver_bs.Os.{Os, hard_error}
use csi_driver_bs.Mounter.{Mounter}
use csi_driver_bs.Grpc.{
  invalid_argument, failed_precondition, Handler, return, status, call, unless, locked, or_internal,
  ◌>>=◌,
}
use csi_driver_bs.Controller.Messages.{VolumeCapability, mount}
use csi_driver_bs.Controller.Volumes.{volume_busy}
use csi_driver_bs.Node.Messages.{
  NodePublishVolumeRequest, NodeUnpublishVolumeRequest, lock_key, file_mode,
}
use csi_driver_bs.Node.Stage.{unmount_if_mounted}

-- "Build mount options".
unfoldable pub mount_options : Bool → VolumeCapability → List Text
mount_options readonly cap =
    (str "bind" ∷ (if readonly then str "ro" ∷ [] else []))
    ++ (elim cap [ mount m ↦ m.mount_flags | _ ↦ [] ])

module _ {W : Type 0} (os : Os W) (mo : Mounter W) (d : Driver) where
  unfoldable pub bind_mount : Text → Text → List Text → Handler W (Unit {0})
  bind_mount staging_path path options = do
    e ← call (mo.mount staging_path path [] options)
    or_internal e (str "failed to bind mount: ") (return tt)

  -- From "Create target directory".
  unfoldable pub publish_target : Text → Text → List Text → Handler W (Unit {0})
  publish_target staging_path path options = do
    e ← call (os.mkdir_all (os.dir path) (file_mode d))
    or_internal e (str "failed to create target directory: ") (do
      e' ← call (os.mkdir_all path (file_mode d))
      or_internal e' (str "failed to create target path: ") (bind_mount staging_path path options))

  -- From "Check if target already mounted".
  unfoldable pub publish_unless_mounted : Text → Text → List Text → Handler W (Unit {0})
  publish_unless_mounted staging_path path options = do
    r ← call (mo.is_mount_point path)
    or_internal (hard_error r.1) (str "failed to check target mount point: ")
        (if r.0 then return tt else publish_target staging_path path options)

  unfoldable pub node_publish_volume_locked : Text → Text → List Text → Handler W (Unit {0})
  node_publish_volume_locked staging_path path options = do
    r ← call (mo.is_mount_point staging_path)
    or_internal r.1 (str "failed to check staging mount point: ") (
        unless (not r.0) failed_precondition (str "staging path is not mounted")
          (publish_unless_mounted staging_path path options))

  -- With the capability of the request, which must be there.
  unfoldable pub publish_capability :
      NodePublishVolumeRequest → Option VolumeCapability → Handler W (Unit {0})
  publish_capability req none =
      status invalid_argument (str "NodePublishVolume volume capability must be provided")
  publish_capability req (some cap) =
      locked (lock_key req.volume_id req.target_path) (volume_busy req.volume_id) (
        node_publish_volume_locked req.staging_target_path req.target_path
          (mount_options req.readonly cap))

  unfoldable pub node_publish_volume : NodePublishVolumeRequest → Handler W (Unit {0})
  node_publish_volume req =
      unless (is_empty req.volume_id) invalid_argument
        (str "NodePublishVolume volume ID must be provided")
        (unless (is_empty req.target_path) invalid_argument
          (str "NodePublishVolume target path must be provided")
          (unless (is_empty req.staging_target_path) invalid_argument
            (str "NodePublishVolume staging target path must be provided")
            (publish_capability req req.volume_capability)))

module _ {W : Type 0} (os : Os W) (mo : Mounter W) where
  unfoldable pub node_unpublish_volume : NodeUnpublishVolumeRequest → Handler W (Unit {0})
  node_unpublish_volume req =
      unless (is_empty req.volume_id) invalid_argument
        (str "NodeUnpublishVolume volume ID must be provided")
        (unless (is_empty req.target_path) invalid_argument
          (str "NodeUnpublishVolume target path must be provided")
          (locked (lock_key req.volume_id req.target_path) (volume_busy req.volume_id)
            (unmount_if_mounted os mo req.target_path (str "failed to unmount target path: "))))
