-- ===== src/Node/Expand.antt =====
-- `NodeExpandVolume` and `getDeviceForMountPoint` of pkg/vcloud/nodeserver.go.
use csi_driver_bs.Base.{
  ◌||◌, Option, none, some, List, [], ◌∷◌, ◌++◌, Result, ok, err, ◌==◌, if◌then◌else◌,
}
use csi_driver_bs.Base.Int.{ℤ, pos}
use csi_driver_bs.Text.{Text, text_eq, str, is_empty}
use csi_driver_bs.Text.Lines.{split_lines, fields}
use csi_driver_bs.Os.{OsError, errorf, Os}
use csi_driver_bs.Mounter.{Mounter}
use csi_driver_bs.Grpc.{invalid_argument, internal, Handler, return, status, call, unless, ◌>>=◌}
use csi_driver_bs.Controller.Messages.{CapacityRange}
use csi_driver_bs.Node.Messages.{NodeExpandVolumeRequest}

-- The device and the mount point of a line of /proc/mounts, if it has two fields.
abbrev pub device_and_point : List Text → Option (Text × Text)
device_and_point [] = none
device_and_point (device ∷ []) = none
device_and_point (device ∷ (point ∷ _)) = some (device, point)

-- The loop over the lines.
unfoldable pub device_at : Text → List Text → Result OsError Text
device_at mount_point [] =
    err (errorf (str "mount point " ++ (mount_point ++ str " not found in /proc/mounts")))
device_at mount_point (line ∷ lines) =
    let rest = device_at mount_point lines in
    elim (device_and_point (fields line)) [
      | none ↦ rest
      | some entry ↦ if entry.1 == mount_point then ok entry.0 else rest
    ]

-- `resizeCmd` and `resizeArgs`, for a known type of file system.
unfoldable pub resize_command : Text → Text → Text → Option (Text × List Text)
resize_command fs_type device_path volume_path =
    if fs_type == str "ext4" || (fs_type == str "ext3" || fs_type == str "ext2")
    then some (str "resize2fs", device_path ∷ [])
    else if fs_type == str "xfs"
    then some (str "xfs_growfs", volume_path ∷ [])
    else none

-- `GetCapacityRange().GetRequiredBytes()`, which is 0 where there is no range.
abbrev pub required_bytes_of : Option CapacityRange → ℤ
required_bytes_of none = pos 0
required_bytes_of (some range) = range.required_bytes

module _ {W : Type 0} (os : Os W) where
  unfoldable pub get_device_for_mount_point : Text → W → Result OsError Text × W
  get_device_for_mount_point mount_point w =
      let (r, w') = os.read_file (str "/proc/mounts") w in
      elim r [
        | err e ↦ (err (errorf (str "failed to read /proc/mounts: " ++ e.message)), w')
        | ok text ↦ (device_at mount_point (split_lines text), w')
      ]

  -- The run of the resize command.
  unfoldable pub resize : Text → Option (Text × List Text) → Option CapacityRange → Handler W ℤ
  resize fs_type none range =
      status invalid_argument (str "unsupported filesystem type: " ++ fs_type)
  resize fs_type (some (name, args)) range = do
    r ← call (os.combined_output name args)
    elim r.1 [
      | none ↦ return (required_bytes_of range)
      | some e ↦
          status internal
            (str "failed to resize filesystem: " ++ (e.message ++ (str ", output: " ++ r.0)))
    ]

  -- With the file system of the device.
  unfoldable pub expand_file_system :
      Text → NodeExpandVolumeRequest → Result OsError Text → Handler W ℤ
  expand_file_system device_path req (err e) =
      status internal (str "failed to get filesystem type: " ++ e.message)
  expand_file_system device_path req (ok fs_type) =
      resize fs_type (resize_command fs_type device_path req.volume_path) req.capacity_range

module _ {W : Type 0} (os : Os W) (mo : Mounter W) where
  -- With the device of the mount point.
  unfoldable pub expand_device : NodeExpandVolumeRequest → Result OsError Text → Handler W ℤ
  expand_device req (err e) =
      status internal (str "failed to get device for mount point: " ++ e.message)
  expand_device req (ok device_path) = do
    r ← call (mo.get_device_fs_type device_path)
    expand_file_system os device_path req r

  -- The reply is its capacity.
  unfoldable pub node_expand_volume : NodeExpandVolumeRequest → Handler W ℤ
  node_expand_volume req =
      unless (is_empty req.volume_id) invalid_argument
        (str "NodeExpandVolume volume ID must be provided")
        (unless (is_empty req.volume_path) invalid_argument
          (str "NodeExpandVolume volume path must be provided")
          (do r ← call (get_device_for_mount_point os req.volume_path); expand_device req r))
