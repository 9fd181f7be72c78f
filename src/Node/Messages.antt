-- ===== src/Node/Messages.antt =====
-- The CSI messages of the Node service, with the fields that pkg/vcloud/nodeserver.go reads and
-- writes, and what its handlers share.
use csi_driver_bs.Base.{ℕ, ◌%◌, ◌^◌, Bool, Option, none, some, [], ◌++◌, eqb, if◌then◌else◌}
use csi_driver_bs.Base.Int.{ℤ}
use csi_driver_bs.Text.{Text, text_eq, str}
use csi_driver_bs.Dict
use csi_driver_bs.Dict.{Dict}
use csi_driver_bs.Driver.{Driver}
use csi_driver_bs.Controller.Messages.{VolumeCapability, CapacityRange}

pub record NodeStageVolumeRequest : Type 0 where
  pub volume_id : Text
  pub staging_target_path : Text
  pub volume_capability : Option VolumeCapability
  pub publish_context : Dict Text Text

pub record NodeUnstageVolumeRequest : Type 0 where
  pub volume_id : Text
  pub staging_target_path : Text

pub record NodePublishVolumeRequest : Type 0 where
  pub volume_id : Text
  pub target_path : Text
  pub staging_target_path : Text
  pub volume_capability : Option VolumeCapability
  pub readonly : Bool

pub record NodeUnpublishVolumeRequest : Type 0 where
  pub volume_id : Text
  pub target_path : Text

pub record NodeGetVolumeStatsRequest : Type 0 where
  pub volume_id : Text
  pub volume_path : Text

pub record NodeExpandVolumeRequest : Type 0 where
  pub volume_id : Text
  pub volume_path : Text
  pub capacity_range : Option CapacityRange

-- A `VolumeUsage`; the unit is the place in the reply.
pub record VolumeUsage : Type 0 where
  pub available : ℤ
  pub total : ℤ
  pub used : ℤ

pub record NodeGetVolumeStatsResponse : Type 0 where
  pub bytes : VolumeUsage
  pub inodes : VolumeUsage

-- The key of the lock: `fmt.Sprintf("%s-%s", volumeID, path)`.
abbrev pub lock_key : Text → Text → Text
lock_key volume_id path = volume_id ++ (str "-" ++ path)

-- `m[key]` of a `map[string]string`.
abbrev pub value_at : Text → Dict Text Text → Text
value_at key m = elim (Dict.lookup key m) [ none ↦ [] | some v ↦ v ]

-- 0750
abbrev pub default_mount_permissions : ℕ
default_mount_permissions = 488

abbrev pub mount_permissions_of : Driver → ℕ
mount_permissions_of d =
    if eqb d.mount_permissions 0 then default_mount_permissions else d.mount_permissions

-- `os.FileMode(mountPermissions)`, which has 32 bits.
abbrev pub file_mode : Driver → ℕ
file_mode d = mount_permissions_of d % 2 ^ 32
