-- ===== src/Controller/Messages.antt =====
-- The CSI messages, with the fields that pkg/vcloud/controllerserver.go reads and writes.
use csi_driver_bs.Base.{Bool, Option, List}
use csi_driver_bs.Base.Int.{ℤ}
use csi_driver_bs.Text.{Text}
use csi_driver_bs.Dict.{Dict}

pub record MountVolume : Type 0 where
  pub fs_type : Text
  pub mount_flags : List Text

-- `GetBlock()` and `GetMount()` are nil where the capability is of another kind.
pub data VolumeCapability : Type 0 where
  block : VolumeCapability
  mount : MountVolume → VolumeCapability
  unset : VolumeCapability

pub record CapacityRange : Type 0 where
  pub required_bytes : ℤ
  pub limit_bytes : ℤ

-- A snapshot by its ID, or a source of another kind.
pub data VolumeContentSource : Type 0 where
  from_snapshot : Text → VolumeContentSource
  other_source : VolumeContentSource

pub record CreateVolumeRequest : Type 0 where
  pub name : Text
  pub volume_capabilities : List VolumeCapability
  pub capacity_range : Option CapacityRange
  pub parameters : Dict Text Text
  pub volume_content_source : Option VolumeContentSource

pub record CsiVolume : Type 0 where
  pub volume_id : Text
  pub capacity_bytes : ℤ
  pub volume_context : Dict Text Text
  pub content_source : Option VolumeContentSource

pub record ControllerPublishVolumeRequest : Type 0 where
  pub volume_id : Text
  pub node_id : Text
  pub volume_capability : Option VolumeCapability

pub record ControllerUnpublishVolumeRequest : Type 0 where
  pub volume_id : Text
  pub node_id : Text

pub record ValidateVolumeCapabilitiesRequest : Type 0 where
  pub volume_id : Text
  pub volume_capabilities : List VolumeCapability

pub record ValidateVolumeCapabilitiesResponse : Type 0 where
  pub confirmed : Option (List VolumeCapability)
  pub message : Text

pub record ControllerExpandVolumeRequest : Type 0 where
  pub volume_id : Text
  pub capacity_range : Option CapacityRange

pub record ControllerExpandVolumeResponse : Type 0 where
  pub capacity_bytes : ℤ
  pub node_expansion_required : Bool

pub record CreateSnapshotRequest : Type 0 where
  pub name : Text
  pub source_volume_id : Text

-- `creation_time` counts seconds of Unix time.
pub record CsiSnapshot : Type 0 where
  pub snapshot_id : Text
  pub source_volume_id : Text
  pub size_bytes : ℤ
  pub creation_time : ℤ
  pub ready_to_use : Bool

pub record ListSnapshotsRequest : Type 0 where
  pub snapshot_id : Text
  pub source_volume_id : Text
  pub max_entries : ℤ
  pub starting_token : Text

pub record ListSnapshotsResponse : Type 0 where
  pub entries : List CsiSnapshot
  pub next_token : Text
