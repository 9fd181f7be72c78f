-- ===== src/Client/Types.antt =====
-- pkg/vcloud/client/types.go: the payloads with their JSON tags, and the client's own types.
use csi_driver_bs.Base.{Bool, []}
use csi_driver_bs.Base.Int.{ℤ, pos}
use csi_driver_bs.Text.{Text, str}
use csi_driver_bs.Client.Json.{text, Fields, end, field, omit_text, omit_num, omit_bool}

pub data PerformAction : Type 0 where
  perform_create_volume perform_delete_volume perform_attach_volume : PerformAction
  perform_detach_volume perform_expand_volume perform_get_volume : PerformAction
  perform_create_snapshot perform_delete_snapshot perform_get_snapshot : PerformAction
  perform_list_snapshots : PerformAction

abbrev pub action_text : PerformAction → Text
action_text perform_create_volume = str "CREATE_VOLUME"
action_text perform_delete_volume = str "DELETE_VOLUME"
action_text perform_attach_volume = str "ATTACH_VOLUME"
action_text perform_detach_volume = str "DETACH_VOLUME"
action_text perform_expand_volume = str "EXPAND_VOLUME"
action_text perform_get_volume = str "GET_VOLUME"
action_text perform_create_snapshot = str "CREATE_SNAPSHOT"
action_text perform_delete_snapshot = str "DELETE_SNAPSHOT"
action_text perform_get_snapshot = str "GET_SNAPSHOT"
action_text perform_list_snapshots = str "LIST_SNAPSHOTS"

pub record VolumeRequest : Type 0 where
  pub perform : PerformAction
  pub name : Text
  pub capacity : ℤ
  pub volume_type : Text
  pub volume_id : Text
  pub node_id : Text
  pub snapshot_id : Text

-- A request with all the optional fields at their zero values.
abbrev pub volume_request : PerformAction → VolumeRequest
volume_request action = record {
  perform = action;
  name = [];
  capacity = pos 0;
  volume_type = [];
  volume_id = [];
  node_id = [];
  snapshot_id = [];
}

-- What `json.Marshal` writes for the struct, field by field.
unfoldable pub volume_request_fields : VolumeRequest → Fields
volume_request_fields r = field (str "perform") (text (action_text r.perform)) (
    omit_text (str "name") r.name (
      omit_num (str "capacity") r.capacity (
        omit_text (str "volumeType") r.volume_type (
          omit_text (str "volumeID") r.volume_id (
            omit_text (str "nodeID") r.node_id (omit_text (str "snapshotID") r.snapshot_id end))))))

pub record VolumeResponse : Type 0 where
  pub id : Text
  pub name : Text
  pub capacity : ℤ
  pub volume_type : Text
  pub device_path : Text
  pub node_id : Text
  pub snapshot_id : Text
  pub error : Text
  pub message : Text

-- The numbers as the backend writes them, before a decoder rounds them (Client/Decoded).
unfoldable pub volume_response_fields : VolumeResponse → Fields
volume_response_fields r = omit_text (str "id") r.id (
    omit_text (str "name") r.name (
      omit_num (str "capacity") r.capacity (
        omit_text (str "volumeType") r.volume_type (
          omit_text (str "devicePath") r.device_path (
            omit_text (str "nodeId") r.node_id (
              omit_text (str "snapshotId") r.snapshot_id
                (omit_text (str "error") r.error (omit_text (str "message") r.message end))))))))

pub record SnapshotRequest : Type 0 where
  pub perform : PerformAction
  pub name : Text
  pub snapshot_id : Text
  pub source_volume_id : Text
  pub max_entries : ℤ
  pub starting_token : Text

abbrev pub snapshot_request : PerformAction → SnapshotRequest
snapshot_request action = record {
  perform = action;
  name = [];
  snapshot_id = [];
  source_volume_id = [];
  max_entries = pos 0;
  starting_token = [];
}

unfoldable pub snapshot_request_fields : SnapshotRequest → Fields
snapshot_request_fields r = field (str "perform") (text (action_text r.perform)) (
    omit_text (str "name") r.name (
      omit_text (str "snapshotID") r.snapshot_id (
        omit_text (str "sourceVolumeID") r.source_volume_id (
          omit_num (str "maxEntries") r.max_entries
            (omit_text (str "startingToken") r.starting_token end)))))

pub record SnapshotResponse : Type 0 where
  pub id : Text
  pub name : Text
  pub source_volume_id : Text
  pub size_bytes : ℤ
  pub created_at : ℤ
  pub ready_to_use : Bool
  pub error : Text
  pub message : Text

-- The numbers as the backend writes them, before a decoder rounds them (Client/Decoded).
unfoldable pub snapshot_response_fields : SnapshotResponse → Fields
snapshot_response_fields r = omit_text (str "id") r.id (
    omit_text (str "name") r.name (
      omit_text (str "sourceVolumeId") r.source_volume_id (
        omit_num (str "sizeBytes") r.size_bytes (
          omit_num (str "createdAt") r.created_at (
            omit_bool (str "readyToUse") r.ready_to_use
              (omit_text (str "error") r.error (omit_text (str "message") r.message end)))))))

pub record Volume : Type 0 where
  pub id : Text
  pub name : Text
  pub size_bytes : ℤ
  pub volume_type : Text
  pub device_path : Text
  pub node_id : Text
  pub snapshot_id : Text

pub record Snapshot : Type 0 where
  pub id : Text
  pub name : Text
  pub source_volume_id : Text
  pub size_bytes : ℤ
  pub created_at : ℤ
  pub ready_to_use : Bool

pub record AttachResult : Type 0 where
  pub device_path : Text
