-- ===== src/Client/Volumes.antt =====
-- The volume operations of pkg/vcloud/client/client.go. A `(*T, error)` result is a `Result`, whose
-- value is an `Option` where the function may return nil with no error.
use csi_driver_bs.Base.{Option, none, some, [], ◌++◌, Result, ok, err, if◌then◌else◌}
use csi_driver_bs.Base.Int.{ℤ, pos, eqb_ℤ}
use csi_driver_bs.Text.{Text, str, is_empty}
use csi_driver_bs.Client.Json.{Fields, get, as_text, as_num, or_default}
use csi_driver_bs.Client.Types.{
  perform_create_volume, perform_delete_volume, perform_attach_volume, perform_detach_volume,
  perform_expand_volume, perform_get_volume, VolumeRequest, volume_request, volume_request_fields,
  Volume, AttachResult,
}
use csi_driver_bs.Client.Request.{Client, Transport, post}

unfoldable pub parse_volume_response : Fields → Volume
parse_volume_response resp = record {
  id = or_default (as_text (get (str "id") resp)) [];
  name = or_default (as_text (get (str "name") resp)) [];
  size_bytes = or_default (as_num (get (str "capacity") resp)) (pos 0);
  volume_type = or_default (as_text (get (str "volumeType") resp)) [];
  device_path = or_default (as_text (get (str "devicePath") resp)) [];
  node_id = or_default (as_text (get (str "nodeId") resp)) [];
  snapshot_id = or_default (as_text (get (str "snapshotId") resp)) [];
}

-- `s, ok := resp[key].(string)` with the test `!ok || s == ""`.
abbrev pub required_text : Text → Fields → Text → Result Text Text
required_text key resp message =
    let found = or_default (as_text (get key resp)) [] in
    if is_empty found then err message else ok found

abbrev pub default_type : Text → Text
default_type volume_type = if is_empty volume_type then str "hiops" else volume_type

module _ {W : Type 0} (t : Transport W) (c : Client) where
  abbrev post_volume : VolumeRequest → W → Result Text Fields × W
  post_volume req = post t c (volume_request_fields req)

  abbrev pub create_request : Text → ℤ → Text → Text → VolumeRequest
  create_request name capacity volume_type snapshot_id =
      record (volume_request perform_create_volume) {
        name = name;
        capacity = capacity;
        volume_type = default_type volume_type;
        snapshot_id = snapshot_id;
      }

  abbrev created : Text → ℤ → Text → Text → Result Text Fields → Result Text Volume
  created name capacity volume_type snapshot_id (err e) = err (str "failed to create volume: " ++ e)
  created name capacity volume_type snapshot_id (ok resp) =
      elim (required_text (str "id") resp (str "invalid response format: missing volume id")) [
        | err e ↦ err e
        | ok id ↦ ok (record {
          id = id;
          name = name;
          size_bytes = capacity;
          volume_type = default_type volume_type;
          device_path = [];
          node_id = [];
          snapshot_id = snapshot_id;
        })
      ]

  unfoldable pub create_volume : Text → ℤ → Text → Text → W → Result Text Volume × W
  create_volume name capacity volume_type snapshot_id w =
      let (r, w') = post_volume (create_request name capacity volume_type snapshot_id) w in
      (created name capacity volume_type snapshot_id r, w')

  -- What `_, err := …; if err != nil { return wrapped }; return nil` makes of the answer.
  abbrev acknowledged : Text → Result Text Fields → Result Text (Unit {0})
  acknowledged message (err e) = err (message ++ e)
  acknowledged message (ok _) = ok tt

  unfoldable pub delete_volume : Text → W → Result Text (Unit {0}) × W
  delete_volume volume_id w =
      let (r, w') =
        post_volume (record (volume_request perform_delete_volume) { volume_id = volume_id }) w in
      (acknowledged (str "failed to delete volume: ") r, w')

  -- An answer with no ID means that there is no such volume.
  abbrev found_volume : Text → Result Text Fields → Result Text Volume
  found_volume volume_id (err e) = err (str "failed to get volume: " ++ e)
  found_volume volume_id (ok resp) =
      let vol = parse_volume_response resp in
      if is_empty vol.id then err (str "volume " ++ (volume_id ++ str " not found")) else ok vol

  unfoldable pub get_volume : Text → W → Result Text Volume × W
  get_volume volume_id w =
      let (r, w') =
        post_volume (record (volume_request perform_get_volume) { volume_id = volume_id }) w in
      (found_volume volume_id r, w')

  abbrev named_volume : Result Text Fields → Result Text (Option Volume)
  named_volume (err e) = err e
  named_volume (ok resp) =
      let vol = parse_volume_response resp in if is_empty vol.id then ok none else ok (some vol)

  unfoldable pub get_volume_by_name : Text → W → Result Text (Option Volume) × W
  get_volume_by_name name w =
      let (r, w') = post_volume (record (volume_request perform_get_volume) { name = name }) w in
      (named_volume r, w')

  abbrev attached : Result Text Fields → Result Text AttachResult
  attached (err e) = err (str "failed to attach volume: " ++ e)
  attached (ok resp) =
      elim (required_text (str "devicePath") resp
        (str "invalid response format: missing devicePath")) [
          | err e ↦ err e
          | ok device_path ↦ ok (record { device_path = device_path })
        ]

  unfoldable pub attach_volume : Text → Text → W → Result Text AttachResult × W
  attach_volume volume_id node_id w =
      let (r, w') =
        post_volume
          (record (volume_request perform_attach_volume) {
            volume_id = volume_id;
            node_id = node_id;
          })
          w in
      (attached r, w')

  unfoldable pub detach_volume : Text → Text → W → Result Text (Unit {0}) × W
  detach_volume volume_id node_id w =
      let (r, w') =
        post_volume
          (record (volume_request perform_detach_volume) {
            volume_id = volume_id;
            node_id = node_id;
          })
          w in
      (acknowledged (str "failed to detach volume: ") r, w')

  abbrev expanded : Text → ℤ → Result Text Fields → Result Text Volume
  expanded volume_id new_capacity (err e) = err (str "failed to expand volume: " ++ e)
  expanded volume_id new_capacity (ok resp) =
      let vol = parse_volume_response resp in
      ok (record vol {
        size_bytes = if eqb_ℤ vol.size_bytes (pos 0) then new_capacity else vol.size_bytes;
        id = volume_id;
      })

  unfoldable pub expand_volume : Text → ℤ → W → Result Text Volume × W
  expand_volume volume_id new_capacity w =
      let (r, w') =
        post_volume
          (record (volume_request perform_expand_volume) {
            volume_id = volume_id;
            capacity = new_capacity;
          })
          w in
      (expanded volume_id new_capacity r, w')
