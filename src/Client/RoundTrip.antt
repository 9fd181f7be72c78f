-- ===== src/Client/RoundTrip.antt =====
-- The parsers of pkg/vcloud/client/client.go against the JSON tags of pkg/vcloud/client/types.go.
use csi_driver_bs.Base.{◌≡◌, Bool, false, none, some, [], arith, ◌==◌, if◌then◌else◌}
use csi_driver_bs.Base.Int.{ℤ, pos, eqb_ℤ}
use csi_driver_bs.Text.{Text, text_eq, text_dec, str, is_empty}
use csi_driver_bs.Client.Json.{
  Fields, text, num, bool, get, as_text, as_num, as_bool, or_default, omit_text, omit_num,
  omit_bool,
}
use csi_driver_bs.Client.Types.{
  VolumeResponse, volume_response_fields, SnapshotResponse, snapshot_response_fields, Snapshot,
}
use csi_driver_bs.Client.Volumes.{parse_volume_response}
use csi_driver_bs.Client.Snapshots.{parse_snapshot_response}

pub get-omit_text :
    (key k v : Text) (rest : Fields)
    → get key (omit_text k v rest)
      ≡ (if key == k then (if is_empty v then get key rest else some (text v)) else get key rest)
unfolding get
get-omit_text key k v rest = ground arith

pub get-omit_num :
    (key k : Text) (n : ℤ) (rest : Fields)
    → get key (omit_num k n rest) ≡ (
        if key == k then (if eqb_ℤ n (pos 0) then get key rest else some (num n)) else get key rest)
unfolding get
get-omit_num key k n rest = ground arith

pub get-omit_bool :
    (key k : Text) (b : Bool) (rest : Fields)
    → get key (omit_bool k b rest)
      ≡ (if key == k then (if b then some (bool b) else get key rest) else get key rest)
unfolding get
get-omit_bool key k b rest = ground arith

pub read_text :
    (v : Text) → or_default (as_text (if is_empty v then none else some (text v))) [] ≡ v
read_text v = ground arith

pub read_num :
    (n : ℤ) → or_default (as_num (if eqb_ℤ n (pos 0) then none else some (num n))) (pos 0) ≡ n
read_num n = ground arith

pub read_bool : (b : Bool) → or_default (as_bool (if b then some (bool b) else none)) false ≡ b
read_bool b = ground arith

pub ruleset reading = (get-omit_text, get-omit_num, get-omit_bool, read_text, read_num, read_bool)

-- The parser on the fields with their numbers as they are written.
pub parse_volume_exact :
    (r : VolumeResponse)
    → parse_volume_response (volume_response_fields r) ≡ record {
      id = r.id;
      name = r.name;
      size_bytes = r.capacity;
      volume_type = r.volume_type;
      device_path = r.device_path;
      node_id = r.node_id;
      snapshot_id = r.snapshot_id;
    }
unfolding parse_volume_response volume_response_fields str text_dec get
parse_volume_exact r = simp reading

abbrev pub snapshot_of : SnapshotResponse → Snapshot
snapshot_of r = record {
  id = r.id;
  name = r.name;
  source_volume_id = r.source_volume_id;
  size_bytes = r.size_bytes;
  created_at = r.created_at;
  ready_to_use = r.ready_to_use;
}

pub parse_snapshot_exact :
    (r : SnapshotResponse)
    → parse_snapshot_response (snapshot_response_fields r)
      ≡ (if is_empty r.id then none else some (snapshot_of r))
unfolding parse_snapshot_response snapshot_response_fields str text_dec get
parse_snapshot_exact r = simp reading
