-- ===== src/Tests/Parts.antt =====
-- The theorems about the parts at concrete inputs.
use csi_driver_bs.Base.{◌≡◌, refl, true, ◌≤◌, ◌↔◌, ◌⊎◌, [], ◌∷◌, some, arith, if◌then◌else◌}
use csi_driver_bs.Base.Int.{pos, ◌<ℤ◌}
use csi_driver_bs.Text.{Text, str}
use csi_driver_bs.Text.Contains.{contains, Contains, contains_iff}
use csi_driver_bs.Dict
use csi_driver_bs.Dict.{Dict}
use csi_driver_bs.Locks.{new_volume_locks, try_acquire}
use csi_driver_bs.Locks.Exclusion.{Running, Reach, here, next, enter, start, count, exclusion}
use csi_driver_bs.Maps.{equal_fold, get_value_from_map, set_key_value}
use csi_driver_bs.Maps.Laws.{OneSpelling, SameMap, get_value-set_key_value}
use csi_driver_bs.Client.Types.{volume_response_fields, SnapshotResponse, snapshot_response_fields}
use csi_driver_bs.Client.Volumes.{parse_volume_response}
use csi_driver_bs.Client.Snapshots.{parse_snapshot_response}
use csi_driver_bs.Client.RoundTrip.{snapshot_of}
use csi_driver_bs.Client.Decoded.{
  decoded_fields, parse_volume-fields, parse_snapshot-fields, int64_of_float, float64,
}
use csi_driver_bs.Grpc.{out_of_range, reply, fail}
use csi_driver_bs.Controller.Messages.{CapacityRange}
use csi_driver_bs.Controller.Volumes.{volume_size, min_volume_size, max_volume_size}
use csi_driver_bs.Controller.Volumes.Sizes.{
  IsGranted, volume_size-IsGranted, asked, volume_size_refused, volume_size_over_limit,
}
use csi_driver_bs.Tests.Server.{stored}

contains_iff_example :
    (contains (str "status code: 404, gone") (str "404") ≡ true)
    ↔ Contains (str "status code: 404, gone") (str "404")
contains_iff_example = contains_iff (str "status code: 404, gone") (str "404")

abbrev one_running : Running
one_running = record {
  volume_locks = record { locks = (str "a", true) ∷ [] };
  active = str "a" ∷ [];
}

one_running-Reach : Reach start one_running
unfolding try_acquire new_volume_locks Dict.lookup Dict.insert
one_running-Reach = next here (enter (str "a") refl)

exclusion_example :
    (count (str "a") one_running.active ≤ 1)
    × (((try_acquire (str "a") one_running.volume_locks).0 ≡ true)
        ↔ (count (str "a") one_running.active ≡ 0))
exclusion_example = exclusion (str "a") one_running-Reach

-- A size above 2^53 is rounded.
rounded : int64_of_float (pos 9007199254740995) ≡ pos 9007199254740996
unfolding int64_of_float float64
rounded = refl

rounded_to_power : int64_of_float (pos 36028797018963971) ≡ pos 36028797018963968
unfolding int64_of_float float64
rounded_to_power = refl

abbrev types : Dict Text Text
types = (b'T' ∷ [], str "ssd") ∷ (b'z' ∷ [], str "a") ∷ []

abbrev types_after : Dict Text Text
types_after = (b'z' ∷ [], str "a") ∷ (b'T' ∷ [], str "hdd") ∷ []

types-OneSpelling : OneSpelling types
unfolding equal_fold Dict.lookup
types-OneSpelling j k v w h h' e = ground arith

other_order : SameMap (set_key_value types (b't' ∷ []) (str "hdd")) types_after
unfolding set_key_value equal_fold Dict.lookup
other_order k = ground arith

get_value-set_key_value_example : get_value_from_map types_after (b't' ∷ []) ≡ (
    if equal_fold (b't' ∷ []) (b't' ∷ []) then str "hdd" else get_value_from_map types (b't' ∷ []))
get_value-set_key_value_example =
    get_value-set_key_value types types types_after (b't' ∷ []) (b't' ∷ []) (str "hdd")
      types-OneSpelling (λ k. refl) other_order

parse_volume-fields_example :
    parse_volume_response (decoded_fields (volume_response_fields stored)) ≡ record {
      id = b'v' ∷ [];
      name = b'n' ∷ [];
      size_bytes = pos 10737418240;
      volume_type = b'h' ∷ [];
      device_path = b'/' ∷ b'd' ∷ [];
      node_id = b'a' ∷ [];
      snapshot_id = [];
    }
parse_volume-fields_example = parse_volume-fields stored (omega arith, omega arith)

abbrev saved : SnapshotResponse
saved = record {
  id = b's' ∷ [];
  name = b'n' ∷ [];
  source_volume_id = b'v' ∷ [];
  size_bytes = pos 0;
  created_at = pos 1700000000;
  ready_to_use = true;
  error = [];
  message = [];
}

parse_snapshot-fields_example :
    parse_snapshot_response (decoded_fields (snapshot_response_fields saved))
    ≡ some (snapshot_of saved)
parse_snapshot-fields_example =
    parse_snapshot-fields saved (omega arith, omega arith) (omega arith, omega arith)

-- 3 GiB, with a limit of 4 GiB.
abbrev three_gib : CapacityRange
three_gib = record { required_bytes = pos 3221225472; limit_bytes = pos 4294967296 }

volume_size-three_gib : volume_size (some three_gib) ≡ reply (pos 3221225472)
unfolding volume_size
volume_size-three_gib = refl

volume_size-IsGranted_example : IsGranted three_gib (pos 3221225472)
volume_size-IsGranted_example =
    volume_size-IsGranted three_gib (pos 3221225472) volume_size-three_gib

-- Nothing required, with a limit of 4 GiB: the default of 10 GiB exceeds it.
abbrev limit_only : CapacityRange
limit_only = record { required_bytes = pos 0; limit_bytes = pos 4294967296 }

volume_size-limit_only :
    volume_size (some limit_only) ≡ fail out_of_range (str "requested size exceeds limit")
unfolding volume_size
volume_size-limit_only = refl

volume_size_refused_example :
    (out_of_range ≡ out_of_range)
    × (((pos 0 <ℤ limit_only.limit_bytes) × (limit_only.limit_bytes <ℤ asked limit_only))
        ⊎ (max_volume_size <ℤ asked limit_only))
volume_size_refused_example =
    volume_size_refused limit_only out_of_range (str "requested size exceeds limit")
      volume_size-limit_only

abbrev half_gib : CapacityRange
half_gib = record { required_bytes = pos 104857600; limit_bytes = pos 536870912 }

volume_size_over_limit_example : volume_size (some half_gib) ≡ reply min_volume_size
volume_size_over_limit_example =
    volume_size_over_limit half_gib (omega arith) (omega arith) (omega arith)
