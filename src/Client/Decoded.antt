-- ===== src/Client/Decoded.antt =====
-- What encoding/json makes of an answer of the backend: every number becomes a float64, of which the
-- parsers of pkg/vcloud/client/client.go take `int64(f)`.
use csi_driver_bs.Base.{
  ℕ, zero, suc, ◌+◌, ◌*◌, ◌/◌, ◌%◌, ◌^◌, ◌≤◌, ◌<◌, ◌≡◌, refl, sym, arith, ltb, eqb, Bool-cases, inl,
  inr, Option, none, some, ◌||◌, ◌&&◌, if◌then◌else◌,
}
use csi_driver_bs.Base.Int.{ℤ, pos, negsuc, pos_part, neg_part}
use csi_driver_bs.Text.{Text, text_eq, is_empty}
use csi_driver_bs.Client.Json.{
  Json, null, bool, num, text, arr, obj, Items, nil, cons, Fields, end, field, get, as_text, as_num,
  as_bool, or_default,
}
use csi_driver_bs.Client.Types.{
  VolumeResponse, volume_response_fields, SnapshotResponse, snapshot_response_fields,
}
use csi_driver_bs.Client.Volumes.{parse_volume_response}
use csi_driver_bs.Client.Snapshots.{parse_snapshot, parse_snapshot_response}
use csi_driver_bs.Client.RoundTrip.{parse_volume_exact, snapshot_of, parse_snapshot_exact}

-- How many binary digits a number has above 53: up to 64 of them, since an int64 has no more than 64
-- digits altogether.
abbrev excess : ℕ → ℕ → ℕ
excess zero n = 0
excess (suc digits) n = let more = excess digits (n / 2) in if ltb n (2 ^ 53) then 0 else suc more

-- To a multiple of the unit: to the nearest, and of two to the even one.
abbrev nearest : ℕ → ℕ → ℕ
nearest unit n =
    let q = n / unit in
    let r = n % unit in
    if ltb unit (2 * r) || (eqb (2 * r) unit && eqb (q % 2) 1) then (q + 1) * unit else q * unit

-- The float64 nearest to a natural number.
unfoldable pub float64 : ℕ → ℕ
float64 n = nearest (2 ^ excess 64 n) n

-- Where the float is out of range the result is that of amd64, -2^63.
abbrev minus : ℕ → ℤ
minus zero = pos 0
minus (suc m) = if ltb m (2 ^ 63) then negsuc m else negsuc 9223372036854775807

-- `int64(f)`.
unfoldable pub int64_of_float : ℤ → ℤ
int64_of_float (pos n) =
    let f = float64 n in if ltb f (2 ^ 63) then pos f else negsuc 9223372036854775807
int64_of_float (negsuc n) = minus (float64 (suc n))

unfoldable mutual
  -- The value as it is decoded.
  pub decoded : Json → Json
  decoded null = null
  decoded (bool b) = bool b
  decoded (num n) = num (int64_of_float n)
  decoded (text s) = text s
  decoded (arr xs) = arr (decoded_items xs)
  decoded (obj fs) = obj (decoded_fields fs)

  pub decoded_items : Items → Items
  decoded_items nil = nil
  decoded_items (cons x xs) = cons (decoded x) (decoded_items xs)

  pub decoded_fields : Fields → Fields
  decoded_fields end = end
  decoded_fields (field k v fs) = field k (decoded v) (decoded_fields fs)

-- A number that is exact as a float64.
abbrev pub IsExact : ℤ → Type 0
IsExact n = (pos_part n ≤ 2 ^ 53) × (neg_part n ≤ 2 ^ 53)

excess-small : (digits n : ℕ) → n < 2 ^ 53 → excess digits n ≡ 0
excess-small zero n h = refl
excess-small (suc digits) n h = ground arith

nearest-one : (n : ℕ) → nearest 1 n ≡ n
nearest-one n = ground arith

float64-small : (n : ℕ) → n < 2 ^ 53 → float64 n ≡ n
unfolding float64
float64-small n h = simp (excess-small 64 n h, nearest-one n)

float64-bound : float64 (2 ^ 53) ≡ 2 ^ 53
unfolding float64
float64-bound = refl

float64-exact : (n : ℕ) → n ≤ 2 ^ 53 → float64 n ≡ n
float64-exact n h = elim (Bool-cases (ltb n (2 ^ 53))) [
  | inl b ↦ float64-small n (ground arith)
  | inr b ↦ ground (arith, float64-bound)
]

int64_of_float-exact : (n : ℤ) → IsExact n → int64_of_float n ≡ n
unfolding int64_of_float
int64_of_float-exact (pos n) (h, k) = ground (arith, float64-exact n)
int64_of_float-exact (negsuc n) (h, k) = ground (arith, float64-exact (suc n))

abbrev decoded_option : Option Json → Option Json
decoded_option none = none
decoded_option (some v) = some (decoded v)

get-decoded_fields :
    (key : Text) (fs : Fields) → get key (decoded_fields fs) ≡ decoded_option (get key fs)
unfolding get decoded_fields
get-decoded_fields key end = refl
get-decoded_fields key (field k v fs) = ground (arith, get-decoded_fields key fs)

as_text-decoded : (o : Option Json) → as_text (decoded_option o) ≡ as_text o
unfolding decoded
as_text-decoded none = refl
as_text-decoded (some null) = refl
as_text-decoded (some (bool b)) = refl
as_text-decoded (some (num n)) = refl
as_text-decoded (some (text t)) = refl
as_text-decoded (some (arr xs)) = refl
as_text-decoded (some (obj fs)) = refl

as_bool-decoded : (o : Option Json) → as_bool (decoded_option o) ≡ as_bool o
unfolding decoded
as_bool-decoded none = refl
as_bool-decoded (some null) = refl
as_bool-decoded (some (bool b)) = refl
as_bool-decoded (some (num n)) = refl
as_bool-decoded (some (text t)) = refl
as_bool-decoded (some (arr xs)) = refl
as_bool-decoded (some (obj fs)) = refl

as_num-decoded :
    (o : Option Json)
    → or_default (as_num (decoded_option o)) (pos 0)
      ≡ int64_of_float (or_default (as_num o) (pos 0))
unfolding decoded
as_num-decoded none = sym (int64_of_float-exact (pos 0) (omega arith, omega arith))
as_num-decoded (some null) = sym (int64_of_float-exact (pos 0) (omega arith, omega arith))
as_num-decoded (some (bool b)) = sym (int64_of_float-exact (pos 0) (omega arith, omega arith))
as_num-decoded (some (num n)) = refl
as_num-decoded (some (text t)) = sym (int64_of_float-exact (pos 0) (omega arith, omega arith))
as_num-decoded (some (arr xs)) = sym (int64_of_float-exact (pos 0) (omega arith, omega arith))
as_num-decoded (some (obj fs)) = sym (int64_of_float-exact (pos 0) (omega arith, omega arith))

ruleset decoding = (get-decoded_fields, as_text-decoded, as_bool-decoded, as_num-decoded)

parse_volume-decoded :
    (fs : Fields)
    → parse_volume_response (decoded_fields fs)
      ≡ (let v = parse_volume_response fs in record v { size_bytes = int64_of_float v.size_bytes })
unfolding parse_volume_response
parse_volume-decoded fs = simp decoding

parse_snapshot-decoded :
    (fs : Fields)
    → parse_snapshot (decoded_fields fs) ≡ (
        let v = parse_snapshot fs in
        record v {
          size_bytes = int64_of_float v.size_bytes;
          created_at = int64_of_float v.created_at;
        })
parse_snapshot-decoded fs = simp decoding

-- The parser of volumes reads every field of an answer that is encoded with the tags of
-- `VolumeResponse`, present or left out by `omitempty`, and decoded with its numbers as float64. The
-- capacity is between -2^53 and 2^53, as is every size up to the maximum of the driver.
pub parse_volume-fields :
    (r : VolumeResponse)
    → IsExact r.capacity
    → parse_volume_response (decoded_fields (volume_response_fields r)) ≡ record {
      id = r.id;
      name = r.name;
      size_bytes = r.capacity;
      volume_type = r.volume_type;
      device_path = r.device_path;
      node_id = r.node_id;
      snapshot_id = r.snapshot_id;
    }
parse_volume-fields r h = ground (
  arith,
  parse_volume-decoded (volume_response_fields r),
  parse_volume_exact r,
  int64_of_float-exact r.capacity h,
)

-- The parser of snapshots reads every field of an answer that is encoded with the tags of
-- `SnapshotResponse`, and decoded with its numbers as float64, and gives nil exactly when the answer
-- has no ID. The size and the time of creation are between -2^53 and 2^53.
pub parse_snapshot-fields :
    (r : SnapshotResponse)
    → IsExact r.size_bytes
    → IsExact r.created_at
    → parse_snapshot_response (decoded_fields (snapshot_response_fields r))
      ≡ (if is_empty r.id then none else some (snapshot_of r))
unfolding parse_snapshot_response
parse_snapshot-fields r h k = ground (
  arith,
  parse_snapshot-decoded (snapshot_response_fields r),
  parse_snapshot_exact r,
  int64_of_float-exact r.size_bytes h,
  int64_of_float-exact r.created_at k,
)
