-- ===== src/Client/Json.antt =====
-- JSON values as encoding/json gives them to pkg/vcloud/client, and the `omitempty` encoding of the
-- request structs. A decoded number is kept as the integer that `int64(f)` makes of its float64.
use csi_driver_bs.Base.{Bool, Option, none, some, ◌==◌, if◌then◌else◌}
use csi_driver_bs.Base.Int.{ℤ, pos, eqb_ℤ}
use csi_driver_bs.Text.{Text, text_eq, is_empty}

mutual
  pub data Json : Type 0 where
    null : Json
    bool : Bool → Json
    num : ℤ → Json
    text : Text → Json
    arr : Items → Json
    obj : Fields → Json

  pub data Items : Type 0 where
    nil : Items
    cons : Json → Items → Items

  -- A `map[string]interface{}`; the nil map reads like the empty one.
  pub data Fields : Type 0 where
    end : Fields
    field : Text → Json → Fields → Fields

-- `m[key]`
unfoldable pub get : Text → Fields → Option Json
get key end = none
get key (field k v fs) = if key == k then some v else get key fs

-- `v, ok := m[key].(string)`, and so on for the other types.
abbrev pub as_text : Option Json → Option Text
as_text (some (text s)) = some s
as_text _ = none

abbrev pub as_num : Option Json → Option ℤ
as_num (some (num n)) = some n
as_num _ = none

abbrev pub as_bool : Option Json → Option Bool
as_bool (some (bool b)) = some b
as_bool _ = none

abbrev pub as_arr : Option Json → Option Items
as_arr (some (arr xs)) = some xs
as_arr _ = none

-- What `if v, ok := …; ok { x = v }` leaves in `x`.
abbrev pub or_default {ℓ} : {A : Type ℓ} → Option A → A → A
or_default none d = d
or_default (some a) d = a

-- A field with the tag `omitempty`, in front of the fields after it.
abbrev pub omit_text : Text → Text → Fields → Fields
omit_text key value rest = if is_empty value then rest else field key (text value) rest

abbrev pub omit_num : Text → ℤ → Fields → Fields
omit_num key value rest = if eqb_ℤ value (pos 0) then rest else field key (num value) rest

abbrev pub omit_bool : Text → Bool → Fields → Fields
omit_bool key value rest = if value then field key (bool value) rest else rest
