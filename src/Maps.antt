-- ===== src/Maps.antt =====
-- `SetKeyValueInMap` and `GetValueFromMap` of pkg/vcloud/utils.go. A map is the list of its entries
-- in the order of the one range that the function makes: another range over the same map may see
-- another order. An empty list also stands for the nil map where it is read.
pub mod Laws
use csi_driver_bs.Base.{
  ℕ, ◌+◌, Bool, true, false, ◌&&◌, Option, none, some, List, [], ◌∷◌, ◌++◌, leb, nat_eq, ◌==◌,
  if◌then◌else◌,
}
use csi_driver_bs.Text.{Text, is_empty}
use csi_driver_bs.Dict.{Dict}

abbrev fold_byte : ℕ → ℕ
fold_byte c = if leb b'A' c && leb c b'Z' then c + 32 else c

-- `strings.EqualFold`, for ASCII texts.
unfoldable pub equal_fold : Text → Text → Bool
equal_fold [] [] = true
equal_fold (c ∷ s) (d ∷ t) = fold_byte c == fold_byte d && equal_fold s t
equal_fold _ _ = false

unfoldable pub get_value_from_map : Dict Text Text → Text → Text
get_value_from_map [] key = []
get_value_from_map ((k, v) ∷ m) key = if equal_fold k key then v else get_value_from_map m key

-- The entries after the loop, and whether it found one to overwrite.
unfoldable pub set_key_value : Dict Text Text → Text → Text → Dict Text Text
set_key_value [] key value = (key, value) ∷ []
set_key_value ((k, v) ∷ m) key value =
    if equal_fold k key then (k, value) ∷ m else (k, v) ∷ set_key_value m key value

-- Writing into the nil map is skipped.
unfoldable pub set_key_value_in_map :
    Option (Dict Text Text) → Text → Text → Option (Dict Text Text)
unfolding set_key_value
set_key_value_in_map none key value = none
set_key_value_in_map (some m) key value = some (set_key_value m key value)
