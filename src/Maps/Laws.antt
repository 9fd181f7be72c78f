-- ===== src/Maps/Laws.antt =====
-- The two map helpers against each other and against the order of the iteration.
use csi_driver_bs.Dict
use csi_driver_bs.Text.{text_eq, text_dec}
use csi_driver_bs.Base.{
  some, Bool-cases, inl, inr, false, ◌==◌, ◌≡◌, refl, true, [], ◌∷◌, arith, nat_eq, if◌then◌else◌,
}
use csi_driver_bs.Text.{Text}
use csi_driver_bs.Dict.{Dict}
use csi_driver_bs.Maps.{equal_fold, get_value_from_map, set_key_value}

pub equal_fold_refl : (s : Text) → equal_fold s s ≡ true
unfolding equal_fold
equal_fold_refl [] = refl
equal_fold_refl (c ∷ s) = ground (arith, equal_fold_refl s)

pub equal_fold_symm : (s t : Text) → equal_fold s t ≡ equal_fold t s
unfolding equal_fold
equal_fold_symm [] [] = refl
equal_fold_symm [] (d ∷ t) = refl
equal_fold_symm (c ∷ s) [] = refl
equal_fold_symm (c ∷ s) (d ∷ t) = ground (arith, equal_fold_symm s t)

pub equal_fold_trans :
    (s t u : Text) → equal_fold s t ≡ true → equal_fold t u ≡ true → equal_fold s u ≡ true
unfolding equal_fold
equal_fold_trans [] [] u h k = k
equal_fold_trans [] (d ∷ t) u h k = cc
equal_fold_trans (c ∷ s) [] u h k = cc
equal_fold_trans (c ∷ s) (d ∷ t) [] h k = cc
equal_fold_trans (c ∷ s) (d ∷ t) (e ∷ u) h k = ground (arith, equal_fold_trans s t u)

-- The two lists have the same entries of each key: they are one map, in the orders of two iterations.
abbrev pub SameMap : Dict Text Text → Dict Text Text → Type 0
SameMap m m' = (k : Text) → Dict.lookup k m ≡ Dict.lookup k m'

-- No two keys of the map are spellings of each other.
abbrev pub OneSpelling : Dict Text Text → Type 0
OneSpelling m =
    (j k v w : Text)
    → Dict.lookup j m ≡ some v
    → Dict.lookup k m ≡ some w
    → equal_fold j k ≡ true
    → j ≡ k

-- What is read, by lookup alone: the value of a spelling that is there, or nothing.
pub data Reads (m : Dict Text Text) (key : Text) : Text → Type 0 where
  reads : (k : Text) {v : Text} → Dict.lookup k m ≡ some v → equal_fold k key ≡ true → Reads m key v
  misses : ((k v : Text) → Dict.lookup k m ≡ some v → equal_fold k key ≡ false) → Reads m key []

Reads-cons :
    (k v : Text) (m : Dict Text Text) (key : Text) {found : Text}
    → equal_fold k key ≡ false
    → Reads m key found
    → Reads ((k, v) ∷ m) key found
unfolding Dict.lookup
Reads-cons k v m key e (reads j h f) = reads j (ground arith) f
Reads-cons k v m key e (misses none_there) = misses (λ j w h. ground (arith, none_there j w))

get_value-Reads : (m : Dict Text Text) (key : Text) → Reads m key (get_value_from_map m key)
unfolding get_value_from_map Dict.lookup
get_value-Reads [] key = misses (λ k v h. cc)
get_value-Reads ((k, v) ∷ m) key = elim (Bool-cases (equal_fold k key)) [
  | inl e ↦ rw e (reads k (ground arith) e)
  | inr e ↦ rw e (Reads-cons k v m key e (get_value-Reads m key))
]

Reads-unique :
    {m m' : Dict Text Text} {key v v' : Text}
    → OneSpelling m
    → SameMap m m'
    → Reads m key v
    → Reads m' key v'
    → v ≡ v'
Reads-unique {key = key} {v = v} {v' = v'} one same (reads j h f) (reads k h' f') =
    ground (arith, same k, one j k v v' h, equal_fold_trans j key k f, equal_fold_symm k key)
Reads-unique {v = v} one same (reads j h f) (misses g) = absurd (ground (arith, same j, g j v))
Reads-unique {v' = v'} one same (misses g) (reads k h f) = absurd (ground (arith, same k, g k v'))
Reads-unique one same (misses g) (misses g') = refl

-- What is written, by lookup alone: the value of a spelling that is there, or a new entry.
data Writes (m : Dict Text Text) (key value : Text) (r : Dict Text Text) : Type 0 where
  overwrites :
      (j : Text) {v : Text}
      → Dict.lookup j m ≡ some v
      → equal_fold j key ≡ true
      → ((k : Text) → Dict.lookup k r ≡ (if k == j then some value else Dict.lookup k m))
      → Writes m key value r
  adds :
      ((k v : Text) → Dict.lookup k m ≡ some v → equal_fold k key ≡ false)
      → ((k : Text) → Dict.lookup k r ≡ (if k == key then some value else Dict.lookup k m))
      → Writes m key value r

Writes-cons :
    (k v : Text) (m : Dict Text Text) (key value : Text) (r : Dict Text Text)
    → equal_fold k key ≡ false
    → Writes m key value r
    → Writes ((k, v) ∷ m) key value ((k, v) ∷ r)
unfolding Dict.lookup
Writes-cons k v m key value r e (overwrites j {v = w} h f g) =
    overwrites j {v = w} (ground arith) f (λ i. ground (arith, g i))
Writes-cons k v m key value r e (adds h g) =
    adds (λ j w i. ground (arith, h j w)) (λ i. ground (arith, g i, equal_fold_refl key))

set_key_value-Writes :
    (m : Dict Text Text) (key value : Text) → Writes m key value (set_key_value m key value)
unfolding set_key_value Dict.lookup
set_key_value-Writes [] key value = adds (λ k v h. cc) (λ k. refl)
set_key_value-Writes ((k, v) ∷ m) key value = elim (Bool-cases (equal_fold k key)) [
  | inl e ↦ rw e (overwrites k {v = v} (ground arith) e (λ i. ground arith))
  | inr e ↦ rw e (Writes-cons k v m key value _ e (set_key_value-Writes m key value))
]

Writes-OneSpelling :
    {m r : Dict Text Text} {key value : Text} → Writes m key value r → OneSpelling m → OneSpelling r
Writes-OneSpelling (overwrites i {v = u} h f g) one j k v w hj hk e = elim (text_dec j i) [
  | yes p ↦ elim (text_dec k i) [ yes q ↦ cc | no n ↦ ground (arith, g j, g k, one j k u w) ]
  | no n ↦ elim (text_dec k i) [
    | yes q ↦ ground (arith, g j, g k, one j k v u)
    | no o ↦ ground (arith, g j, g k, one j k v w)
  ]
]
Writes-OneSpelling {key = key} (adds h g) one j k v w hj hk e =
    ground (arith, g j, g k, one j k v w, h j v, h k w, equal_fold_symm j k)

same_order :
    (m : Dict Text Text) (key key' value : Text)
    → get_value_from_map (set_key_value m key value) key'
      ≡ (if equal_fold key key' then value else get_value_from_map m key')
unfolding get_value_from_map set_key_value
same_order [] key key' value = ground arith
same_order ((k, v) ∷ m) key key' value = ground (
  arith,
  equal_fold_trans k key key',
  equal_fold_trans key k key',
  equal_fold_trans k key' key,
  equal_fold_symm key key',
  equal_fold_symm key k,
  same_order m key key' value,
)

any_order :
    (m m' : Dict Text Text) (key : Text)
    → OneSpelling m
    → SameMap m m'
    → get_value_from_map m key ≡ get_value_from_map m' key
any_order m m' key one same = Reads-unique one same (get_value-Reads m key) (get_value-Reads m' key)

-- After a value is set under a key, that value is read under every spelling of the key, and every
-- other key reads as before. The map may be iterated in another order by each of the three calls; no
-- two of its keys are spellings of each other.
pub get_value-set_key_value :
    (m before after : Dict Text Text) (key key' value : Text)
    → OneSpelling m
    → SameMap m before
    → SameMap (set_key_value m key value) after
    → get_value_from_map after key'
      ≡ (if equal_fold key key' then value else get_value_from_map before key')
get_value-set_key_value m before after key key' value one same same' =
    rw (← any_order m before key' one same) (
      rw
        (← any_order (set_key_value m key value) after key'
          (Writes-OneSpelling (set_key_value-Writes m key value) one) same')
        (same_order m key key' value))
