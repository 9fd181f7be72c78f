-- ===== src/Text/Trim.antt =====
-- `strings.TrimSpace` for the white space of ASCII, `strings.Trim`, and the functions on prefixes and
-- suffixes of one byte.
use csi_driver_bs.Base.{
  ℕ, Bool, true, false, ◌&&◌, ◌≡◌, ◌≢◌, refl, arith, eqb, [], ◌∷◌, ◌++◌, if◌then◌else◌,
}
use csi_driver_bs.Text.{Text, is_empty}
use csi_driver_bs.Text.Lines.{is_space}

unfoldable pub trim_left : (ℕ → Bool) → Text → Text
trim_left cut [] = []
trim_left cut (c ∷ s) = let rest = trim_left cut s in if cut c then rest else c ∷ s

unfoldable pub trim_right : (ℕ → Bool) → Text → Text
trim_right cut [] = []
trim_right cut (c ∷ s) =
    let rest = trim_right cut s in if cut c && is_empty rest then [] else c ∷ rest

-- `strings.Trim(s, cutset)`, the set as a test.
unfoldable pub trim : (ℕ → Bool) → Text → Text
trim cut s = trim_right cut (trim_left cut s)

abbrev pub trim_space : Text → Text
trim_space = trim is_space

-- `strings.HasPrefix(s, c)` and `strings.HasSuffix(s, c)` for one byte.
abbrev pub has_prefix : ℕ → Text → Bool
has_prefix c [] = false
has_prefix c (d ∷ s) = eqb c d

unfoldable pub has_suffix : ℕ → Text → Bool
has_suffix c [] = false
has_suffix c (d ∷ s) = if is_empty s then eqb c d else has_suffix c s

-- Without the first or the last byte.
abbrev pub drop_first : Text → Text
drop_first [] = []
drop_first (c ∷ s) = s

unfoldable pub drop_last : Text → Text
drop_last [] = []
drop_last (c ∷ s) = let rest = drop_last s in if is_empty s then [] else c ∷ rest

-- Whether a byte of the set stands at an end.
abbrev pub starts : (ℕ → Bool) → Text → Bool
starts cut [] = false
starts cut (c ∷ s) = cut c

unfoldable pub ends : (ℕ → Bool) → Text → Bool
ends cut [] = false
ends cut (c ∷ s) = if is_empty s then cut c else ends cut s

trim_right_id : (cut : ℕ → Bool) (s : Text) → ends cut s ≡ false → trim_right cut s ≡ s
unfolding trim_right ends
trim_right_id cut [] h = refl
trim_right_id cut (c ∷ []) h = ground arith
trim_right_id cut (c ∷ (d ∷ s)) h = ground (arith, trim_right_id cut (d ∷ s))

-- A text with no byte of the set at its ends is not changed.
pub trim_id :
    (cut : ℕ → Bool) (s : Text) → starts cut s ≡ false → ends cut s ≡ false → trim cut s ≡ s
unfolding trim trim_left
trim_id cut [] h k = trim_right_id cut [] k
trim_id cut (c ∷ s) h k = ground (arith, trim_right_id cut (c ∷ s) k)

pub ends-append : (cut : ℕ → Bool) (s t : Text) → t ≢ [] → ends cut (s ++ t) ≡ ends cut t
unfolding ends
ends-append cut [] t h = refl
ends-append cut (c ∷ []) [] h = ground arith
ends-append cut (c ∷ []) (d ∷ t) h = refl
ends-append cut (c ∷ (d ∷ s)) t h = ends-append cut (d ∷ s) t h

pub has_suffix-append : (c : ℕ) (s : Text) → has_suffix c (s ++ (c ∷ [])) ≡ true
unfolding has_suffix
has_suffix-append c [] = ground arith
has_suffix-append c (d ∷ []) = ground arith
has_suffix-append c (d ∷ (e ∷ s)) = has_suffix-append c (e ∷ s)

pub drop_last-append : (c : ℕ) (s : Text) → drop_last (s ++ (c ∷ [])) ≡ s
unfolding drop_last
drop_last-append c [] = refl
drop_last-append c (d ∷ []) = refl
drop_last-append c (d ∷ (e ∷ s)) = ground (arith, drop_last-append c (e ∷ s))
