-- ===== src/Text/Contains.antt =====
-- `contains` and `containsAt` of pkg/vcloud/client/client.go, and what they decide.
use mathlib.Core.List.{append-nil, append_assoc}
use csi_driver_bs.Base.{
  ℕ, zero, suc, ◌+◌, ◌≤◌, ◌<◌, ◌≡◌, ◌≢◌, refl, sym, ap, ◌∙◌, ◌↔◌, Bool, true, false, ◌&&◌, ◌||◌, [],
  ◌∷◌, ◌++◌, arith, ltb, leb, if◌then◌else◌, ◌==◌, length, take, drop, length-append,
}
use csi_driver_bs.Text.{Text, text_eq, str, text_dec}

-- `for i := 0; i <= len(s)-len(substr); i++`, from index `i` on.
contains_from : ℕ → ℕ → Text → Text → Bool
contains_from zero i s substr = false
contains_from (suc fuel) i s substr =
    let rest = contains_from fuel (i + 1) s substr in
    if leb (i + length substr) (length s)
    then if take (length substr) (drop i s) == substr then true else rest
    else false

-- At most `len(s) + 1` rounds.
unfoldable pub contains_at : Text → Text → Bool
unfolding contains_from
contains_at s substr = contains_from (suc (length s)) 0 s substr

unfoldable pub contains : Text → Text → Bool
contains s substr =
    leb (length substr) (length s) && (s == substr || (ltb 0 (length s) && contains_at s substr))

-- `substr` stands somewhere in `s`.
abbrev pub Contains : Text → Text → Type 0
Contains s substr = (before : Text) × (after : Text) × (s ≡ before ++ (substr ++ after))

take-append-drop : (n : ℕ) (xs : Text) → take n xs ++ drop n xs ≡ xs
take-append-drop zero xs = refl
take-append-drop (suc n) [] = refl
take-append-drop (suc n) (x ∷ xs) = ap (◌∷◌ x) (take-append-drop n xs)

take-append : (xs ys : Text) → take (length xs) (xs ++ ys) ≡ xs
take-append [] ys = refl
take-append (x ∷ xs) ys = ap (◌∷◌ x) (take-append xs ys)

drop-append : (xs ys : Text) → drop (length xs) (xs ++ ys) ≡ ys
drop-append [] ys = refl
drop-append (x ∷ xs) ys = drop-append xs ys

-- A slice that equals `substr` is an occurrence.
slice-Contains :
    (i : ℕ) (s substr : Text) → take (length substr) (drop i s) ≡ substr → Contains s substr
slice-Contains i s substr e = (
  take i s,
  drop (length substr) (drop i s),
  sym (
      ap (λ t. take i s ++ (t ++ drop (length substr) (drop i s))) (sym e)
      ∙ ap (◌++◌ (take i s)) (take-append-drop (length substr) (drop i s))
      ∙ take-append-drop i s),
)

contains_from_sound :
    (fuel i : ℕ) (s substr : Text) → contains_from fuel i s substr ≡ true → Contains s substr
unfolding contains_from
contains_from_sound zero i s substr h = cc
contains_from_sound (suc fuel) i s substr h =
    elim (text_dec (take (length substr) (drop i s)) substr) [
      | yes p ↦ slice-Contains i s substr p
      | no n ↦ contains_from_sound fuel (i + 1) s substr (ground arith)
    ]

slice-append :
    (before substr after : Text)
    → take (length substr) (drop (length before) (before ++ (substr ++ after))) ≡ substr
slice-append before substr after = rw drop-append (take-append substr after)

length-append-le :
    (before substr after : Text)
    → length before + length substr ≤ length (before ++ (substr ++ after))
length-append-le before substr after =
    omega (arith, length-append before (substr ++ after), length-append substr after)

contains_from_complete :
    (fuel i : ℕ) (before substr after : Text)
    → i ≤ length before
    → length before < i + fuel
    → contains_from fuel i (before ++ (substr ++ after)) substr ≡ true
unfolding contains_from
contains_from_complete zero i before substr after h k = absurd (omega arith)
contains_from_complete (suc fuel) i before substr after h k =
    elim (text_dec (take (length substr) (drop i (before ++ (substr ++ after)))) substr) [
      | yes p ↦ ground (arith, length-append-le before substr after)
      | no n ↦
          let ne : i ≢ length before = λ e. n (rw e (slice-append before substr after)) in
          ground (
            arith,
            length-append-le before substr after,
            contains_from_complete fuel (i + 1) before substr after,
          )
    ]

contains_sound : (s substr : Text) → contains s substr ≡ true → Contains s substr
unfolding contains contains_at
contains_sound s substr h = elim (text_dec s substr) [
  | yes p ↦ ([], [], p ∙ sym (append-nil substr))
  | no n ↦ contains_from_sound (suc (length s)) 0 s substr (ground arith)
]

contains_at-append :
    (before substr after : Text) → contains_at (before ++ (substr ++ after)) substr ≡ true
unfolding contains_at
contains_at-append before substr after =
    contains_from_complete (suc (length (before ++ (substr ++ after)))) 0 before substr after
      (omega arith) (omega (arith, length-append-le before substr after))

equal_nils : (xs ys : Text) → length xs ≡ 0 → length ys ≤ length xs → xs ≡ ys
equal_nils [] [] h k = refl
equal_nils [] (y ∷ ys) h k = absurd (omega arith)
equal_nils (x ∷ xs) ys h k = absurd (omega arith)

contains-append :
    (before substr after : Text) → contains (before ++ (substr ++ after)) substr ≡ true
unfolding contains
contains-append before substr after = ground (
  arith,
  length-append-le before substr after,
  contains_at-append before substr after,
  equal_nils (before ++ (substr ++ after)) substr,
)

-- `contains s substr` answers true exactly when `substr` stands somewhere in `s`; so the index
-- loop of `containsAt` neither stops too early nor reads past the end.
pub contains_iff : (s substr : Text) → (contains s substr ≡ true) ↔ Contains s substr
contains_iff s substr =
    (contains_sound s substr, λ (before, after, e). rw e (contains-append before substr after))

pub contains_within :
    (before s after substr : Text)
    → contains s substr ≡ true
    → contains (before ++ (s ++ after)) substr ≡ true
contains_within before s after substr h =
    let (b, a, e) = contains_sound s substr h in
    (contains_iff _ substr).1 (before ++ b, a ++ after, rw e (simp append_assoc))

contains_tests :
    (contains (str "code: 404,") (str "404") ≡ true) × (contains (str "40") (str "404") ≡ false)
unfolding contains contains_at text_dec str
contains_tests = (refl, refl)
