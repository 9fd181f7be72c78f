-- ===== src/Text.antt =====
-- Go strings as their bytes, and the string functions of the standard library that the program
-- calls. A Go string literal is `str "…"`, which stays folded until `str` is unfolded.
pub mod Lines
pub mod Trim
pub mod Decimal
pub mod Contains
use Prim.Native.Char.{code}
use Prim.Native.String.{String}
use mathlib.Core.Path.{ap₂}
use mathlib.Core.Logic.{dite}
use mathlib.Core.List.{nil≢cons, cons-ne-nil, head-eq_of_cons-eq, tail-eq_of_cons-eq}
use native.Mathlib.Decide.{ℕ_discrete}
use csi_driver_bs.Base.{ℕ, ◌≡◌, refl, Bool, true, false, List, [], ◌∷◌, ◌++◌, Eq, ◌==◌}

abbrev pub Text : Type 0
Text = List ℕ

-- The bytes of a literal; every literal of the program is ASCII.
unfoldable pub str : String → Text
str String.[] = []
str (String.◌∷◌ c s) = code c ∷ str s

unfoldable pub text_dec : Discrete Text
unfolding ℕ_discrete
text_dec [] [] = yes refl
text_dec [] (y ∷ t) = no nil≢cons
text_dec (x ∷ s) [] = no (cons-ne-nil x s)
text_dec (x ∷ s) (y ∷ t) =
    let rest = text_dec s t in
    dite (ℕ_discrete x y)
      (λ p. dite rest (λ q. yes (ap₂ (◌∷◌) p q)) (λ n. no (λ e. n (tail-eq_of_cons-eq e))))
      (λ n. no (λ e. n (head-eq_of_cons-eq e)))

instance abbrev pub text_eq : Eq Text
text_eq = record { dec = text_dec }

-- `len(s) == 0`, which is also `s == ""`.
abbrev pub is_empty : Text → Bool
is_empty [] = true
is_empty (_ ∷ _) = false

eq_test : (str "abc" == str "abd") ≡ false
unfolding str text_dec
eq_test = refl
