-- ===== src/Text/Lines.antt =====
-- `strings.Split(s, "\n")` and `strings.Fields(s)`, the latter for the white space of ASCII.
use csi_driver_bs.Base.{
  ℕ, ◌&&◌, ◌||◌, Bool, true, false, ◌≡◌, refl, arith, ◌++◌, eqb, leb, List, [], ◌∷◌, if◌then◌else◌,
}
use csi_driver_bs.Text.{Text}

abbrev pub newline : ℕ
newline = 10

abbrev pub is_space : ℕ → Bool
is_space c = eqb c 32 || (leb 9 c && leb c 13)

-- The first line, and the others.
unfoldable pub cut_lines : Text → Text × List Text
cut_lines [] = ([], [])
cut_lines (c ∷ s) =
    let (first, others) = cut_lines s in
    if eqb c newline then ([], first ∷ others) else (c ∷ first, others)

unfoldable pub split_lines : Text → List Text
split_lines s = let (first, others) = cut_lines s in first ∷ others

abbrev pub add_word : Text → List Text → List Text
add_word [] words = words
add_word (c ∷ word) words = (c ∷ word) ∷ words

-- What stands before the first space, and the words after it.
unfoldable pub cut_words : Text → Text × List Text
cut_words [] = ([], [])
cut_words (c ∷ s) =
    let (first, others) = cut_words s in
    if is_space c then ([], add_word first others) else (c ∷ first, others)

unfoldable pub fields : Text → List Text
fields s = let (first, others) = cut_words s in add_word first others

abbrev pub has_newline : Text → Bool
has_newline [] = false
has_newline (c ∷ s) = if eqb c newline then true else has_newline s

-- The first line of a text that begins with a line and its end.
pub split_lines-line :
    (line s : Text)
    → has_newline line ≡ false
    → cut_lines (line ++ (newline ∷ s)) ≡ (line, split_lines s)
unfolding cut_lines split_lines
split_lines-line [] s h = refl
split_lines-line (c ∷ line) s h = ground (arith, split_lines-line line s)
