-- ===== src/Config/Document.antt =====
-- What a configuration file says, and that the parser reads it so.
use csi_driver_bs.Base.{
  ℕ, ◌<◌, Bool, true, false, not, ◌&&◌, ◌||◌, eqb, ◌≡◌, refl, arith, length, Option, none, some,
  List, [], ◌∷◌, ◌++◌, ◌==◌, if◌then◌else◌,
}
use csi_driver_bs.Text.{Text, text_eq, is_empty}
use csi_driver_bs.Text.Lines.{has_newline, is_space}
use csi_driver_bs.Text.Trim.{
  trim, trim_left, trim_right, trim_space, starts, ends, trim_id, ends-append, has_suffix-append,
  drop_last-append,
}
use csi_driver_bs.Config.{
  Parsing, is_comment, is_header, is_quote, split_at_equals, enter_section, assign, parse_pair,
  parse_line,
}

pub data Item : Type 0 where
  blank : Item
  comment : Text → Item
  header : Text → Item
  pair : Text → Text → Item

abbrev pub line_of : Item → Text
line_of blank = []
line_of (comment text) = b'#' ∷ text
line_of (header name) = b'[' ∷ (name ++ (b']' ∷ []))
line_of (pair key value) = key ++ (b'=' ∷ value)

-- The value that a file gives to a key of a section, from a line on where a section is open: that of
-- the last pair.
abbrev pub value_of : Text → Text → Text → List Item → Option Text
value_of section key current [] = none
value_of section key current (blank ∷ items) = value_of section key current items
value_of section key current (comment text ∷ items) = value_of section key current items
value_of section key current (header name ∷ items) = value_of section key name items
value_of section key current (pair k v ∷ items) = elim (value_of section key current items) [
  | some later ↦ some later
  | none ↦ if current == section && k == key then some v else none
]

abbrev pub has_equals : Text → Bool
has_equals [] = false
has_equals (c ∷ s) = if eqb c b'=' then true else has_equals s

-- The bytes by which a line is told from a pair.
abbrev pub is_mark : ℕ → Bool
is_mark c = eqb b'#' c || (eqb b';' c || eqb b'[' c)

-- A key or a name, with no white space at its ends.
abbrev pub tidy : Text → Bool
tidy s = not (starts is_space s || ends is_space s)

abbrev pub item_shape : Item → Bool
item_shape blank = true
item_shape (comment text) = not (ends is_space (b'#' ∷ text))
item_shape (header name) = tidy name
item_shape (pair key value) =
    (not (is_empty key) && (tidy key && (not (starts is_mark key) && not (has_equals key))))
    && (tidy value && not (starts is_quote value || ends is_quote value))

-- An item that a line can say.
pub record IsItem (i : Item) : Type 0 where
  pub shape : item_shape i ≡ true
  pub one_line : has_newline (line_of i) ≡ false
  pub short : length (line_of i) < 65536

split_at_equals-pair :
    (key value : Text)
    → has_equals key ≡ false
    → split_at_equals (key ++ (b'=' ∷ value)) ≡ some (key, value)
unfolding split_at_equals
split_at_equals-pair [] value h = refl
split_at_equals-pair (c ∷ key) value h = ground (arith, split_at_equals-pair key value)

-- What an item does to the parser's state.
abbrev pub apply : Item → Parsing → Option Parsing
apply blank p = some p
apply (comment text) p = some p
apply (header name) p = some (enter_section name p)
apply (pair key value) p = if is_empty p.current then some p else assign key value p

trim-header : (name : Text) → trim_space (line_of (header name)) ≡ line_of (header name)
unfolding ends
trim-header name =
    trim_id is_space (line_of (header name)) refl
      (ground (arith, ends-append is_space (b'[' ∷ name) (b']' ∷ [])))

trim-tidy : (s : Text) → tidy s ≡ true → trim_space s ≡ s
trim-tidy s h = ground (arith, trim_id is_space s)

header_line :
    (name : Text) (p : Parsing)
    → tidy name ≡ true
    → parse_line (trim_space (line_of (header name))) p ≡ some (enter_section name p)
unfolding parse_line
header_line name p h = rw (trim-header name) (
    rw (has_suffix-append b']' (b'[' ∷ name))
      (rw (drop_last-append b']' (b'[' ∷ name)) (rw (trim-tidy name h) refl)))

trim-pair :
    (key value : Text)
    → item_shape (pair key value) ≡ true
    → trim_space (line_of (pair key value)) ≡ line_of (pair key value)
unfolding ends
trim-pair [] value h = ground arith
trim-pair (c ∷ key) [] h = ground (
  arith,
  trim_id is_space (line_of (pair (c ∷ key) [])),
  ends-append is_space (c ∷ key) (b'=' ∷ []),
)
trim-pair (c ∷ key) (v ∷ value) h = ground (
  arith,
  trim_id is_space (line_of (pair (c ∷ key) (v ∷ value))),
  ends-append is_space (c ∷ key) (b'=' ∷ (v ∷ value)),
)

pair_not_marked :
    (key value : Text)
    → item_shape (pair key value) ≡ true
    → (is_comment (line_of (pair key value)) ≡ false)
      × (is_header (line_of (pair key value)) ≡ false)
pair_not_marked [] value h = ground arith
pair_not_marked (c ∷ key) value h = ground arith

pair_line :
    (key value : Text) (p : Parsing)
    → item_shape (pair key value) ≡ true
    → parse_line (trim_space (line_of (pair key value))) p ≡ apply (pair key value) p
unfolding parse_line parse_pair
pair_line key value p h = rw (trim-pair key value h) (
    ground (
      arith,
      pair_not_marked key value h,
      split_at_equals-pair key value,
      trim-tidy key,
      trim-tidy value,
      trim_id is_quote value,
    ))

pub item_line :
    (i : Item) (p : Parsing)
    → item_shape i ≡ true
    → parse_line (trim_space (line_of i)) p ≡ apply i p
unfolding parse_line trim trim_left trim_right
item_line blank p h = refl
item_line (comment text) p h = ground (arith, trim_id is_space (b'#' ∷ text))
item_line (header name) p h = header_line name p h
item_line (pair key value) p h = pair_line key value p h
