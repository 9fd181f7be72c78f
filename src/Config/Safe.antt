-- ===== src/Config/Safe.antt =====
-- The INI parser does not write to a nil map.
use csi_driver_bs.Base.{
  Bool, true, false, ◌||◌, ◌≡◌, ◌≢◌, refl, arith, Option, none, some, Option-cases, Result-cases,
  inl, inr, List, [], ◌∷◌,
}
use csi_driver_bs.Text.{Text, text_eq, is_empty}
use csi_driver_bs.Text.Trim.{trim, trim_space, drop_first, drop_last}
use csi_driver_bs.Text.Lines.{split_lines}
use csi_driver_bs.Dict
use csi_driver_bs.Os.{OsError, Os}
use csi_driver_bs.Config.{
  Parsing, is_quote, split_at_equals, enter_section, assign, parse_pair, parse_line, parse_lines,
  scan, parse_ini, parse_ini_file, nothing_parsed, load_config_from_file,
}

abbrev pub found {ℓ} : {A : Type ℓ} → Option A → Bool
found none = false
found (some _) = true

-- The current section, if there is one, is in the map.
abbrev pub is_open : Parsing → Bool
is_open p = is_empty p.current || found (Dict.lookup p.current p.sections)

-- No panic, and the current section is still in the map.
abbrev pub goes_on : Option Parsing → Bool
goes_on none = false
goes_on (some p) = is_open p

pub enter_section-goes_on : (name : Text) (p : Parsing) → is_open (enter_section name p) ≡ true
unfolding enter_section
enter_section-goes_on name p = ground (arith, Dict.lookup-insert name name [] p.sections)

assign-goes_on :
    (key value : Text) (p : Parsing)
    → is_empty p.current ≡ false
    → is_open p ≡ true
    → goes_on (assign key value p) ≡ true
unfolding assign
assign-goes_on key value p named h = elim (Option-cases (Dict.lookup p.current p.sections)) [
  | inl e ↦ ground arith
  | inr (section, e) ↦
      ground
        (arith, Dict.lookup-insert p.current p.current (Dict.insert key value section) p.sections)
]

parse_pair-goes_on :
    (line : Text) (p : Parsing) → is_open p ≡ true → goes_on (parse_pair line p) ≡ true
unfolding parse_pair
parse_pair-goes_on line p h = elim (Option-cases (split_at_equals line)) [
  | inl e ↦ ground arith
  | inr ((key, value), e) ↦
      ground (arith, assign-goes_on (trim_space key) (trim is_quote (trim_space value)) p)
]

parse_line-goes_on :
    (line : Text) (p : Parsing) → is_open p ≡ true → goes_on (parse_line line p) ≡ true
unfolding parse_line
parse_line-goes_on line p h = ground (
  arith,
  enter_section-goes_on (trim_space (drop_first (drop_last line))) p,
  parse_pair-goes_on line p,
)

pub parse_lines-goes_on :
    (lines : List Text) (p : Parsing) → is_open p ≡ true → goes_on (parse_lines lines p) ≡ true
unfolding parse_lines
parse_lines-goes_on [] p h = h
parse_lines-goes_on (line ∷ lines) p h = elim (Option-cases (parse_line (trim_space line) p)) [
  | inl e ↦ ground (arith, parse_line-goes_on (trim_space line) p)
  | inr (p', e) ↦
      ground (arith, parse_line-goes_on (trim_space line) p, parse_lines-goes_on lines p')
]

-- Whatever the bytes of a file are, and however reading them ends, the parser does not panic: the
-- section that it assigns to has always been made.
pub parse_ini-ne-none :
    (text : Text) (read_error : Option OsError) → parse_ini text read_error ≢ none
unfolding parse_ini
parse_ini-ne-none text read_error =
    let lines = (scan (split_lines text)).0 in
    ground (arith, parse_lines-goes_on lines nothing_parsed refl)

-- No file makes the loading of a configuration panic; the parser only assigns
-- to a section that it has made.
pub load_config-ne-none :
    {W : Type 0} (os : Os W) (path : Text) (w : W) → (load_config_from_file os path w).0 ≢ none
unfolding load_config_from_file parse_ini_file
load_config-ne-none os path w = elim (Result-cases (os.open_file path w).0) [
  | inl ((text, read_error), e) ↦ ground (arith, parse_ini-ne-none text read_error)
  | inr (e, failed) ↦ ground arith
]
