-- ===== src/Config.antt =====
-- pkg/vcloud/client/config.go: the INI parser, and the configuration that is read with it.
pub mod Safe
pub mod Document
pub mod Reading
pub mod Loading
use csi_driver_bs.Base.{
  ℕ, suc, Bool, true, false, not, ◌&&◌, ◌||◌, eqb, ltb, length, Option, none, some, List, [], ◌∷◌,
  ◌++◌, Result, ok, err, ◌==◌, if◌then◌else◌,
}
use csi_driver_bs.Text.{Text, text_eq, str, is_empty}
use csi_driver_bs.Text.Decimal.{decimal}
use csi_driver_bs.Text.Lines.{split_lines}
use csi_driver_bs.Text.Trim.{trim, trim_space, has_prefix, has_suffix, drop_first, drop_last}
use csi_driver_bs.Dict
use csi_driver_bs.Dict.{Dict}
use csi_driver_bs.Os.{OsError, errorf, Os}
use csi_driver_bs.Client.Request.{Client, new_client}

pub record Config : Type 0 where
  pub api_url : Text
  pub provider_token : Text

abbrev pub default_config_path : Text
default_config_path = str "/etc/config/cloud-config"

abbrev pub config_section_vcloud : Text
config_section_vcloud = str "vCloud"

abbrev pub config_key_mgmt_url : Text
config_key_mgmt_url = str "MGMT_URL"

abbrev pub config_key_provider_token : Text
config_key_provider_token = str "PROVIDER_TOKEN"

-- A `map[string]map[string]string`.
abbrev pub Sections : Type 0
Sections = Dict Text (Dict Text Text)

-- `sections` and `currentSection`.
pub record Parsing : Type 0 where
  pub sections : Sections
  pub current : Text

abbrev pub is_comment : Text → Bool
is_comment line = is_empty line || (has_prefix b'#' line || has_prefix b';' line)

abbrev pub is_header : Text → Bool
is_header line = has_prefix b'[' line && has_suffix b']' line

abbrev pub is_quote : ℕ → Bool
is_quote c = eqb c b'"' || eqb c b'\''

-- `strings.SplitN(line, "=", 2)`, none where there is no second part.
unfoldable pub split_at_equals : Text → Option (Text × Text)
split_at_equals [] = none
split_at_equals (c ∷ s) =
    let rest = split_at_equals s in
    if eqb c b'='
    then some ([], s)
    else elim rest [ none ↦ none | some (key, value) ↦ some (c ∷ key, value) ]

-- A section header.
unfoldable pub enter_section : Text → Parsing → Parsing
enter_section name p = record {
  sections = elim (Dict.lookup name p.sections) [
    | none ↦ Dict.insert name [] p.sections
    | some _ ↦ p.sections
  ];
  current = name;
}

-- `sections[currentSection][key] = value`, which panics if the section is not there.
unfoldable pub assign : Text → Text → Parsing → Option Parsing
assign key value p = elim (Dict.lookup p.current p.sections) [
  | none ↦ none
  | some section ↦
      some
        (record p { sections = Dict.insert p.current (Dict.insert key value section) p.sections })
]

-- A line that is no comment and no header.
unfoldable pub parse_pair : Text → Parsing → Option Parsing
parse_pair line p = if is_empty p.current then some p else elim (split_at_equals line) [
  | none ↦ some p
  | some (key, value) ↦ assign (trim_space key) (trim is_quote (trim_space value)) p
]

-- The body of the loop, on a line that is trimmed.
unfoldable pub parse_line : Text → Parsing → Option Parsing
parse_line line p =
    if is_comment line
    then some p
    else if is_header line
    then some (enter_section (trim_space (drop_first (drop_last line))) p)
    else parse_pair line p

-- The loop; none is a panic.
unfoldable pub parse_lines : List Text → Parsing → Option Parsing
parse_lines [] p = some p
parse_lines (line ∷ lines) p = elim (parse_line (trim_space line) p) [
  | none ↦ none
  | some p' ↦ parse_lines lines p'
]

-- `bufio.ScanLines`: a line without a carriage return at its end.
abbrev pub drop_return : Text → Text
drop_return line = if has_suffix b'\r' line then drop_last line else line

-- The lines that the scanner gives: up to one of 64 KiB, and not an empty one at the end of the file.
-- The flag says whether such a line stopped it.
unfoldable pub scan : List Text → List Text × Bool
scan [] = ([], false)
scan (line ∷ lines) =
    let (others, stopped) = scan lines in
    if not (ltb (length line) 65536) then ([], true) else elim lines [
      | [] ↦ (if is_empty line then [] else drop_return line ∷ [], false)
      | _ ∷ _ ↦ (drop_return line ∷ others, stopped)
    ]

-- The error of the scanner: of a line that is too long, or of the file.
abbrev pub scan_error : Bool → Option OsError → Option OsError
scan_error true e = some (errorf (str "bufio.Scanner: token too long"))
scan_error false e = e

abbrev pub nothing_parsed : Parsing
nothing_parsed = record { sections = []; current = [] }

-- What is parsed of the bytes that could be read, with the error that ended the reading; none is a
-- panic.
unfoldable pub parse_ini : Text → Option OsError → Option (Result OsError Sections)
parse_ini text read_error =
    let (lines, stopped) = scan (split_lines text) in
    elim (parse_lines lines nothing_parsed) [
      | none ↦ none
      | some p ↦ elim (scan_error stopped read_error) [
        | none ↦ some (ok p.sections)
        | some e ↦ some (
            err (
              errorf (
                str "error reading config file at line "
                ++ (decimal (length lines) ++ (str ": " ++ e.message)))))
      ]
    ]

-- `v, ok := m[key]; !ok || v == ""`, as the value or nothing.
abbrev pub value_in : Text → Dict Text Text → Option Text
value_in key section = elim (Dict.lookup key section) [
  | none ↦ none
  | some value ↦ if is_empty value then none else some value
]

abbrev missing_key : Text → OsError
missing_key key =
    errorf (str "missing " ++ (key ++ (str " in [" ++ (config_section_vcloud ++ str "] section"))))

unfoldable pub config_of_section : Dict Text Text → Result OsError Config
config_of_section section = elim (value_in config_key_mgmt_url section) [
  | none ↦ err (missing_key config_key_mgmt_url)
  | some url ↦ elim (value_in config_key_provider_token section) [
    | none ↦ err (missing_key config_key_provider_token)
    | some token ↦ ok (record { api_url = url; provider_token = token })
  ]
]

unfoldable pub config_of : Result OsError Sections → Result OsError Config
config_of (err e) = err (errorf (str "failed to parse config file: " ++ e.message))
config_of (ok sections) = elim (Dict.lookup config_section_vcloud sections) [
  | none ↦
      err (errorf (str "missing [" ++ (config_section_vcloud ++ str "] section in config file")))
  | some section ↦ config_of_section section
]

-- `(*Config).Validate`
unfoldable pub validate_config : Config → Option OsError
validate_config c =
    if is_empty c.api_url
    then some (errorf (str "API URL is required"))
    else if is_empty c.provider_token
    then some (errorf (str "provider token is required"))
    else none

unfoldable pub new_client_from_config : Config → Client
new_client_from_config c = new_client c.api_url c.provider_token

module _ {W : Type 0} (os : Os W) where
  unfoldable pub parse_ini_file : Text → W → Option (Result OsError Sections) × W
  parse_ini_file path w =
      let (r, w') = os.open_file path w in
      elim r [
        | err e ↦ (some (err e), w')
        | ok (text, read_error) ↦ (parse_ini text read_error, w')
      ]

  unfoldable pub load_config_from_file : Text → W → Option (Result OsError Config) × W
  load_config_from_file path w =
      let (r, w') = parse_ini_file path w in
      elim r [ none ↦ (none, w') | some sections ↦ (some (config_of sections), w') ]

  unfoldable pub load_config : W → Option (Result OsError Config) × W
  load_config w = load_config_from_file default_config_path w
