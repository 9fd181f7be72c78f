-- ===== src/Config/Loading.antt =====
-- The configuration that is loaded from a file is the one that the file says.
use csi_driver_bs.Base.{
  true, false, ◌≡◌, ◌≢◌, ◌↔◌, refl, arith, ap, none, some, Option-cases, inl, inr, List, [], ◌∷◌,
  ◌++◌, map, ok,
}
use csi_driver_bs.Text.{Text, text_eq, str}
use csi_driver_bs.Text.Lines.{newline, cut_lines, split_lines, split_lines-line, is_space}
use csi_driver_bs.Text.Trim.{ends, ends-append, has_suffix}
use csi_driver_bs.Dict
use csi_driver_bs.Os.{Os}
use csi_driver_bs.Config.{
  Config, Parsing, scan, parse_lines, nothing_parsed, parse_ini, parse_ini_file, config_of,
  config_of_section, load_config_from_file, config_section_vcloud, config_key_mgmt_url,
  config_key_provider_token,
}
use csi_driver_bs.Config.Safe.{parse_lines-goes_on}
use csi_driver_bs.Config.Document.{
  Item, blank, comment, header, pair, item_shape, line_of, value_of,
}
use csi_driver_bs.Config.Reading.{AllItems, an_item, entry_of, parse_items}

-- The text of a file.
abbrev pub render : List Item → Text
render [] = []
render (i ∷ items) = line_of i ++ (newline ∷ render items)

item_closed : (i : Item) → item_shape i ≡ true → ends is_space (line_of i) ≡ false
unfolding ends
item_closed blank h = refl
item_closed (comment text) h = ground arith
item_closed (header name) h = ground (arith, ends-append is_space (b'[' ∷ name) (b']' ∷ []))
item_closed (pair key []) h = ground (arith, ends-append is_space key (b'=' ∷ []))
item_closed (pair key (v ∷ value)) h = ground (arith, ends-append is_space key (b'=' ∷ (v ∷ value)))

no_return : (s : Text) → ends is_space s ≡ false → has_suffix b'\r' s ≡ false
unfolding ends has_suffix
no_return [] h = refl
no_return (c ∷ []) h = ground arith
no_return (c ∷ (d ∷ s)) h = no_return (d ∷ s) h

split_lines-render :
    (items : List Item)
    → AllItems items
    → split_lines (render items) ≡ map line_of items ++ ([] ∷ [])
unfolding split_lines cut_lines
split_lines-render [] h = refl
split_lines-render (i ∷ items) (an_item h hs) =
    rw (split_lines-line (line_of i) (render items) h.one_line)
      (ap (λ (r : List Text). line_of i ∷ r) (split_lines-render items hs))

scan-lines :
    (items : List Item)
    → AllItems items
    → scan (map line_of items ++ ([] ∷ [])) ≡ (map line_of items, false)
unfolding scan
scan-lines [] h = refl
scan-lines (i ∷ []) (an_item h hs) =
    ground (arith, h.short, no_return (line_of i), item_closed i h.shape)
scan-lines (i ∷ (j ∷ items)) (an_item h hs) =
    ground (arith, h.short, no_return (line_of i), item_closed i h.shape, scan-lines (j ∷ items) hs)

scan-render :
    (items : List Item)
    → AllItems items
    → scan (split_lines (render items)) ≡ (map line_of items, false)
scan-render items h = rw (split_lines-render items h) (scan-lines items h)

-- Both values are there, and none is empty.
abbrev pub Says : List Item → Config → Type 0
Says items c =
    (value_of config_section_vcloud config_key_mgmt_url [] items ≡ some c.api_url)
    × ((value_of config_section_vcloud config_key_provider_token [] items ≡ some c.provider_token)
        × ((c.api_url ≢ []) × (c.provider_token ≢ [])))

config_of_iff :
    (p : Parsing) (c : Config)
    → (config_of (ok p.sections) ≡ ok c) ↔ (
        (entry_of config_section_vcloud config_key_mgmt_url p ≡ some c.api_url)
        × ((entry_of config_section_vcloud config_key_provider_token p ≡ some c.provider_token)
            × ((c.api_url ≢ []) × (c.provider_token ≢ []))))
unfolding config_of config_of_section
config_of_iff p c = ground arith

read_entry :
    (items : List Item) (p : Parsing) (key : Text)
    → AllItems items
    → parse_lines (map line_of items) nothing_parsed ≡ some p
    → entry_of config_section_vcloud key p ≡ value_of config_section_vcloud key [] items
unfolding Dict.lookup
read_entry items p key h e =
    ground (
      arith,
      parse_items config_section_vcloud key items nothing_parsed h (λ n. vcloud_named n) refl,
    )
  where
    vcloud_named : config_section_vcloud ≢ []
    vcloud_named = unfold str in λ n. cc

parse_ini-some :
    (items : List Item) (p : Parsing)
    → AllItems items
    → parse_lines (map line_of items) nothing_parsed ≡ some p
    → parse_ini (render items) none ≡ some (ok p.sections)
unfolding parse_ini
parse_ini-some items p h e = ground (arith, scan-render items h)

-- On a file of comments, headers and pairs, one on a line, a configuration is loaded exactly if its
-- section gives a value to both keys, and neither is empty; it has these values. Of several pairs for
-- a key the last counts, also across several headers of the section. Keys, names and values have no
-- white space at their ends, values no quotes there, and the lines are shorter than 64 KiB.
pub load_config_iff :
    {W : Type 0} (os : Os W) (path : Text) (w w' : W) (items : List Item) (c : Config)
    → AllItems items
    → os.open_file path w ≡ (ok (render items, none), w')
    → ((load_config_from_file os path w).0 ≡ some (ok c)) ↔ Says items c
unfolding load_config_from_file parse_ini_file
load_config_iff os path w w' items c h opened =
    elim (Option-cases (parse_lines (map line_of items) nothing_parsed)) [
      | inl e ↦ absurd (ground (arith, parse_lines-goes_on (map line_of items) nothing_parsed refl))
      | inr (p, e) ↦ ground (
        arith,
        parse_ini-some items p h e,
        read_entry items p config_key_mgmt_url h e,
        read_entry items p config_key_provider_token h e,
        config_of_iff p c,
      )
    ]
