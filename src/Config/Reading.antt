-- ===== src/Config/Reading.antt =====
-- The parser reads from the lines of a file what the file says.
use csi_driver_bs.Base.{
  true, ◌&&◌, ◌≡◌, ◌≢◌, refl, arith, Option, none, some, Option-cases, inl, inr, List, [], ◌∷◌, map,
  ◌==◌, if◌then◌else◌,
}
use csi_driver_bs.Text.{Text, text_eq}
use csi_driver_bs.Dict
use csi_driver_bs.Config.{Parsing, enter_section, assign, parse_lines}
use csi_driver_bs.Config.Safe.{is_open, enter_section-goes_on}
use csi_driver_bs.Config.Document.{
  Item, blank, comment, header, pair, IsItem, line_of, value_of, apply, item_line,
}

pub data AllItems : List Item → Type 0 where
  no_item : AllItems []
  an_item : {i : Item} {items : List Item} → IsItem i → AllItems items → AllItems (i ∷ items)

-- The value of a key of a section in a state of the parser.
abbrev pub entry_of : Text → Text → Parsing → Option Text
entry_of section key p = elim (Dict.lookup section p.sections) [
  | none ↦ none
  | some d ↦ Dict.lookup key d
]

abbrev pub entry_after : Text → Text → Option Parsing → Option Text
entry_after section key none = none
entry_after section key (some p) = entry_of section key p

-- What a file says from some line on, over what was known before.
abbrev pub or_before : Option Text → Option Text → Option Text
or_before (some v) before = some v
or_before none before = before

abbrev follow : List Text → Option Parsing → Option Parsing
follow lines none = none
follow lines (some p) = parse_lines lines p

parse_lines_step :
    (i : Item) (lines : List Text) (p : Parsing)
    → IsItem i
    → parse_lines (line_of i ∷ lines) p ≡ follow lines (apply i p)
unfolding parse_lines
parse_lines_step i lines p h = ground (arith, item_line i p h.shape)

module _ (section key : Text) where
  entry_of-enter :
      (name : Text) (p : Parsing)
      → entry_of section key (enter_section name p) ≡ entry_of section key p
  unfolding enter_section Dict.lookup
  entry_of-enter name p = ground (arith, Dict.lookup-insert section name [] p.sections)

  enter_section-current : (name : Text) (p : Parsing) → (enter_section name p).current ≡ name
  unfolding enter_section
  enter_section-current name p = refl

  -- After an assignment: a state, with the section open, and its entry.
  pub assign-entry :
      (k v : Text) (p : Parsing) (d : Dict.Dict Text Text)
      → Dict.lookup p.current p.sections ≡ some d
      → entry_of section key
          (record p { sections = Dict.insert p.current (Dict.insert k v d) p.sections })
        ≡ (if p.current == section && k == key then some v else entry_of section key p)
  assign-entry k v p d e = ground (
    arith,
    Dict.lookup-insert section p.current (Dict.insert k v d) p.sections,
    Dict.lookup-insert key k v d,
  )

  parse_none : (p : Parsing) → entry_after section key (parse_lines [] p) ≡ entry_of section key p
  unfolding parse_lines
  parse_none p = refl

  pub parse_items :
      (items : List Item) (p : Parsing)
      → AllItems items
      → section ≢ []
      → is_open p ≡ true
      → entry_after section key (parse_lines (map line_of items) p)
        ≡ or_before (value_of section key p.current items) (entry_of section key p)
  unfolding assign
  parse_items [] p h named o = parse_none p
  parse_items (blank ∷ items) p (an_item i h) named o =
      rw (parse_lines_step blank (map line_of items) p i) (parse_items items p h named o)
  parse_items (comment text ∷ items) p (an_item i h) named o =
      rw (parse_lines_step (comment text) (map line_of items) p i) (parse_items items p h named o)
  parse_items (header name ∷ items) p (an_item i h) named o =
      rw (parse_lines_step (header name) (map line_of items) p i) (
        ground (
          arith,
          parse_items items (enter_section name p) h named (enter_section-goes_on name p),
          entry_of-enter name p,
          enter_section-current name p,
        ))
  parse_items (pair k v ∷ items) p (an_item i h) named o =
      rw (parse_lines_step (pair k v) (map line_of items) p i)
        (elim (Option-cases (Dict.lookup p.current p.sections)) [
          | inl e ↦ ground (arith, parse_items items p h named o)
          | inr (d, e) ↦
              let p' : Parsing = record p {
                sections = Dict.insert p.current (Dict.insert k v d) p.sections;
              } in
              ground (
                arith,
                parse_items items p h named o,
                parse_items items p' h named (
                    ground (
                      arith,
                      Dict.lookup-insert p.current p.current (Dict.insert k v d) p.sections,
                    )),
                assign-entry k v p d e,
              )
        ])
