-- ===== src/Node/MountTable.antt =====
-- `getDeviceForMountPoint` on the text of /proc/mounts.
use csi_driver_bs.Base.{
  Bool, true, false, ◌≡◌, ◌≢◌, refl, arith, Option, none, some, List, [], ◌∷◌, ◌++◌, ok, err, ◌==◌,
  if◌then◌else◌,
}
use csi_driver_bs.Text.{Text, text_eq, str}
use csi_driver_bs.Text.Lines.{
  newline, has_newline, split_lines-line, is_space, cut_lines, split_lines, add_word, cut_words,
  fields,
}
use csi_driver_bs.Os.{errorf}
use csi_driver_bs.Node.Expand.{device_at}

-- A line of /proc/mounts: `device point rest`.
pub record Entry : Type 0 where
  pub device : Text
  pub point : Text
  pub rest : Text

abbrev pub has_space : Text → Bool
has_space [] = false
has_space (c ∷ s) = if is_space c then true else has_space s

pub record IsEntry (e : Entry) : Type 0 where
  pub device_named : e.device ≢ []
  pub device_word : has_space e.device ≡ false
  pub point_named : e.point ≢ []
  pub point_word : has_space e.point ≡ false
  pub rest_line : has_newline e.rest ≡ false

abbrev pub line_of : Entry → Text
line_of e = e.device ++ (32 ∷ (e.point ++ (32 ∷ e.rest)))

abbrev pub render : List Entry → Text
render [] = []
render (e ∷ es) = line_of e ++ (newline ∷ render es)

-- The device of the first entry of the mount point.
abbrev pub first_device : Text → List Entry → Option Text
first_device point [] = none
first_device point (e ∷ es) = if e.point == point then some e.device else first_device point es

pub data AllEntries : List Entry → Type 0 where
  no_entry : AllEntries []
  an_entry : {e : Entry} {es : List Entry} → IsEntry e → AllEntries es → AllEntries (e ∷ es)

cut_words-word :
    (word s : Text) → has_space word ≡ false → cut_words (word ++ (32 ∷ s)) ≡ (word, fields s)
unfolding cut_words fields
cut_words-word [] s h = refl
cut_words-word (c ∷ word) s h = ground (arith, cut_words-word word s)

add_word_named : (word : Text) (words : List Text) → word ≢ [] → add_word word words ≡ word ∷ words
add_word_named [] words h = ground arith
add_word_named (c ∷ word) words h = refl

fields-word :
    (word s : Text)
    → word ≢ []
    → has_space word ≡ false
    → fields (word ++ (32 ∷ s)) ≡ word ∷ fields s
unfolding fields
fields-word word s named h = rw (cut_words-word word s h) (add_word_named word (fields s) named)

fields-line_of : (e : Entry) → IsEntry e → fields (line_of e) ≡ e.device ∷ (e.point ∷ fields e.rest)
fields-line_of e h = rw (
  fields-word e.device (e.point ++ (32 ∷ e.rest)) h.device_named h.device_word,
  fields-word e.point e.rest h.point_named h.point_word,
)

word_line : (s : Text) → has_space s ≡ false → has_newline s ≡ false
word_line [] h = refl
word_line (c ∷ s) h = ground (arith, word_line s)

has_newline-append :
    (s t : Text) → has_newline s ≡ false → has_newline t ≡ false → has_newline (s ++ t) ≡ false
has_newline-append [] t h k = k
has_newline-append (c ∷ s) t h k = ground (arith, has_newline-append s t)

line_of-one_line : (e : Entry) → IsEntry e → has_newline (line_of e) ≡ false
line_of-one_line e h =
    has_newline-append e.device (32 ∷ (e.point ++ (32 ∷ e.rest))) (word_line e.device h.device_word)
      (has_newline-append e.point (32 ∷ e.rest) (word_line e.point h.point_word) h.rest_line)

split_lines-render :
    (e : Entry) (es : List Entry)
    → IsEntry e
    → split_lines (render (e ∷ es)) ≡ line_of e ∷ split_lines (render es)
unfolding split_lines
split_lines-render e es h =
    rw (split_lines-line (line_of e) (render es) (line_of-one_line e h)) refl

-- On the text of a mount table, one `device point rest` line for each mount, the device that is
-- found for a mount point is that of the first entry with this mount point, and an error where there
-- is no such entry. No device and no mount point has white space in it.
pub device_at-render :
    (point : Text) (es : List Entry)
    → AllEntries es
    → device_at point (split_lines (render es)) ≡ (elim (first_device point es) [
      | some device ↦ ok device
      | none ↦ err (errorf (str "mount point " ++ (point ++ str " not found in /proc/mounts")))
    ])
unfolding device_at split_lines cut_lines fields cut_words
device_at-render point [] no_entry = refl
device_at-render point (e ∷ es) (an_entry h hs) =
    rw (split_lines-render e es h)
      (rw (fields-line_of e h, device_at) (ground (arith, device_at-render point es hs)))
