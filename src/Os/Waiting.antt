-- ===== src/Os/Waiting.antt =====
-- `WaitForPathNotExist` and the `Validate` functions of pkg/vcloud/utils.go. The ticker and the timer
-- are a list of events, each with what happens to the node before it; `select` takes them in turn.
use csi_driver_bs.Base.{
  true, ◌≡◌, refl, arith, Option, none, some, Result-cases, Bool-cases, inl, inr, List, [], ◌∷◌,
  ◌++◌, err, if◌then◌else◌,
}
use csi_driver_bs.Text.{Text, str, is_empty}
use csi_driver_bs.Os.{OsError, errorf, Os}
use csi_driver_bs.Os.Files.{path_exists}

pub data Event (W : Type 0) : Type 0 where
  tick expired : (W → W) → Event W

abbrev pub not_gone : Text → OsError
not_gone path = errorf (str "timeout waiting for path " ++ (path ++ str " to not exist"))

module _ {W : Type 0} (os : Os W) where
  -- None while it still waits.
  unfoldable pub wait_for_path_not_exist : Text → List (Event W) → W → Option (Option OsError × W)
  wait_for_path_not_exist path [] w = none
  wait_for_path_not_exist path (expired f ∷ events) w = some (some (not_gone path), f w)
  wait_for_path_not_exist path (tick f ∷ events) w =
      let rest = wait_for_path_not_exist path events in
      let ((exists, e), w') = path_exists os path (f w) in
      elim e [ some e ↦ some (some e, w') | none ↦ if exists then rest w' else some (none, w') ]

  -- What an answer says: the path was last seen not to exist, or there is an error.
  pub data Waited (path : Text) : Option OsError → W → Type 0 where
    gone :
        {u w : W} (e : OsError)
        → os.stat path u ≡ (err e, w)
        → e.not_exist ≡ true
        → Waited path none w
    failed : {w : W} (e : OsError) → Waited path (some e) w

  -- The wait ends, at the latest with the timer, whatever happens to the node meanwhile; and it ends
  -- with no error only where the path was seen not to exist.
  pub wait_for_path_not_exist-Waited :
      (path : Text) (before after : List (Event W)) (f : W → W) (w : W)
      → (r : Option OsError) × (w' : W) × (wait_for_path_not_exist path
            (before ++ (expired f ∷ after))
            w
          ≡ some (r, w'))
        × Waited path r w'
  unfolding wait_for_path_not_exist path_exists
  wait_for_path_not_exist-Waited path [] after f w =
      (some (not_gone path), f w, refl, failed (not_gone path))
  wait_for_path_not_exist-Waited path (expired g ∷ before) after f w =
      (some (not_gone path), g w, refl, failed (not_gone path))
  wait_for_path_not_exist-Waited path (tick g ∷ before) after f w =
      let w' = (os.stat path (g w)).1 in
      elim (Result-cases (os.stat path (g w)).0) [
        | inl (info, there) ↦
            let (r, v, e, seen) = wait_for_path_not_exist-Waited path before after f w' in
            (r, v, ground (arith, e), seen)
        | inr (e, failing) ↦ elim (Bool-cases e.not_exist) [
          | inl missing ↦ (none, w', ground arith, gone {u = g w} e (ground arith) missing)
          | inr other ↦ (some e, w', ground arith, failed e)
        ]
      ]

-- The error of each.
unfoldable pub validate_volume_id : Text → Option Text
validate_volume_id volume_id =
    if is_empty volume_id then some (str "volume ID is required") else none

unfoldable pub validate_node_id : Text → Option Text
validate_node_id node_id = if is_empty node_id then some (str "node ID is required") else none

unfoldable pub validate_target_path : Text → Option Text
validate_target_path target_path =
    if is_empty target_path then some (str "target path is required") else none

unfoldable pub validate_staging_target_path : Text → Option Text
validate_staging_target_path staging_target_path =
    if is_empty staging_target_path then some (str "staging target path is required") else none
