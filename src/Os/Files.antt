-- ===== src/Os/Files.antt =====
-- `WaitUntilTimeout`, `MakeDir`, `ChmodIfPermissionMismatch`, `PathExists` and `CleanupPath` of
-- pkg/vcloud/utils.go.
use csi_driver_bs.Base.{
  ℕ, eqb, zero, suc, ◌||◌, Bool, true, false, Option, none, some, [], ◌∷◌, ◌++◌, ok, err, ◌==◌,
  if◌then◌else◌,
}
use csi_driver_bs.Text.{Text, text_eq, str}
use csi_driver_bs.Os.{OsError, errorf, Os}

module _ {W : Type 0} (os : Os W) where
  -- The function runs in the background, and goes on if the timer fires first. The error of the
  -- timeout function is only logged.
  unfoldable pub wait_until_timeout :
      ℕ → (W → Option OsError × W) → (W → Option OsError × W) → W → Option OsError × W
  wait_until_timeout timeout exec_func timeout_func w = elim (os.fires_first exec_func timeout w) [
    | none ↦ exec_func w
    | some w' ↦
        (some (errorf (str "timeout after " ++ os.duration_text timeout)), (timeout_func w').1)
  ]

  unfoldable pub make_dir : Text → ℕ → W → Option OsError × W
  make_dir path perm w =
      let (r, w') = os.mkdir_all path perm w in
      elim r [
        | none ↦ (none, w')
        | some e ↦ (
          some (errorf (str "failed to create directory " ++ (path ++ (str ": " ++ e.message)))),
          w',
        )
      ]

  unfoldable pub chmod_if_permission_mismatch : Text → ℕ → W → Option OsError × W
  chmod_if_permission_mismatch target_path mode w =
      let (r, w') = os.stat target_path w in
      elim r [
        | err e ↦ (some e, w')
        | ok info ↦ if eqb info.perm mode then (none, w') else os.chmod target_path mode w'
      ]

  unfoldable pub path_exists : Text → W → (Bool × Option OsError) × W
  path_exists path w =
      let (r, w') = os.stat path w in
      elim r [
        | ok _ ↦ ((true, none), w')
        | err e ↦ if e.not_exist then ((false, none), w') else ((false, some e), w')
      ]

  -- The loop over the parents: at most `depth` of them, while they are empty directories.
  unfoldable pub remove_empty_parents : ℕ → Text → W → W
  remove_empty_parents zero parent w = w
  remove_empty_parents (suc depth) parent w =
      let rest = remove_empty_parents depth (os.dir parent) in
      if parent == str "/" || parent == str "."
      then w
      else let (entries, w') = os.read_dir parent w in
        elim entries [
          | err _ ↦ w'
          | ok (_ ∷ _) ↦ w'
          | ok [] ↦ let (r, w'') = os.remove parent w' in elim r [ none ↦ rest w'' | some _ ↦ w'' ]
        ]

  -- `maxDepth` is not negative.
  unfoldable pub cleanup_path : Text → ℕ → W → Option OsError × W
  cleanup_path path max_depth w =
      let (r, w') = os.remove_all path w in
      elim r [
        | some e ↦ (some e, w')
        | none ↦ (none, remove_empty_parents max_depth (os.dir path) w')
      ]
