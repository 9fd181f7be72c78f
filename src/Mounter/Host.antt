-- ===== src/Mounter/Host.antt =====
-- The type `mounter` of pkg/vcloud/mounter.go, which mounts and formats on the host. The mount calls
-- of k8s.io/mount-utils are a parameter.
use csi_driver_bs.Base.{
  ℕ, zero, suc, ◌*◌, Bool, false, not, ltb, Option, none, some, List, [], ◌∷◌, ◌++◌, Result, ok,
  err, ◌==◌, if◌then◌else◌,
}
use csi_driver_bs.Base.Int.{pos, eqb_ℤ}
use csi_driver_bs.Text.{Text, text_eq, str, is_empty}
use csi_driver_bs.Text.Decimal.{decimal}
use csi_driver_bs.Text.Contains.{contains}
use csi_driver_bs.Driver.{or_text}
use csi_driver_bs.Os.{OsError, errorf, Os}
use csi_driver_bs.Mounter.{Mounter, default_fs_type}

-- `mount.SafeFormatAndMount`, as far as it is used.
pub record MountUtils (W : Type 0) : Type 0 where
  pub mount : Text → Text → Text → List Text → W → Option OsError × W
  pub unmount : Text → W → Option OsError × W
  pub is_mount_point : Text → W → (Bool × Option OsError) × W
  pub is_likely_not_mount_point : Text → W → (Bool × Option OsError) × W

abbrev pub max_mount_retries : ℕ
max_mount_retries = 5

-- In nanoseconds.
abbrev pub mount_retry_delay : ℕ
mount_retry_delay = 2000000000

-- The exit code of `blkid` that says that there is no file system.
abbrev pub no_file_system : OsError → Bool
no_file_system e = elim e.exit_code [ none ↦ false | some code ↦ eqb_ℤ code (pos 2) ]

-- `%w` of an error that may be nil.
abbrev pub wrapped : Option OsError → Text
wrapped none = str "%!w(<nil>)"
wrapped (some e) = e.message

abbrev mkfs_args : Text → Text → List Text
mkfs_args fs_type source =
    if fs_type == str "xfs" then str "-f" ∷ source ∷ [] else str "-F" ∷ source ∷ []

module _ {W : Type 0} (os : Os W) where
  unfoldable pub is_block_device : Text → W → (Bool × Option OsError) × W
  is_block_device path w =
      let (r, w') = os.stat path w in
      elim r [ err e ↦ ((false, some e), w') | ok info ↦ ((info.is_device, none), w') ]

module _ {W : Type 0} (os : Os W) (trim_space : Text → Text) where
  unfoldable pub get_device_fs_type : Text → W → Result OsError Text × W
  get_device_fs_type device w =
      let ((text, r), w') =
        os.output (str "blkid") (str "-o" ∷ str "value" ∷ str "-s" ∷ str "TYPE" ∷ device ∷ []) w in
      elim r [
        | none ↦ (ok (trim_space text), w')
        | some e ↦ if no_file_system e then (ok [], w') else (err e, w')
      ]

  -- "Format the device".
  unfoldable pub mkfs : Text → Text → W → Option OsError × W
  mkfs source fs_type w =
      let ((text, r), w') =
        os.combined_output (str "mkfs." ++ fs_type) (mkfs_args fs_type source) w in
      elim r [
        | none ↦ (none, w')
        | some e ↦ (
          some (
              errorf
                (str "failed to format device: " ++ (e.message ++ (str ", output: " ++ text)))),
          w',
        )
      ]

  unfoldable pub format : Text → Text → W → Option OsError × W
  format source fs_type w =
      let (existing, w') = get_device_fs_type source w in
      elim existing [
        | err e ↦ (some (errorf (str "failed to get device filesystem type: " ++ e.message)), w')
        | ok fs ↦
            if not (is_empty fs)
            then (none, w')
            else mkfs source (or_text fs_type default_fs_type) w'
      ]

module _ {W : Type 0} (os : Os W) (u : MountUtils W) where
  unfoldable pub mount : Text → Text → Text → List Text → W → Option OsError × W
  mount source target fs_type options w =
      u.mount source target (or_text fs_type default_fs_type) options w

  -- "Check if already mounted", after the attempt has failed.
  unfoldable pub already_mounted : Text → OsError → W → Bool × W
  already_mounted target e w =
      if contains e.message (str "already mounted")
      then (let ((mounted, check), w') = u.is_mount_point target w in
          elim check [ none ↦ (mounted, w') | some _ ↦ (false, w') ])
      else (false, w)

  -- The pause after a failed attempt.
  unfoldable pub pause : ℕ → OsError → W → W
  pause attempt e w =
      if contains e.message (str "device or resource busy")
      then os.sleep (mount_retry_delay * attempt) w
      else if ltb attempt max_mount_retries
      then os.sleep mount_retry_delay w
      else w

  -- The attempts from this one on, of which there are so many left, after this last error.
  unfoldable pub mount_attempts :
      Text → Text → Text → List Text → ℕ → ℕ → Option OsError → W → Option OsError × W
  mount_attempts source target fs_type options attempt zero last w = (
    some (
        errorf (
          str "mount failed after "
          ++ (decimal max_mount_retries ++ (str " attempts: " ++ wrapped last)))),
    w,
  )
  mount_attempts source target fs_type options attempt (suc left) last w =
      let rest = mount_attempts source target fs_type options (suc attempt) left in
      let (r, w') = mount source target fs_type options w in
      elim r [
        | none ↦ (none, w')
        | some e ↦
            let (done, w'') = already_mounted target e w' in
            if done then (none, w'') else rest (some e) (pause attempt e w'')
      ]

  unfoldable pub mount_with_retry : Text → Text → Text → List Text → W → Option OsError × W
  mount_with_retry source target fs_type options w =
      mount_attempts source target fs_type options 1 max_mount_retries none w

abbrev pub host_mounter : {W : Type 0} → Os W → (Text → Text) → MountUtils W → Mounter W
host_mounter os trim_space u = record {
  format = format os trim_space;
  mount = mount os u;
  unmount = u.unmount;
  is_mount_point = u.is_mount_point;
  is_likely_not_mount_point = u.is_likely_not_mount_point;
  is_block_device = is_block_device os;
  get_device_fs_type = get_device_fs_type os trim_space;
  mount_with_retry = mount_with_retry os u;
}
