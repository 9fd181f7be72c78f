-- ===== src/Os.antt =====
-- What the driver uses of the packages os, os/exec, path/filepath, time and golang.org/x/sys/unix:
-- parameters of the model, over the state `W` of the node. The children model the helpers of
-- pkg/vcloud/utils.go that stand on them.
pub mod Files
pub mod Waiting
use csi_driver_bs.Base.{
  ℕ, Bool, true, false, Option, none, some, List, Result, ok, err, if◌then◌else◌,
}
use csi_driver_bs.Base.Int.{ℤ}
use csi_driver_bs.Text.{Text}

-- A Go error: its text, whether `os.IsNotExist` holds of it, and the exit code of an `ExitError`.
pub record OsError : Type 0 where
  pub message : Text
  pub not_exist : Bool
  pub exit_code : Option ℤ

-- The error of a `fmt.Errorf`.
abbrev pub errorf : Text → OsError
errorf message = record { message = message; not_exist = false; exit_code = none }

pub record FileInfo : Type 0 where
  pub perm : ℕ
  pub is_device : Bool

-- The fields of `Statfs_t`, each as its 64 bits.
pub record Statfs : Type 0 where
  pub bavail : ℕ
  pub blocks : ℕ
  pub bsize : ℕ
  pub ffree : ℕ
  pub files : ℕ

pub record Os (W : Type 0) : Type 0 where
  pub stat : Text → W → Result OsError FileInfo × W
  pub statfs : Text → W → Result OsError Statfs × W
  -- `os.Open`, and what reading then gives: the bytes before the end or the first error, and that
  -- error.
  pub open_file : Text → W → Result OsError (Text × Option OsError) × W
  pub read_file : Text → W → Result OsError Text × W
  pub read_dir : Text → W → Result OsError (List Text) × W
  pub mkdir_all : Text → ℕ → W → Option OsError × W
  pub remove_all : Text → W → Option OsError × W
  pub remove : Text → W → Option OsError × W
  pub chmod : Text → ℕ → W → Option OsError × W
  -- `exec.Command(name, args...)` with `Output()` and with `CombinedOutput()`.
  pub output : Text → List Text → W → (Text × Option OsError) × W
  pub combined_output : Text → List Text → W → (Text × Option OsError) × W
  pub sleep : ℕ → W → W
  -- Where a timer of so many nanoseconds fires before a function that was started in the
  -- background is done: the state at that moment.
  pub fires_first : (W → Option OsError × W) → ℕ → W → Option W
  pub dir : Text → Text
  pub duration_text : ℕ → Text

-- `os.IsNotExist(err)` of a call's result, false where there is no error.
abbrev pub is_not_exist {ℓ} : {A : Type ℓ} → Result OsError A → Bool
is_not_exist (ok _) = false
is_not_exist (err e) = e.not_exist

-- The error of a mount point check, if it is not for a path that does not exist.
abbrev pub hard_error : Option OsError → Option OsError
hard_error none = none
hard_error (some e) = if e.not_exist then none else some e

-- Whether it is for a path that does not exist.
abbrev pub soft_error : Option OsError → Bool
soft_error none = false
soft_error (some e) = e.not_exist
