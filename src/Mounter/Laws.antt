-- ===== src/Mounter/Laws.antt =====
-- What the node service relies on in a mounter and in the calls to the host, and the fake mounter as
-- an instance.
use csi_driver_bs.Base.{
  ℕ, Bool, true, false, ◌≡◌, refl, arith, Option, none, some, List, ◌==◌, if◌then◌else◌,
}
use csi_driver_bs.Text.{Text, text_eq}
use csi_driver_bs.Dict
use csi_driver_bs.Dict.{Dict}
use csi_driver_bs.Os.{Os, soft_error}
use csi_driver_bs.Mounter.{Mounter}
use csi_driver_bs.Mounter.Fake.{
  FakeMounter, fake_mounter, fake_mount, fake_unmount, fake_is_mount_point, fake_format,
}

abbrev pub present {ℓ} : {A : Type ℓ} → Option A → Bool
present none = false
present (some _) = true

-- The mount table of a state, under calls of the mounter: a call that succeeds does what
-- it says, a check of a mount point that succeeds reads it, and a path that does not exist is not in it.
pub record IsMounter {W : Type 0} (mo : Mounter W) (points : W → Dict Text Text) : Type 0 where
  pub mount_ok :
      (source target fs : Text) (options : List Text) (w : W) (k : Text)
      → (mo.mount source target fs options w).0 ≡ none
      → Dict.lookup k (points (mo.mount source target fs options w).1)
        ≡ (if k == target then some source else Dict.lookup k (points w))
  pub unmount_ok :
      (target : Text) (w : W) (k : Text)
      → (mo.unmount target w).0 ≡ none
      → Dict.lookup k (points (mo.unmount target w).1)
        ≡ (if k == target then none else Dict.lookup k (points w))
  pub checked :
      (target : Text) (w : W)
      → (mo.is_mount_point target w).0.1 ≡ none
      → (mo.is_mount_point target w).0.0 ≡ present (Dict.lookup target (points w))
  pub unchecked :
      (target : Text) (w : W)
      → present (mo.is_mount_point target w).0.1 ≡ true
      → (mo.is_mount_point target w).0.0 ≡ false
  pub absent :
      (target : Text) (w : W)
      → soft_error (mo.is_mount_point target w).0.1 ≡ true
      → Dict.lookup target (points w) ≡ none
  pub check_keeps : (target : Text) (w : W) → points (mo.is_mount_point target w).1 ≡ points w
  pub format_keeps : (source fs : Text) (w : W) → points (mo.format source fs w).1 ≡ points w

-- The calls to the host that the handlers make besides: none changes the mount table.
pub record KeepsMounts {W : Type 0} (os : Os W) (points : W → Dict Text Text) : Type 0 where
  pub stat_keeps : (path : Text) (w : W) → points (os.stat path w).1 ≡ points w
  pub mkdir_all_keeps :
      (path : Text) (mode : ℕ) (w : W) → points (os.mkdir_all path mode w).1 ≡ points w
  pub remove_all_keeps : (path : Text) (w : W) → points (os.remove_all path w).1 ≡ points w
  pub chmod_keeps : (path : Text) (mode : ℕ) (w : W) → points (os.chmod path mode w).1 ≡ points w

-- The fake mounter keeps what the interface `Mounter` promises, with its map as the mount table.
pub fake_mounter-IsMounter : IsMounter fake_mounter (λ (m : FakeMounter). m.mount_points)
unfolding fake_mount fake_unmount fake_is_mount_point fake_format
fake_mounter-IsMounter = record {
  mount_ok = λ source target fs options w k e. Dict.lookup-insert k target source w.mount_points;
  unmount_ok = λ target w k e. Dict.lookup-erase k target w.mount_points;
  checked = λ target w e. ground arith;
  unchecked = λ target w e. ground arith;
  absent = λ target w e. ground arith;
  check_keeps = λ target w. ground arith;
  format_keeps = λ source fs w. refl;
}
