-- ===== src/Mounter/Fake.antt =====
-- `FakeMounter` of pkg/vcloud/mounter.go: a mounter on a map of mount points.
use csi_driver_bs.Base.{Bool, true, false, not, Option, none, some, List, [], ◌∷◌, ◌++◌, ok}
use csi_driver_bs.Text.{Text, text_eq, str}
use csi_driver_bs.Dict
use csi_driver_bs.Dict.{Dict}
use csi_driver_bs.Os.{OsError}
use csi_driver_bs.Mounter.{Mounter}

pub record FakeMounter : Type 0 where
  pub mount_points : Dict Text Text
  pub format_calls : List Text

unfoldable pub new_fake_mounter : FakeMounter
new_fake_mounter = record { mount_points = []; format_calls = [] }

unfoldable pub fake_format : Text → Text → FakeMounter → Option OsError × FakeMounter
fake_format source fs_type m =
    (none, record m { format_calls = m.format_calls ++ ((source ++ (str ":" ++ fs_type)) ∷ []) })

unfoldable pub fake_mount :
    Text → Text → Text → List Text → FakeMounter → Option OsError × FakeMounter
fake_mount source target fs_type options m =
    (none, record m { mount_points = Dict.insert target source m.mount_points })

unfoldable pub fake_unmount : Text → FakeMounter → Option OsError × FakeMounter
fake_unmount target m = (none, record m { mount_points = Dict.erase target m.mount_points })

unfoldable pub fake_is_mount_point : Text → FakeMounter → (Bool × Option OsError) × FakeMounter
fake_is_mount_point target m = elim (Dict.lookup target m.mount_points) [
  | none ↦ ((false, none), m)
  | some _ ↦ ((true, none), m)
]

unfoldable pub fake_is_likely_not_mount_point :
    Text → FakeMounter → (Bool × Option OsError) × FakeMounter
fake_is_likely_not_mount_point target m =
    let ((mounted, e), m') = fake_is_mount_point target m in ((not mounted, e), m')

abbrev pub fake_mounter : Mounter FakeMounter
fake_mounter = record {
  format = fake_format;
  mount = fake_mount;
  unmount = fake_unmount;
  is_mount_point = fake_is_mount_point;
  is_likely_not_mount_point = fake_is_likely_not_mount_point;
  is_block_device = λ path m. ((true, none), m);
  get_device_fs_type = λ device m. (ok (str "ext4"), m);
  mount_with_retry = fake_mount;
}
