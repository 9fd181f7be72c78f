-- ===== src/Mounter.antt =====
-- The interface `Mounter` of pkg/vcloud/mounter.go, over the state `W` of the node.
pub mod Host
pub mod Fake
pub mod Laws
pub mod Retries
use csi_driver_bs.Base.{Bool, Option, List, Result}
use csi_driver_bs.Text.{Text, str}
use csi_driver_bs.Os.{OsError}

pub record Mounter (W : Type 0) : Type 0 where
  pub format : Text → Text → W → Option OsError × W
  pub mount : Text → Text → Text → List Text → W → Option OsError × W
  pub unmount : Text → W → Option OsError × W
  pub is_mount_point : Text → W → (Bool × Option OsError) × W
  pub is_likely_not_mount_point : Text → W → (Bool × Option OsError) × W
  pub is_block_device : Text → W → (Bool × Option OsError) × W
  pub get_device_fs_type : Text → W → Result OsError Text × W
  pub mount_with_retry : Text → Text → Text → List Text → W → Option OsError × W

abbrev pub default_fs_type : Text
default_fs_type = str "ext4"
