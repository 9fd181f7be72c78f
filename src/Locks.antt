-- ===== src/Locks.antt =====
-- `VolumeLocks` of pkg/vcloud/utils.go. Its mutex makes each method one atomic step, so a method is
-- a function on the map.
pub mod Laws
pub mod Exclusion
use csi_driver_bs.Base.{
  Bool, true, false, Option, none, some, [], ◌≡◌, refl, ◌↔◌, ◌≢◌, arith, ◌==◌, if◌then◌else◌,
}
use csi_driver_bs.Text.{Text, text_eq}
use csi_driver_bs.Dict
use csi_driver_bs.Dict.{Dict}

pub record VolumeLocks : Type 0 where
  pub locks : Dict Text Bool

unfoldable pub new_volume_locks : VolumeLocks
new_volume_locks = record { locks = [] }

unfoldable pub try_acquire : Text → VolumeLocks → Bool × VolumeLocks
try_acquire volume_id vl = elim (Dict.lookup volume_id vl.locks) [
  | some _ ↦ (false, vl)
  | none ↦ (true, record { locks = Dict.insert volume_id true vl.locks })
]

unfoldable pub release : Text → VolumeLocks → VolumeLocks
release volume_id vl = record { locks = Dict.erase volume_id vl.locks }

-- Some operation holds the lock of this key.
abbrev pub Held : Text → VolumeLocks → Type 0
Held volume_id vl = Dict.lookup volume_id vl.locks ≢ none
