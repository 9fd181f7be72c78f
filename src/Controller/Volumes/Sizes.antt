-- ===== src/Controller/Volumes/Sizes.antt =====
-- The size that `CreateVolume` asks the backend for.
use csi_driver_bs.Base.{◌≡◌, ◌⊎◌, some, arith, if◌then◌else◌}
use csi_driver_bs.Base.Int.{ℤ, pos, ◌≤ℤ◌, ◌<ℤ◌, ltb_ℤ}
use csi_driver_bs.Text.{Text}
use csi_driver_bs.Grpc.{Code, out_of_range, reply, fail}
use csi_driver_bs.Controller.Messages.{CapacityRange}
use csi_driver_bs.Controller.Volumes.{
  min_volume_size, default_volume_size, max_volume_size, volume_size,
}

-- A size between the minimum and the maximum, at least what is required, and within the limit, if
-- there is one, unless it is the minimum.
pub record IsGranted (range : CapacityRange) (size : ℤ) : Type 0 where
  pub at_least_min : min_volume_size ≤ℤ size
  pub at_most_max : size ≤ℤ max_volume_size
  pub at_least_required : range.required_bytes ≤ℤ size
  pub within_limit :
      (range.limit_bytes ≤ℤ pos 0) ⊎ ((size ≤ℤ range.limit_bytes) ⊎ (size ≡ min_volume_size))

-- The size that `CreateVolume` settles on lies between the minimum and the maximum, is at least what
-- is required, and is within the limit, if there is one, unless it is the minimum.
pub volume_size-IsGranted :
    (range : CapacityRange) (size : ℤ)
    → volume_size (some range) ≡ reply size
    → IsGranted range size
unfolding volume_size
volume_size-IsGranted range size h = ground arith

abbrev pub asked : CapacityRange → ℤ
asked range =
    if ltb_ℤ (pos 0) range.required_bytes then range.required_bytes else default_volume_size

-- A size is refused with `OutOfRange` only, and only where the size asked for exceeds a given limit
-- or the maximum.
pub volume_size_refused :
    (range : CapacityRange) (code : Code) (message : Text)
    → volume_size (some range) ≡ fail code message
    → (code ≡ out_of_range)
      × (((pos 0 <ℤ range.limit_bytes) × (range.limit_bytes <ℤ asked range))
          ⊎ (max_volume_size <ℤ asked range))
unfolding volume_size
volume_size_refused range code message h = ground arith

-- A limit below the minimum is not kept: a request for at most that much is granted the minimum.
pub volume_size_over_limit :
    (range : CapacityRange)
    → pos 0 <ℤ range.required_bytes
    → range.required_bytes ≤ℤ range.limit_bytes
    → range.limit_bytes <ℤ min_volume_size
    → volume_size (some range) ≡ reply min_volume_size
unfolding volume_size
volume_size_over_limit range h k l = ground arith
