-- ===== src/Mounter/Retries.antt =====
-- The number of attempts of `MountWithRetry`.
use csi_driver_bs.Base.{
  ℕ, zero, suc, ◌+◌, ◌*◌, Option-cases, inl, inr, ◌≤◌, ◌<◌, ◌≡◌, ◌⊎◌, arith, Option, none, some,
  List,
}
use csi_driver_bs.Text.{Text}
use csi_driver_bs.Os.{OsError, Os}
use csi_driver_bs.Driver.{or_text}
use csi_driver_bs.Mounter.{default_fs_type}
use csi_driver_bs.Mounter.Host.{
  MountUtils, mount, already_mounted, pause, mount_attempts, mount_with_retry, mount_retry_delay,
}

-- A count of the mounts that have been tried in a state.
pub record CountsMounts {W : Type 0} (os : Os W) (u : MountUtils W) (count : W → ℕ) : Type 0 where
  pub mounting :
      (source target fs : Text) (options : List Text) (w : W)
      → count (u.mount source target fs options w).1 ≡ suc (count w)
  pub checking : (target : Text) (w : W) → count (u.is_mount_point target w).1 ≡ count w
  pub sleeping : (n : ℕ) (w : W) → count (os.sleep n w) ≡ count w

module _ {W : Type 0} (os : Os W) (u : MountUtils W) (count : W → ℕ)
    (c : CountsMounts os u count) where
  already_mounted-count :
      (target : Text) (e : OsError) (w : W) → count (already_mounted os u target e w).1 ≡ count w
  unfolding already_mounted
  already_mounted-count target e w = ground (arith, c.checking target w)

  pause-count : (attempt : ℕ) (e : OsError) (w : W) → count (pause os u attempt e w) ≡ count w
  unfolding pause
  pause-count attempt e w =
      ground (arith, c.sleeping mount_retry_delay w, c.sleeping (mount_retry_delay * attempt) w)

  mount-count :
      (source target fs : Text) (options : List Text) (w : W)
      → count (mount os u source target fs options w).1 ≡ suc (count w)
  unfolding mount
  mount-count source target fs options w =
      c.mounting source target (or_text fs default_fs_type) options w

  mount_attempts-count :
      (source target fs : Text) (options : List Text) (attempt left : ℕ) (last : Option OsError)
      (w : W)
      → (((mount_attempts os u source target fs options attempt left last w).0 ≡ none)
          × ((count w < count (mount_attempts os u source target fs options attempt left last w).1)
              × (count (mount_attempts os u source target fs options attempt left last w).1
                  ≤ count w + left)))
        ⊎ (count (mount_attempts os u source target fs options attempt left last w).1
            ≡ count w + left)
  unfolding mount_attempts
  mount_attempts-count source target fs options attempt zero last w = ground arith
  mount_attempts-count source target fs options attempt (suc left) last w =
      let w' = (mount os u source target fs options w).1 in
      elim (Option-cases (mount os u source target fs options w).0) [
        | inl none_e ↦ ground (arith, mount-count source target fs options w)
        | inr (e, some_e) ↦
            let w'' = (already_mounted os u target e w').1 in
            ground (
              arith,
              mount-count source target fs options w,
              already_mounted-count target e w',
              pause-count attempt e w'',
              mount_attempts-count source target fs options (suc attempt) left (some e)
                  (pause os u attempt e w''),
            )
      ]

  -- `MountWithRetry` tries to mount at least once and at most five times, and gives up with an error
  -- only after five attempts. The mount calls are counted by any count that a mount raises by one and
  -- that checks and pauses leave alone.
  pub mount_with_retry-count :
      (source target fs : Text) (options : List Text) (w : W)
      → (((mount_with_retry os u source target fs options w).0 ≡ none)
          × ((count w < count (mount_with_retry os u source target fs options w).1)
              × (count (mount_with_retry os u source target fs options w).1 ≤ count w + 5)))
        ⊎ (count (mount_with_retry os u source target fs options w).1 ≡ count w + 5)
  unfolding mount_with_retry
  mount_with_retry-count source target fs options w =
      mount_attempts-count source target fs options 1 5 none w
