-- ===== src/Locks/Laws.antt =====
-- What the two methods of `VolumeLocks` do to every key.
use csi_driver_bs.Base.{true, false, none, ◌≡◌, ◌≢◌, ◌↔◌, arith}
use csi_driver_bs.Text.{Text, text_eq}
use csi_driver_bs.Dict
use csi_driver_bs.Locks.{VolumeLocks, try_acquire, release, Held}

-- `TryAcquire` succeeds exactly when the key is not held.
pub try_acquire_iff : (k : Text) (vl : VolumeLocks) → ((try_acquire k vl).0 ≡ true) ↔ (¬ Held k vl)
unfolding try_acquire
try_acquire_iff k vl = ground arith

-- A refused attempt changes nothing.
pub try_acquire_busy : (k : Text) (vl : VolumeLocks) → Held k vl → try_acquire k vl ≡ (false, vl)
unfolding try_acquire
try_acquire_busy k vl h = ground arith

-- After either answer the key is held.
pub try_acquire-Held : (k : Text) (vl : VolumeLocks) → Held k (try_acquire k vl).1
unfolding try_acquire
try_acquire-Held k vl = ground (arith, Dict.lookup-insert k k true vl.locks)

pub try_acquire_other :
    (j k : Text) (vl : VolumeLocks)
    → j ≢ k
    → Dict.lookup j (try_acquire k vl).1.locks ≡ Dict.lookup j vl.locks
unfolding try_acquire
try_acquire_other j k vl ne = ground (arith, Dict.lookup-insert j k true vl.locks)

pub release-Held_iff :
    (j k : Text) (vl : VolumeLocks) → Held j (release k vl) ↔ ((j ≢ k) × Held j vl)
unfolding release
release-Held_iff j k vl = ground (arith, Dict.lookup-erase j k vl.locks)

abbrev pub with_lock : Text → VolumeLocks → VolumeLocks
with_lock k vl = record { locks = Dict.insert k true vl.locks }

pub try_acquire_free :
    (k : Text) (vl : VolumeLocks)
    → Dict.lookup k vl.locks ≡ none
    → try_acquire k vl ≡ (true, with_lock k vl)
unfolding try_acquire
try_acquire_free k vl h = rw (h, try_acquire)

-- Releasing a key that was just acquired gives back the map as it was.
pub release-with_lock :
    (k : Text) (vl : VolumeLocks) → Dict.lookup k vl.locks ≡ none → release k (with_lock k vl) ≡ vl
unfolding release
release-with_lock k vl h = ground (arith, Dict.erase-insert k true vl.locks)
