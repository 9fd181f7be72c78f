-- ===== src/Locks/Exclusion.antt =====
-- The handlers of concurrent requests, as interleavings of their locked parts. A handler of
-- pkg/vcloud/controllerserver.go or pkg/vcloud/nodeserver.go that takes a lock tries its key, gives
-- up with `Aborted` if that fails, and otherwise runs until its deferred `Release`.
use csi_driver_bs.Base.{
  ℕ, ◌+◌, ◌≤◌, true, false, none, some, List, [], ◌∷◌, ◌++◌, ◌≡◌, refl, ◌↔◌, ap, arith, ◌==◌,
  if◌then◌else◌,
}
use csi_driver_bs.Text.{Text, text_eq}
use csi_driver_bs.Dict
use csi_driver_bs.Locks.{VolumeLocks, new_volume_locks, try_acquire, release}

-- `active` holds the key of each operation that is between its `TryAcquire` and its `Release`.
pub record Running : Type 0 where
  pub volume_locks : VolumeLocks
  pub active : List Text

pub data Step : Running → Running → Type 0 where
  enter :
      {r : Running} {vl : VolumeLocks} (k : Text)
      → try_acquire k r.volume_locks ≡ (true, vl)
      → Step r (record { volume_locks = vl; active = k ∷ r.active })
  refuse :
      {r : Running} {vl : VolumeLocks} (k : Text)
      → try_acquire k r.volume_locks ≡ (false, vl)
      → Step r (record { volume_locks = vl; active = r.active })
  leave :
      {r : Running} (k : Text) (before after : List Text)
      → r.active ≡ before ++ (k ∷ after)
      → Step r (record { volume_locks = release k r.volume_locks; active = before ++ after })

pub data Reach (r : Running) : Running → Type 0 where
  here : Reach r r
  next : {s t : Running} → Reach r s → Step s t → Reach r t

abbrev pub start : Running
start = record { volume_locks = new_volume_locks; active = [] }

abbrev pub count : Text → List Text → ℕ
count k [] = 0
count k (j ∷ js) = (if k == j then 1 else 0) + count k js

-- The number of operations that hold the key, as the map has it.
abbrev pub held_count : Text → VolumeLocks → ℕ
held_count k vl = elim (Dict.lookup k vl.locks) [ none ↦ 0 | some _ ↦ 1 ]

count-append : (k : Text) (xs ys : List Text) → count k (xs ++ ys) ≡ count k xs + count k ys
count-append k [] ys = omega arith
count-append k (x ∷ xs) ys = omega (arith, count-append k xs ys)

-- The map holds exactly the keys of the active operations, each active once.
abbrev IsExact : Running → Type 0
IsExact r = (k : Text) → count k r.active ≡ held_count k r.volume_locks

Step-IsExact : {r s : Running} → Step r s → IsExact r → IsExact s
unfolding try_acquire release
Step-IsExact (enter {r} k e) h j =
    ground (arith, h j, h k, Dict.lookup-insert j k true r.volume_locks.locks)
Step-IsExact (refuse {r} k e) h j = ground (arith, h j)
Step-IsExact (leave {r} k before after e) h j = ground (
  arith,
  h j,
  ap (count j) e,
  count-append j before (k ∷ after),
  count-append j before after,
  Dict.lookup-erase j k r.volume_locks.locks,
)

Reach-IsExact : {r s : Running} → Reach r s → IsExact r → IsExact s
Reach-IsExact here h = h
Reach-IsExact (next r st) h = Step-IsExact st (Reach-IsExact r h)

start-IsExact : IsExact start
unfolding new_volume_locks Dict.lookup
start-IsExact k = refl

-- However requests interleave, at most one operation of a key is in its locked part, and a
-- request for a key is let in exactly when no operation of that key is running.
pub exclusion :
    {r : Running} (k : Text)
    → Reach start r
    → (count k r.active ≤ 1) × (((try_acquire k r.volume_locks).0 ≡ true) ↔ (count k r.active ≡ 0))
unfolding try_acquire
exclusion {r} k h = ground (arith, Reach-IsExact h start-IsExact k)
