-- ===== src/Grpc.antt =====
-- What a gRPC handler does: it replies, fails with a status, or panics at a nil pointer. A handler
-- runs on the driver's locks and on the state `W` of all that is outside the driver.
pub mod Keeps
pub mod Quiet
use csi_driver_bs.Base.{Bool, true, false, Option, none, some, ◌++◌}
use csi_driver_bs.Text.{Text}
use csi_driver_bs.Os.{OsError}
use csi_driver_bs.Locks.{VolumeLocks, try_acquire, release}

-- The codes of google.golang.org/grpc/codes that the driver uses.
pub data Code : Type 0 where
  invalid_argument not_found already_exists failed_precondition : Code
  aborted out_of_range internal unavailable : Code

pub data Rpc {ℓ} (A : Type ℓ) : Type ℓ where
  reply : A → Rpc A
  fail : Code → Text → Rpc A
  panic : Rpc A

pub record State (W : Type 0) : Type 0 where
  pub volume_locks : VolumeLocks
  pub world : W

abbrev pub Handler : Type 0 → Type 0 → Type 0
Handler W A = State W → Rpc A × State W

module _ {W : Type 0} {A : Type 0} where
  unfoldable pub return : A → Handler W A
  return a s = (reply a, s)

  unfoldable pub status : Code → Text → Handler W A
  status code message s = (fail code message, s)

  unfoldable pub crash : Handler W A
  crash s = (panic, s)

  unfoldable pub lift : Rpc A → Handler W A
  lift r s = (r, s)

  -- A call out of the driver.
  unfoldable pub call : (W → A × W) → Handler W A
  call f s = let (a, w) = f s.world in (reply a, record s { world = w })

  -- `if !cond { return status.Error(…) }`
  abbrev pub unless : Bool → Code → Text → Handler W A → Handler W A
  unless true code message body = status code message
  unless false code message body = body

  abbrev pub unlock : Text → Rpc A × State W → Rpc A × State W
  unlock key (r, s) = (r, record s { volume_locks = release key s.volume_locks })

  abbrev pub enter : Bool × VolumeLocks → Text → Text → Handler W A → Handler W A
  enter (true, vl) key message body s = unlock key (body (record s { volume_locks = vl }))
  enter (false, vl) key message body s = (fail aborted message, record s { volume_locks = vl })

  -- `TryAcquire`, and a deferred `Release`, which also runs when the body fails or panics.
  unfoldable pub locked : Text → Text → Handler W A → Handler W A
  locked key message body s = enter (try_acquire key s.volume_locks) key message body s

module _ {W : Type 0} {A B : Type 0} where
  abbrev pub continue : Rpc A → (A → Handler W B) → Handler W B
  continue (reply a) f s = f a s
  continue (fail code message) f s = (fail code message, s)
  continue panic f s = (panic, s)

  infixl 5 ◌>>=◌
  unfoldable pub ◌>>=◌ : Handler W A → (A → Handler W B) → Handler W B
  unfolding return status crash lift call
  ◌>>=◌ m f s = let (r, s') = m s in continue r f s'

-- The call without what its reply holds.
abbrev pub forget {ℓ} : {A : Type ℓ} → Rpc A → Rpc (Unit {0})
forget (reply a) = reply tt
forget (fail code message) = fail code message
forget panic = panic

abbrev pub outcome : {W A : Type 0} → Handler W A → Handler W (Unit {0})
outcome m s = let (r, s') = m s in (forget r, s')

module _ {W : Type 0} {A : Type 0} where
  -- `if err != nil { return status.Errorf(codes.Internal, "…: %v", err) }`
  abbrev pub or_internal : Option OsError → Text → Handler W A → Handler W A
  or_internal none message body = body
  or_internal (some e) message body = status internal (message ++ e.message)
