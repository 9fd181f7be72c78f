-- ===== src/Grpc/Quiet.antt =====
-- Refusals that come before any request to the outside.
use csi_driver_bs.Base.{◌≡◌, ◌≢◌, refl, Bool, true, false, Option-cases, inl, inr, arith}
use csi_driver_bs.Text.{Text, text_eq}
use csi_driver_bs.Dict
use csi_driver_bs.Locks.Laws.{try_acquire_free, with_lock, try_acquire_busy}
use csi_driver_bs.Grpc.{
  Code, invalid_argument, aborted, out_of_range, Rpc, reply, fail, panic, State, Handler, call,
  lift, locked, continue, ◌>>=◌,
}

-- The codes for a request that is malformed, out of range or comes too early.
abbrev pub is_refusal : Code → Bool
is_refusal invalid_argument = true
is_refusal aborted = true
is_refusal out_of_range = true
is_refusal _ = false

module _ {W A : Type 0} where
  -- Failing with such a code, the handler has asked the outside nothing.
  abbrev pub Quiet : Handler W A → Type 0
  Quiet m =
      (s : State W) (code : Code) (message : Text)
      → (m s).0 ≡ fail code message
      → is_refusal code ≡ true
      → (m s).1.world ≡ s.world

  -- The handler fails with no such code.
  abbrev pub NoRefusal : Handler W A → Type 0
  NoRefusal m =
      (s : State W) (code : Code) (message : Text)
      → (m s).0 ≡ fail code message
      → is_refusal code ≡ false

  pub NoRefusal-Quiet : (m : Handler W A) → NoRefusal m → Quiet m
  NoRefusal-Quiet m h s code message e refusal = ground (arith, h s code message e)

  pub locked-Quiet :
      (key message : Text) (body : Handler W A) → Quiet body → Quiet (locked key message body)
  unfolding locked
  locked-Quiet key message body quiet s code text e refusal =
      elim (Option-cases (Dict.lookup key s.volume_locks.locks)) [
        | inl free ↦ rw (try_acquire_free key s.volume_locks free) (
            quiet (record s { volume_locks = with_lock key s.volume_locks }) code text
              (rw (try_acquire_free key s.volume_locks free) at e) refusal)
        | inr (v, busy) ↦ rw (try_acquire_busy key s.volume_locks (ground arith))
      ]

module _ {W A B : Type 0} where
  pub bind_lift-Quiet :
      (r : Rpc A) (f : A → Handler W B) → ((a : A) → Quiet (f a)) → Quiet (lift r >>= f)
  unfolding ◌>>=◌
  bind_lift-Quiet (reply a) f h s c text e refusal = h a s c text e refusal
  bind_lift-Quiet (fail code message) f h s c text e refusal = refl
  bind_lift-Quiet panic f h s c text e refusal = refl

  continue-NoRefusal :
      (r : Rpc A) (f : A → Handler W B) (s : State W)
      → ((code : Code) (message : Text) → r ≡ fail code message → is_refusal code ≡ false)
      → ((a : A) → NoRefusal (f a))
      → (code : Code) (message : Text) → (continue r f s).0 ≡ fail code message
      → is_refusal code ≡ false
  continue-NoRefusal (reply a) f s hr hf code message e = hf a s code message e
  continue-NoRefusal (fail c text) f s hr hf code message e = hr code message (cc)
  continue-NoRefusal panic f s hr hf code message e = cc

  pub bind_lift-NoRefusal :
      (r : Rpc A) (f : A → Handler W B)
      → ((code : Code) (message : Text) → r ≢ fail code message)
      → ((a : A) → NoRefusal (f a))
      → NoRefusal (lift r >>= f)
  unfolding ◌>>=◌
  bind_lift-NoRefusal r f hr hf s =
      continue-NoRefusal r f s (λ code message e. absurd (hr code message e)) hf

  pub bind_call-NoRefusal :
      (g : W → A × W) (f : A → Handler W B) → ((a : A) → NoRefusal (f a)) → NoRefusal (call g >>= f)
  unfolding ◌>>=◌
  bind_call-NoRefusal g f h s = h (g s.world).0 (record s { world = (g s.world).1 })

  pub bind-NoRefusal :
      (m : Handler W A) (f : A → Handler W B)
      → NoRefusal m
      → ((a : A) → NoRefusal (f a))
      → NoRefusal (m >>= f)
  unfolding ◌>>=◌
  bind-NoRefusal m f hm hf s = continue-NoRefusal (m s).0 f (m s).1 (hm s) hf
