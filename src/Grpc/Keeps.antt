-- ===== src/Grpc/Keeps.antt =====
-- What the lock around a handler's body does to the lock map.
use csi_driver_bs.Base.{◌≡◌, refl, ◌∙◌, none, Option-cases, inl, inr, arith}
use csi_driver_bs.Text.{Text, text_eq}
use csi_driver_bs.Dict
use csi_driver_bs.Locks.{try_acquire, Held}
use csi_driver_bs.Locks.Laws.{try_acquire_free, with_lock, release-with_lock, try_acquire_busy}
use csi_driver_bs.Grpc.{
  aborted, enter, Rpc, reply, fail, panic, State, Handler, lift, call, locked, continue, ◌>>=◌,
}

module _ {W A : Type 0} where
  -- Whatever the outcome, the lock map is as it was.
  abbrev pub KeepsLocks : Handler W A → Type 0
  KeepsLocks m = (s : State W) → (m s).1.volume_locks ≡ s.volume_locks

  pub locked-KeepsLocks :
      (key message : Text) (body : Handler W A)
      → KeepsLocks body
      → KeepsLocks (locked key message body)
  unfolding locked
  locked-KeepsLocks key message body keeps s =
      elim (Option-cases (Dict.lookup key s.volume_locks.locks)) [
        | inl free ↦ rw (try_acquire_free key s.volume_locks free) (
            rw (keeps (record s { volume_locks = with_lock key s.volume_locks }))
              (release-with_lock key s.volume_locks free))
        | inr (v, busy) ↦ rw (try_acquire_busy key s.volume_locks (ground arith))
      ]

  -- While the key is held, the call is refused and nothing is done.
  pub locked_busy :
      (key message : Text) (body : Handler W A) (s : State W)
      → Held key s.volume_locks
      → locked key message body s ≡ (fail aborted message, s)
  unfolding locked
  locked_busy key message body s h = rw (try_acquire_busy key s.volume_locks h)

module _ {W A B : Type 0} where
  continue-KeepsLocks :
      (r : Rpc A) (f : A → Handler W B) → ((a : A) → KeepsLocks (f a)) → KeepsLocks (continue r f)
  continue-KeepsLocks (reply a) f k s = k a s
  continue-KeepsLocks (fail code message) f k s = refl
  continue-KeepsLocks panic f k s = refl

  pub bind-KeepsLocks :
      (m : Handler W A) (f : A → Handler W B)
      → KeepsLocks m
      → ((a : A) → KeepsLocks (f a))
      → KeepsLocks (m >>= f)
  unfolding ◌>>=◌
  bind-KeepsLocks m f keeps k s = continue-KeepsLocks (m s).0 f k (m s).1 ∙ keeps s

  pub bind_lift-KeepsLocks :
      (r : Rpc A) (f : A → Handler W B) → ((a : A) → KeepsLocks (f a)) → KeepsLocks (lift r >>= f)
  unfolding ◌>>=◌
  bind_lift-KeepsLocks r f k s = continue-KeepsLocks r f k s

  pub bind_call-KeepsLocks :
      (g : W → A × W) (f : A → Handler W B)
      → ((a : A) → KeepsLocks (f a))
      → KeepsLocks (call g >>= f)
  unfolding ◌>>=◌
  bind_call-KeepsLocks g f k s = k (g s.world).0 _

module _ {W A : Type 0} where
  -- A call of a free key runs its body, and gives the lock map back.
  pub locked_free :
      (key message : Text) (body : Handler W A) (s : State W) (r : Rpc A) (w : W)
      → Dict.lookup key s.volume_locks.locks ≡ none
      → body (record s { volume_locks = with_lock key s.volume_locks })
        ≡ (r, record { volume_locks = with_lock key s.volume_locks; world = w })
      → locked key message body s ≡ (r, record s { world = w })
  unfolding locked
  locked_free key message body s r w free run =
      rw (try_acquire_free key s.volume_locks free)
        (rw run (rw (release-with_lock key s.volume_locks free)))

  -- A reply of a locked call is one of its body, which ran in the state with the lock.
  pub locked-reply :
      (key message : Text) (body : Handler W A) (s : State W) (a : A)
      → (locked key message body s).0 ≡ reply a
      → (body (record s { volume_locks = with_lock key s.volume_locks })).0 ≡ reply a
  unfolding locked
  locked-reply key message body s a e = elim (Option-cases (Dict.lookup key s.volume_locks.locks)) [
    | inl free ↦ rw (try_acquire_free key s.volume_locks free) at e
    | inr (v, busy) ↦
        let refused : enter (try_acquire key s.volume_locks) key message body s
            ≡ (fail aborted message, s) =
          rw (try_acquire_busy key s.volume_locks (ground arith)) in
        cc
  ]

  -- What a reply of the body entails for the state outside, a reply of the locked call entails too.
  pub locked-post :
      (P : W → W → Type 0) (key message : Text) (body : Handler W A) (a : A)
      → ((s : State W) → (body s).0 ≡ reply a → P s.world (body s).1.world)
      → (s : State W) → (locked key message body s).0 ≡ reply a
      → P s.world (locked key message body s).1.world
  unfolding locked
  locked-post P key message body a post s =
      elim (Option-cases (Dict.lookup key s.volume_locks.locks)) [
        | inl free ↦
            rw (try_acquire_free key s.volume_locks free)
              (post (record s { volume_locks = with_lock key s.volume_locks }))
        | inr (v, busy) ↦
            rw (try_acquire_busy key s.volume_locks (ground arith)) (λ e. ground arith)
      ]
