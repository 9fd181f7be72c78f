-- ===== src/Controller/Backend/Ensures.antt =====
-- What a reply of `CreateVolume` or of `DeleteVolume` says about the volumes of the backend.
use csi_driver_bs.Base.{
  ◌≡◌, ◌≢◌, refl, arith, Option, none, some, Result, ok, err, Result-cases, inl, inr, ◌⊎◌, false,
}
use csi_driver_bs.Base.Int.{ℤ}
use csi_driver_bs.Text.{Text, text_eq}
use csi_driver_bs.Dict
use csi_driver_bs.Dict.{Dict}
use csi_driver_bs.Client
use csi_driver_bs.Client.Types.{Volume}
use csi_driver_bs.Client.Request.{Client, Transport}
use csi_driver_bs.Driver.{Driver}
use csi_driver_bs.Grpc.{reply, State, Handler, return, status, ◌>>=◌}
use csi_driver_bs.Controller.Messages.{CsiVolume}
use csi_driver_bs.Controller.Volumes.{existing_volume, created_volume, provision}
use csi_driver_bs.Controller.Backend.{Store, Unused, Gains, is_found, Provisions}

-- The specification of `CreateVolume`: the volume of the reply has the name, and it was there before
-- and nothing has changed, or the name was not used and the volume is the only change.
pub data Ensured (name : Text) (r : CsiVolume) (before after : Store) : Type 0 where
  existing :
      Dict.lookup r.volume_id before ≡ some name → after ≡ before → Ensured name r before after
  created : Unused name before → Gains r.volume_id name before after → Ensured name r before after

module _ {W : Type 0} (t : Transport W) (d : Driver) where
  existing-reply :
      (name : Text) (size : ℤ) (v : Volume) (s : State W) (r : CsiVolume)
      → (existing_volume t d name size v s).0 ≡ reply r
      → v.id ≡ r.volume_id
  unfolding existing_volume return status
  existing-reply name size v s r e = ground arith

  existing-state :
      (name : Text) (size : ℤ) (v : Volume) (s : State W)
      → (existing_volume t d name size v s).1 ≡ s
  unfolding existing_volume return status
  existing-state name size v s = ground arith

  created-state :
      (name snapshot : Text) (a : Result Text Volume) (s : State W)
      → (created_volume t d name snapshot a s).1 ≡ s
  unfolding created_volume return status
  created-state name snapshot (err e) s = ground arith
  created-state name snapshot (ok v) s = refl

  created-reply :
      (name snapshot : Text) (v : Volume) (s : State W) (r : CsiVolume)
      → (created_volume t d name snapshot (ok v) s).0 ≡ reply r
      → v.id ≡ r.volume_id
  unfolding created_volume return
  created-reply name snapshot v s r e = ground arith

  created-ne-err :
      (name snapshot e : Text) (s : State W) (r : CsiVolume)
      → (created_volume t d name snapshot (err e) s).0 ≢ reply r
  unfolding created_volume status
  created-ne-err name snapshot e s r = ground arith

found_cases :
    (r : Result Text (Option Volume)) → ((v : Volume) × (r ≡ ok (some v))) ⊎ (is_found r ≡ false)
found_cases (ok (some v)) = inl (v, refl)
found_cases (ok none) = inr refl
found_cases (err e) = inr refl

module _ {W : Type 0} (t : Transport W) (d : Driver) (c : Client) where
  provision_found :
      (name : Text) (size : ℤ) (kind snapshot : Text) (s : State W) (v : Volume)
      → (Client.Volumes.get_volume_by_name t c name s.world).0 ≡ ok (some v)
      → provision t d c name size kind snapshot s
        ≡ existing_volume t d name size v
            (record s { world = (Client.Volumes.get_volume_by_name t c name s.world).1 })
  unfolding provision ◌>>=◌
  provision_found name size kind snapshot s v e = ground arith

  -- The call that creates, with the state in which the check has left the backend.
  abbrev create_after : Text → ℤ → Text → Text → State W → Result Text Volume × W
  create_after name size kind snapshot s =
      Client.Volumes.create_volume t c name size kind snapshot
        (Client.Volumes.get_volume_by_name t c name s.world).1

  provision_created :
      (name : Text) (size : ℤ) (kind snapshot : Text) (s : State W)
      → is_found (Client.Volumes.get_volume_by_name t c name s.world).0 ≡ false
      → provision t d c name size kind snapshot s
        ≡ created_volume t d name snapshot
            (create_after name size kind snapshot s).0
            (record s { world = (create_after name size kind snapshot s).1 })
  unfolding provision ◌>>=◌
  provision_created name size kind snapshot s e = ground arith

module _ {W : Type 0} (t : Transport W) (d : Driver) (c : Client) (store : W → Store)
    (b : Provisions t c store) where
  -- The volumes after a part of `CreateVolume`, if it replies.
  abbrev pub Ensures : Text → Handler W CsiVolume → Type 0
  Ensures name m =
      (s : State W) (r : CsiVolume)
      → (m s).0 ≡ reply r
      → Ensured name r (store s.world) (store (m s).1.world)

  found-Ensured :
      (name : Text) (size : ℤ) (v : Volume) (s : State W) (r : CsiVolume)
      → (Client.Volumes.get_volume_by_name t c name s.world).0 ≡ ok (some v)
      → (existing_volume t d name size v
          (record s { world = (Client.Volumes.get_volume_by_name t c name s.world).1 })).0
        ≡ reply r
      → Ensured name r (store s.world) (
          store
            (existing_volume t d name size v (record s {
              world = (Client.Volumes.get_volume_by_name t c name s.world).1;
            })).1.world)
  found-Ensured name size v s r e h =
      let s' : State W = record s {
        world = (Client.Volumes.get_volume_by_name t c name s.world).1;
      } in
      existing (rw (existing-reply t d name size v s' r h) at (b.named name v s.world e))
        (rw (existing-state t d name size v s') (b.naming_keeps name s.world))

  made-Ensured :
      (name : Text) (size : ℤ) (kind snapshot : Text) (s : State W) (r : CsiVolume)
      → is_found (Client.Volumes.get_volume_by_name t c name s.world).0 ≡ false
      → (created_volume t d name snapshot
          (create_after t d c name size kind snapshot s).0
          (record s { world = (create_after t d c name size kind snapshot s).1 })).0
        ≡ reply r
      → Ensured name r (store s.world) (
          store
            (created_volume t d name snapshot
              (create_after t d c name size kind snapshot s).0
              (record s { world = (create_after t d c name size kind snapshot s).1 })).1.world)
  made-Ensured name size kind snapshot s r missed h =
      let a = (create_after t d c name size kind snapshot s).0 in
      let s' : State W = record s { world = (create_after t d c name size kind snapshot s).1 } in
      elim (Result-cases a) [
        | inl (v, e) ↦
            let (unused, gains) = b.made name size kind snapshot v s.world missed e in
            let same : v.id ≡ r.volume_id = created-reply t d name snapshot v s' r (rw e at h) in
            created unused (rw (created-state t d name snapshot a s', ← same) gains)
        | inr (e, failed) ↦ absurd (created-ne-err t d name snapshot e s' r (rw failed at h))
      ]

  pub provision-Ensures :
      (name : Text) (size : ℤ) (kind snapshot : Text)
      → Ensures name (provision t d c name size kind snapshot)
  provision-Ensures name size kind snapshot s r =
      elim (found_cases (Client.Volumes.get_volume_by_name t c name s.world).0) [
        | inl (v, e) ↦
            rw (provision_found t d c name size kind snapshot s v e)
              (found-Ensured name size v s r e)
        | inr e ↦
            rw (provision_created t d c name size kind snapshot s e)
              (made-Ensured name size kind snapshot s r e)
      ]
