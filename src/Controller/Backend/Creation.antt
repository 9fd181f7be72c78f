-- ===== src/Controller/Backend/Creation.antt =====
-- `CreateVolume` and `DeleteVolume` against their specification.
use csi_driver_bs.Base.{◌≡◌, refl, arith, Option, none, some, Bool, true, false}
use csi_driver_bs.Base.Int.{ℤ}
use csi_driver_bs.Text.{Text, text_eq, is_empty, str}
use csi_driver_bs.Client.Request.{Client, Transport}
use csi_driver_bs.Driver.{Driver}
use csi_driver_bs.Grpc.{
  Code, invalid_argument, unless, Rpc, reply, fail, panic, State, Handler, return, status, lift,
  locked, continue, ◌>>=◌,
}
use csi_driver_bs.Grpc.Keeps.{locked-post}
use csi_driver_bs.Controller.Messages.{
  CsiVolume, CreateVolumeRequest, VolumeContentSource, from_snapshot, other_source,
}
use csi_driver_bs.Controller.Volumes.{
  check_capabilities, no_capabilities, volume_size, volume_type_of, volume_busy, source_snapshot,
  provision_with, create_volume_locked, create_volume,
}
use csi_driver_bs.Controller.Backend.{Store, IsBackend, Provisions, backend-Provisions}
use csi_driver_bs.Controller.Backend.Ensures.{Ensured, Ensures, provision-Ensures}

module _ {W : Type 0} (t : Transport W) (d : Driver) (c : Client) (store : W → Store)
    (b : Provisions t c store) where
  -- Whatever the outcome, the volumes are as they were.
  abbrev KeepsStore : {A : Type 0} → Handler W A → Type 0
  KeepsStore m = (s : State W) → store (m s).1.world ≡ store s.world

  continue-Ensures :
      {A : Type 0} (name : Text) (x : Rpc A) (f : A → Handler W CsiVolume) (s s' : State W)
      (r : CsiVolume)
      → store s'.world ≡ store s.world
      → ((a : A) → Ensures t d c store b name (f a))
      → (continue x f s').0 ≡ reply r
      → Ensured name r (store s.world) (store (continue x f s').1.world)
  continue-Ensures name (reply a) f s s' r same h e = rw (← same) (h a s' r e)
  continue-Ensures name (fail code message) f s s' r same h e = absurd (ground arith)
  continue-Ensures name panic f s s' r same h e = absurd (ground arith)

  bind-Ensures :
      {A : Type 0} (name : Text) (m : Handler W A) (f : A → Handler W CsiVolume)
      → KeepsStore m
      → ((a : A) → Ensures t d c store b name (f a))
      → Ensures t d c store b name (m >>= f)
  unfolding ◌>>=◌
  bind-Ensures name m f keeps h s r e = continue-Ensures name (m s).0 f s (m s).1 r (keeps s) h e

  lift-KeepsStore : {A : Type 0} (x : Rpc A) → KeepsStore (lift x)
  unfolding lift
  lift-KeepsStore x s = refl

  source_snapshot-KeepsStore :
      (source : Option VolumeContentSource)
      → d.vcloud_client ≡ some c
      → KeepsStore (source_snapshot t d source)
  unfolding source_snapshot return status ◌>>=◌
  source_snapshot-KeepsStore none client s = refl
  source_snapshot-KeepsStore (some other_source) client s = refl
  source_snapshot-KeepsStore (some (from_snapshot id)) client s =
      ground (arith, b.snapshot_keeps id s.world)

  provision_with-Ensures :
      (client : Option Client) (name : Text) (size : ℤ) (kind snapshot : Text)
      → client ≡ some c
      → Ensures t d c store b name (provision_with t d client name size kind snapshot)
  unfolding provision_with
  provision_with-Ensures none name size kind snapshot e = cc
  provision_with-Ensures (some c') name size kind snapshot e =
      let same : c' ≡ c = cc in rw same (provision-Ensures t d c store b name size kind snapshot)

  create_locked-Ensures :
      (req : CreateVolumeRequest)
      → d.vcloud_client ≡ some c
      → Ensures t d c store b req.name (create_volume_locked t d req)
  unfolding create_volume_locked
  create_locked-Ensures req client =
      bind-Ensures req.name (lift (check_capabilities req.volume_capabilities)) _
        (lift-KeepsStore (check_capabilities req.volume_capabilities))
        (λ _.
          bind-Ensures req.name (lift (volume_size req.capacity_range)) _
            (lift-KeepsStore (volume_size req.capacity_range))
            (λ size.
              bind-Ensures req.name (source_snapshot t d req.volume_content_source) _
                (source_snapshot-KeepsStore req.volume_content_source client)
                (λ snapshot_id.
                  provision_with-Ensures d.vcloud_client req.name size
                    (volume_type_of req.parameters) snapshot_id client)))

  unless-Ensures :
      (name : Text) (refused : Bool) (code : Code) (message : Text) (m : Handler W CsiVolume)
      → Ensures t d c store b name m
      → Ensures t d c store b name (unless refused code message m)
  unfolding status
  unless-Ensures name true code message m h s r e = absurd (ground arith)
  unless-Ensures name false code message m h s r e = h s r e

  locked-Ensures :
      (name key message : Text) (m : Handler W CsiVolume)
      → Ensures t d c store b name m
      → Ensures t d c store b name (locked key message m)
  locked-Ensures name key message m h s r e =
      locked-post (λ w w'. Ensured name r (store w) (store w')) key message m r (λ s. h s r) s e

  pub create_volume-Provisions :
      (req : CreateVolumeRequest) (s : State W) (r : CsiVolume)
      → d.vcloud_client ≡ some c
      → (create_volume t d req s).0 ≡ reply r
      → Ensured req.name r (store s.world) (store (create_volume t d req s).1.world)
  unfolding create_volume
  create_volume-Provisions req s r client e =
      unless-Ensures req.name (is_empty req.name) invalid_argument
        (str "CreateVolume name must be provided") _
        (unless-Ensures req.name (no_capabilities req.volume_capabilities) invalid_argument
          (str "CreateVolume volume capabilities must be provided") _
          (locked-Ensures req.name req.name (volume_busy req.name) (create_volume_locked t d req)
            (create_locked-Ensures req client)))
        s r e

module _ {W : Type 0} (t : Transport W) (d : Driver) (c : Client) (store : W → Store)
    (b : IsBackend t c store) where
  -- `CreateVolume` implements its specification on every backend that reports a volume under its own
  -- name and creates one only under a name that is not used: whatever the answers on the way are, a
  -- reply names a volume of the requested name that the backend has afterwards, and nothing else has
  -- changed there. The driver has a client.
  pub create_volume-Ensures :
      (req : CreateVolumeRequest) (s : State W) (r : CsiVolume)
      → d.vcloud_client ≡ some c
      → (create_volume t d req s).0 ≡ reply r
      → Ensured req.name r (store s.world) (store (create_volume t d req s).1.world)
  create_volume-Ensures = create_volume-Provisions t d c store (backend-Provisions t c store b)
