-- ===== src/Controller/Backend/Once.antt =====
-- Repeated calls of `CreateVolume` for one name.
use csi_driver_bs.Base.{◌≡◌, arith, some}
use csi_driver_bs.Text.{Text, text_eq}
use csi_driver_bs.Dict
use csi_driver_bs.Dict.{Dict}
use csi_driver_bs.Client.Request.{Client, Transport}
use csi_driver_bs.Driver.{Driver}
use csi_driver_bs.Grpc.{reply, State}
use csi_driver_bs.Controller.Messages.{CsiVolume, CreateVolumeRequest}
use csi_driver_bs.Controller.Volumes.{create_volume}
use csi_driver_bs.Controller.Backend.{Store, Unused, Gains, IsFinder, finder-Provisions}
use csi_driver_bs.Controller.Backend.Ensures.{Ensured, existing, created}
use csi_driver_bs.Controller.Backend.Creation.{create_volume-Provisions}

-- No two volumes have one name.
abbrev pub UniqueNames : Store → Type 0
UniqueNames store =
    (i j name : Text) → Dict.lookup i store ≡ some name → Dict.lookup j store ≡ some name → i ≡ j

Gains-UniqueNames :
    (id name : Text) (before after : Store)
    → Unused name before
    → Gains id name before after
    → UniqueNames before
    → UniqueNames after
Gains-UniqueNames id name before after unused gains unique i j x hi hj =
    ground (arith, gains i, gains j, unused i, unused j, unique i j x)

-- The invariant of names is kept.
pub Ensured-UniqueNames :
    {name : Text} {r : CsiVolume} {before after : Store}
    → Ensured name r before after
    → UniqueNames before
    → UniqueNames after
Ensured-UniqueNames (existing there kept) unique = rw kept unique
Ensured-UniqueNames {name} {r} {before} {after} (created unused gains) unique =
    Gains-UniqueNames r.volume_id name before after unused gains unique

-- The volume of the reply is there afterwards.
Ensured-there :
    {name : Text} {r : CsiVolume} {before after : Store}
    → Ensured name r before after
    → Dict.lookup r.volume_id after ≡ some name
Ensured-there (existing there kept) = rw kept there
Ensured-there {r} (created unused gains) = ground (arith, gains r.volume_id)

-- A second reply for a name in the state that the first has left.
Ensured-again :
    {name : Text} {r r' : CsiVolume} {before middle after : Store}
    → Ensured name r before middle
    → UniqueNames before
    → Ensured name r' middle after
    → (r'.volume_id ≡ r.volume_id) × (after ≡ middle)
Ensured-again {name} {r} {r'} first unique (existing there kept) = (
  Ensured-UniqueNames first unique r'.volume_id r.volume_id name there (Ensured-there first),
  kept,
)
Ensured-again {r} first unique (created unused gains) =
    absurd (unused r.volume_id (Ensured-there first))

rename :
    {name name' : Text} {r : CsiVolume} {before after : Store}
    → name' ≡ name
    → Ensured name' r before after
    → Ensured name r before after
rename e h = rw (← e) h

module _ {W : Type 0} (t : Transport W) (d : Driver) (c : Client) (store : W → Store)
    (b : IsFinder t c store) where
  -- However often `CreateVolume` replies for a name, there is one volume, even where the backend itself
  -- would create a second one: a second reply, in a state of the backend that the first has left, is
  -- for the same ID and changes no volume, also where the two requests differ in all but the name. The
  -- backend finds a volume by a name that is used, so that the check for one does not fail then; names
  -- are unique in it before. The driver has a client.
  pub create_volume_once :
      (req req' : CreateVolumeRequest) (s s' : State W) (r r' : CsiVolume)
      → d.vcloud_client ≡ some c
      → UniqueNames (store s.world)
      → (create_volume t d req s).0 ≡ reply r
      → req'.name ≡ req.name
      → s'.world ≡ (create_volume t d req s).1.world
      → (create_volume t d req' s').0 ≡ reply r'
      → (r'.volume_id ≡ r.volume_id) × (store (create_volume t d req' s').1.world ≡ store s'.world)
  create_volume_once req req' s s' r r' client unique first same_name same_world second =
      let p = finder-Provisions t c store b in
      Ensured-again
        (rw (← same_world) at (create_volume-Provisions t d c store p req s r client first)) unique
        (rename same_name (create_volume-Provisions t d c store p req' s' r' client second))
