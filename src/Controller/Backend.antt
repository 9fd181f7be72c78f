-- ===== src/Controller/Backend.antt =====
-- What the controller relies on in a backend: how the answers to the client's requests stand to the
-- volumes that there are.
pub mod Ensures
pub mod Creation
pub mod Once
pub mod Removed
pub mod Attached
use csi_driver_bs.Base.{
  ◌≡◌, ◌≢◌, Option, Result, Bool, false, arith, none, some, ok, err, true, ◌==◌, if◌then◌else◌,
}
use csi_driver_bs.Base.Int.{ℤ}
use csi_driver_bs.Text.{Text, text_eq}
use csi_driver_bs.Dict
use csi_driver_bs.Dict.{Dict}
use csi_driver_bs.Client
use csi_driver_bs.Client.Errors.{is_not_found_error}
use csi_driver_bs.Client.Types.{Volume}
use csi_driver_bs.Client.Request.{Client, Transport}

-- The volumes of a backend: the name of each ID.
abbrev pub Store : Type 0
Store = Dict Text Text

-- No volume has the name.
abbrev pub Unused : Text → Store → Type 0
Unused name store = (id : Text) → Dict.lookup id store ≢ some name

-- One volume more.
abbrev pub Gains : Text → Text → Store → Store → Type 0
Gains id name before after =
    (k : Text) → Dict.lookup k after ≡ (if k == id then some name else Dict.lookup k before)

-- No volume with this ID any more.
abbrev pub Loses : Text → Store → Store → Type 0
Loses id before after =
    (k : Text) → Dict.lookup k after ≡ (if k == id then none else Dict.lookup k before)

-- Whether a check by name has found a volume.
abbrev pub is_found : Result Text (Option Volume) → Bool
is_found (ok (some v)) = true
is_found _ = false

-- `store` gives the volumes in a state. A volume is created only under a name that is not used, and
-- a volume is called unknown only if there is none.
pub record IsBackend {W : Type 0} (t : Transport W) (c : Client) (store : W → Store) : Type 0 where
  pub named :
      (name : Text) (v : Volume) (w : W)
      → (Client.Volumes.get_volume_by_name t c name w).0 ≡ ok (some v)
      → Dict.lookup v.id (store w) ≡ some name
  pub created :
      (name : Text) (size : ℤ) (kind snapshot : Text) (v : Volume) (w : W)
      → (Client.Volumes.create_volume t c name size kind snapshot w).0 ≡ ok v
      → Unused name (store w)
        × Gains v.id name
            (store w)
            (store (Client.Volumes.create_volume t c name size kind snapshot w).1)
  pub naming_keeps :
      (name : Text) (w : W) → store (Client.Volumes.get_volume_by_name t c name w).1 ≡ store w
  pub snapshot_keeps :
      (id : Text) (w : W) → store (Client.Snapshots.get_snapshot t c id w).1 ≡ store w

-- A backend that may create a second volume under a name, but finds a volume by a name that is used.
pub record IsFinder {W : Type 0} (t : Transport W) (c : Client) (store : W → Store) : Type 0 where
  pub named :
      (name : Text) (v : Volume) (w : W)
      → (Client.Volumes.get_volume_by_name t c name w).0 ≡ ok (some v)
      → Dict.lookup v.id (store w) ≡ some name
  pub finds :
      (id name : Text) (w : W)
      → Dict.lookup id (store w) ≡ some name
      → (v : Volume) × ((Client.Volumes.get_volume_by_name t c name w).0 ≡ ok (some v))
  pub created :
      (name : Text) (size : ℤ) (kind snapshot : Text) (v : Volume) (w : W)
      → (Client.Volumes.create_volume t c name size kind snapshot w).0 ≡ ok v
      → Gains v.id name
          (store w)
          (store (Client.Volumes.create_volume t c name size kind snapshot w).1)
  pub naming_keeps :
      (name : Text) (w : W) → store (Client.Volumes.get_volume_by_name t c name w).1 ≡ store w
  pub snapshot_keeps :
      (id : Text) (w : W) → store (Client.Snapshots.get_snapshot t c id w).1 ≡ store w

-- What both kinds of backend give: what the creation does that follows a check by name.
pub record Provisions {W : Type 0} (t : Transport W) (c : Client) (store : W → Store) : Type 0 where
  pub named :
      (name : Text) (v : Volume) (w : W)
      → (Client.Volumes.get_volume_by_name t c name w).0 ≡ ok (some v)
      → Dict.lookup v.id (store w) ≡ some name
  pub made :
      (name : Text) (size : ℤ) (kind snapshot : Text) (v : Volume) (w : W)
      → is_found (Client.Volumes.get_volume_by_name t c name w).0 ≡ false
      → (Client.Volumes.create_volume t c name size kind snapshot
          (Client.Volumes.get_volume_by_name t c name w).1).0
        ≡ ok v
      → Unused name (store w)
        × Gains v.id name (store w) (
            store
              (Client.Volumes.create_volume t c name size kind snapshot
                (Client.Volumes.get_volume_by_name t c name w).1).1)
  pub naming_keeps :
      (name : Text) (w : W) → store (Client.Volumes.get_volume_by_name t c name w).1 ≡ store w
  pub snapshot_keeps :
      (id : Text) (w : W) → store (Client.Snapshots.get_snapshot t c id w).1 ≡ store w

module _ {W : Type 0} (t : Transport W) (c : Client) (store : W → Store) where
  pub backend-Provisions : IsBackend t c store → Provisions t c store
  backend-Provisions b = record {
    named = b.named;
    made = λ name size kind snapshot v w missed e.
        rw (b.naming_keeps name w) at
          (b.created name size kind snapshot v (Client.Volumes.get_volume_by_name t c name w).1 e);
    naming_keeps = b.naming_keeps;
    snapshot_keeps = b.snapshot_keeps;
  }

  finder-Unused :
      (b : IsFinder t c store) (name : Text) (w : W)
      → is_found (Client.Volumes.get_volume_by_name t c name w).0 ≡ false
      → Unused name (store w)
  finder-Unused b name w missed id h = let (v, e) = b.finds id name w h in ground arith

  pub finder-Provisions : IsFinder t c store → Provisions t c store
  finder-Provisions b = record {
    named = b.named;
    made = λ name size kind snapshot v w missed e. (
      finder-Unused b name w missed,
      rw (b.naming_keeps name w) at
          (b.created name size kind snapshot v (Client.Volumes.get_volume_by_name t c name w).1 e),
    );
    naming_keeps = b.naming_keeps;
    snapshot_keeps = b.snapshot_keeps;
  }
