-- ===== src/Controller/Refusals/Bodies.antt =====
-- The parts of the controller's handlers, and the refusals that come before any request.
use csi_driver_bs.Base.{
  ◌≢◌, refl, Option, none, some, List, [], ◌∷◌, Result, ok, err, arith, Option-cases, inl, inr,
}
use csi_driver_bs.Base.Int.{ℤ}
use csi_driver_bs.Text.{Text}
use csi_driver_bs.Driver.{Driver}
use csi_driver_bs.Client
use csi_driver_bs.Client.Types.{Snapshot}
use csi_driver_bs.Client.Request.{Client, Transport}
use csi_driver_bs.Grpc.{Code, fail, status, ◌>>=◌}
use csi_driver_bs.Grpc.Quiet.{
  Quiet, NoRefusal, NoRefusal-Quiet, locked-Quiet, bind_lift-Quiet, bind_lift-NoRefusal,
  bind_call-NoRefusal, bind-NoRefusal,
}
use csi_driver_bs.Controller.Messages.{
  CapacityRange, CreateVolumeRequest, ControllerPublishVolumeRequest,
  ControllerUnpublishVolumeRequest, ValidateVolumeCapabilitiesRequest, CreateSnapshotRequest,
  ListSnapshotsRequest, VolumeContentSource,
}
use csi_driver_bs.Controller.Volumes.{
  volume_busy, volume_type_of, check_capabilities, volume_size, source_snapshot, existing_volume,
  created_volume, provision, provision_with, create_volume_locked, delete_volume_locked,
}
use csi_driver_bs.Controller.Publish.{
  attach, attach_unless_attached, controller_publish_volume_locked,
  controller_unpublish_volume_locked, validate_volume_capabilities, expand,
  controller_expand_volume_locked, expand_to,
}
use csi_driver_bs.Controller.Snapshots.{
  find_named, search_result, convert_snapshots, created_snapshot, snapshot_source, found_or_create,
  search_or_create, existing_snapshot, existing_or_search, snapshot_with, delete_snapshot_locked,
  list_one, listed_reply, list_many, list_snapshots,
}

find_named-ne-fail :
    (name : Text) (snaps : List (Option Snapshot)) (code : Code) (message : Text)
    → find_named name snaps ≢ fail code message
unfolding find_named
find_named-ne-fail name [] code message = cc
find_named-ne-fail name (none ∷ _) code message = cc
find_named-ne-fail name (some snap ∷ rest) code message =
    ground (arith, find_named-ne-fail name rest code message)

search_result-ne-fail :
    (name : Text) (r : Result Text (List (Option Snapshot) × Text)) (code : Code) (message : Text)
    → search_result name r ≢ fail code message
search_result-ne-fail name (err e) code message = cc
search_result-ne-fail name (ok (snaps, token)) code message =
    find_named-ne-fail name snaps code message

convert_snapshots-ne-fail :
    (snaps : List (Option Snapshot)) (code : Code) (message : Text)
    → convert_snapshots snaps ≢ fail code message
unfolding convert_snapshots
convert_snapshots-ne-fail [] code message = cc
convert_snapshots-ne-fail (none ∷ _) code message = cc
convert_snapshots-ne-fail (some snap ∷ rest) code message =
    ground (arith, convert_snapshots-ne-fail rest code message)

module _ {W : Type 0} (t : Transport W) (d : Driver) where
  provision_with-NoRefusal :
      (o : Option Client) (name : Text) (size : ℤ) (vt sid : Text)
      → NoRefusal (provision_with t d o name size vt sid)
  unfolding provision_with provision existing_volume created_volume ◌>>=◌
  provision_with-NoRefusal o name size vt sid s code message e = ground arith

  source_snapshot-NoRefusal :
      (source : Option VolumeContentSource) → NoRefusal (source_snapshot t d source)
  unfolding source_snapshot ◌>>=◌
  source_snapshot-NoRefusal source s code message e = ground arith

  pub create_volume_locked-Quiet :
      (req : CreateVolumeRequest) → Quiet (create_volume_locked t d req)
  unfolding create_volume_locked
  create_volume_locked-Quiet req =
      bind_lift-Quiet (check_capabilities req.volume_capabilities) _ λ _.
        bind_lift-Quiet (volume_size req.capacity_range) _ λ size.
          NoRefusal-Quiet
            (source_snapshot t d req.volume_content_source >>= λ sid.
              provision_with t d d.vcloud_client req.name size (volume_type_of req.parameters) sid)
            (bind-NoRefusal (source_snapshot t d req.volume_content_source) _
              (source_snapshot-NoRefusal req.volume_content_source)
              λ sid. provision_with-NoRefusal d.vcloud_client req.name size _ sid)

  pub delete_volume_locked-Quiet : (k : Text) → Quiet (delete_volume_locked t d k)
  unfolding delete_volume_locked ◌>>=◌
  delete_volume_locked-Quiet k s code message e refusal = ground arith

  pub publish-Quiet :
      (req : ControllerPublishVolumeRequest) → Quiet (controller_publish_volume_locked t d req)
  unfolding controller_publish_volume_locked attach_unless_attached attach ◌>>=◌
  publish-Quiet req s code message e refusal = ground arith

  pub unpublish-Quiet :
      (req : ControllerUnpublishVolumeRequest) → Quiet (controller_unpublish_volume_locked t d req)
  unfolding controller_unpublish_volume_locked ◌>>=◌
  unpublish-Quiet req s code message e refusal = ground arith

  pub validate-Quiet :
      (req : ValidateVolumeCapabilitiesRequest) → Quiet (validate_volume_capabilities t d req)
  unfolding validate_volume_capabilities ◌>>=◌
  validate-Quiet req s code message e refusal = ground arith

  expand-Quiet : (k : Text) (size : ℤ) → Quiet (controller_expand_volume_locked t d k size)
  unfolding controller_expand_volume_locked expand ◌>>=◌
  expand-Quiet k size s code message e refusal = ground arith

  pub expand_to-Quiet : (k : Text) (o : Option CapacityRange) → Quiet (expand_to t d k o)
  unfolding expand_to status
  expand_to-Quiet k none s code message e refusal = refl
  expand_to-Quiet k (some range) s code message e refusal = ground (
    arith,
    locked-Quiet k (volume_busy k) (controller_expand_volume_locked t d k range.required_bytes)
        (expand-Quiet k range.required_bytes) s code message,
  )

  snapshot_source-NoRefusal :
      (c : Client) (name k : Text) → NoRefusal (snapshot_source t d c name k)
  unfolding snapshot_source created_snapshot ◌>>=◌
  snapshot_source-NoRefusal c name k s code message e = ground arith

  found_or_create-NoRefusal :
      (c : Client) (name k : Text) (o : Option Snapshot)
      → NoRefusal (found_or_create t d c name k o)
  unfolding found_or_create ◌>>=◌
  found_or_create-NoRefusal c name k (some snap) s code message e = cc
  found_or_create-NoRefusal c name k none s code message e =
      snapshot_source-NoRefusal c name k s code message e

  search_or_create-NoRefusal :
      (c : Client) (name k : Text) → NoRefusal (search_or_create t d c name k)
  unfolding search_or_create
  search_or_create-NoRefusal c name k = bind_call-NoRefusal _ _ λ r.
      bind_lift-NoRefusal (search_result name r) _ (search_result-ne-fail name r)
        (found_or_create-NoRefusal c name k)

  existing_or_search-NoRefusal :
      (c : Client) (req : CreateSnapshotRequest) (r : Result Text (Option Snapshot))
      → NoRefusal (existing_or_search t d c req r)
  unfolding existing_or_search existing_snapshot ◌>>=◌
  existing_or_search-NoRefusal c req (ok (some snap)) s code message e = ground arith
  existing_or_search-NoRefusal c req (ok none) s code message e =
      search_or_create-NoRefusal c req.name req.source_volume_id s code message e
  existing_or_search-NoRefusal c req (err x) s code message e =
      search_or_create-NoRefusal c req.name req.source_volume_id s code message e

  pub snapshot_with-NoRefusal :
      (o : Option Client) (now : W → ℤ) (req : CreateSnapshotRequest)
      → NoRefusal (snapshot_with t d o now req)
  unfolding snapshot_with
  snapshot_with-NoRefusal none now req s code message e = unfold ◌>>=◌ in cc
  snapshot_with-NoRefusal (some c) now req s code message e =
      bind_call-NoRefusal (Client.Snapshots.get_snapshot_by_name t c req.name)
        (existing_or_search t d c req) (existing_or_search-NoRefusal c req) s code message e

  pub delete_snapshot_locked-Quiet : (k : Text) → Quiet (delete_snapshot_locked t d k)
  unfolding delete_snapshot_locked ◌>>=◌
  delete_snapshot_locked-Quiet k s code message e refusal = ground arith

  list_one-NoRefusal : (c : Client) (k : Text) → NoRefusal (list_one t d c k)
  unfolding list_one ◌>>=◌
  list_one-NoRefusal c k s code message e = ground arith

  listed-NoRefusal :
      (r : Result Text (List (Option Snapshot) × Text)) → NoRefusal (listed_reply t d r)
  unfolding listed_reply ◌>>=◌
  listed-NoRefusal (err e) s code message h = ground arith
  listed-NoRefusal (ok (snapshots, next_token)) s code message h =
      ground (arith, convert_snapshots-ne-fail snapshots code message)

  list_many-NoRefusal : (c : Client) (req : ListSnapshotsRequest) → NoRefusal (list_many t d c req)
  unfolding list_many
  list_many-NoRefusal c req = bind_call-NoRefusal _ _ listed-NoRefusal

  pub list_snapshots-Quiet : (req : ListSnapshotsRequest) → Quiet (list_snapshots t d req)
  unfolding list_snapshots ◌>>=◌
  list_snapshots-Quiet req s code message e refusal = elim (Option-cases d.vcloud_client) [
    | inl missing ↦ ground arith
    | inr (c, given) ↦ ground (
      arith,
      list_one-NoRefusal c req.snapshot_id s code message,
      list_many-NoRefusal c req s code message,
    )
  ]
