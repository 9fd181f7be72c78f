-- ===== src/Controller/Locking.antt =====
-- The controller's handlers and the lock map.
use csi_driver_bs.Base.{◌≡◌, refl, arith, Option, none, some, Result, ok, err}
use csi_driver_bs.Client.Types.{Snapshot}
use csi_driver_bs.Base.Int.{ℤ}
use csi_driver_bs.Text.{Text}
use csi_driver_bs.Driver.{Driver}
use csi_driver_bs.Client.Request.{Client, Transport}
use csi_driver_bs.Grpc.{State, status, ◌>>=◌}
use csi_driver_bs.Controller.Calls.{
  ControllerCall, create_volume_call, delete_volume_call, publish_call, unpublish_call,
  validate_call, expand_call, create_snapshot_call, delete_snapshot_call, list_snapshots_call,
  handle,
}
use csi_driver_bs.Grpc.Keeps.{
  KeepsLocks, locked-KeepsLocks, bind-KeepsLocks, bind_lift-KeepsLocks, bind_call-KeepsLocks,
}
use csi_driver_bs.Controller.Messages.{
  CreateVolumeRequest, ControllerPublishVolumeRequest, ControllerUnpublishVolumeRequest,
  ValidateVolumeCapabilitiesRequest, CreateSnapshotRequest, ListSnapshotsRequest, CapacityRange,
}
use csi_driver_bs.Controller.Volumes.{
  volume_busy, source_snapshot, existing_volume, created_volume, check_capabilities, volume_size,
  provision, provision_with, create_volume_locked, create_volume, delete_volume_locked,
  delete_volume,
}
use csi_driver_bs.Controller.Publish.{
  attach, attach_unless_attached, controller_publish_volume_locked, controller_publish_volume,
  controller_unpublish_volume_locked, controller_unpublish_volume, validate_volume_capabilities,
  expand, controller_expand_volume_locked, expand_to, controller_expand_volume,
}
use csi_driver_bs.Controller.Snapshots.{
  snapshot_busy, created_snapshot, snapshot_source, found_or_create, search_or_create,
  existing_snapshot, existing_or_search, snapshot_with, search_result, create_snapshot,
  delete_snapshot_locked, delete_snapshot, list_one, listed_reply, list_many, list_snapshots,
}

module _ {W : Type 0} (t : Transport W) (d : Driver) where
  provision-KeepsLocks :
      (c : Client) (name : Text) (size : ℤ) (vt sid : Text)
      → KeepsLocks (provision t d c name size vt sid)
  unfolding provision existing_volume created_volume ◌>>=◌
  provision-KeepsLocks c name size vt sid s = ground arith

  source_snapshot-KeepsLocks : (src : _) → KeepsLocks (source_snapshot t d src)
  unfolding source_snapshot ◌>>=◌
  source_snapshot-KeepsLocks src s = ground arith

  provision_with-KeepsLocks :
      (o : Option Client) (name : Text) (size : ℤ) (vt sid : Text)
      → KeepsLocks (provision_with t d o name size vt sid)
  unfolding provision_with ◌>>=◌
  provision_with-KeepsLocks none name size vt sid s = refl
  provision_with-KeepsLocks (some c) name size vt sid s = provision-KeepsLocks c name size vt sid s

  create_volume_locked-KeepsLocks :
      (req : CreateVolumeRequest) → KeepsLocks (create_volume_locked t d req)
  unfolding create_volume_locked
  create_volume_locked-KeepsLocks req =
      bind_lift-KeepsLocks (check_capabilities req.volume_capabilities) _ λ _.
        bind_lift-KeepsLocks (volume_size req.capacity_range) _ λ size.
          bind-KeepsLocks (source_snapshot t d req.volume_content_source) _
            (source_snapshot-KeepsLocks req.volume_content_source)
            λ sid. provision_with-KeepsLocks d.vcloud_client req.name size _ sid

  delete_volume_locked-KeepsLocks :
      (volume_id : Text) → KeepsLocks (delete_volume_locked t d volume_id)
  unfolding delete_volume_locked ◌>>=◌
  delete_volume_locked-KeepsLocks volume_id s = ground arith

  publish-KeepsLocks :
      (req : ControllerPublishVolumeRequest) → KeepsLocks (controller_publish_volume_locked t d req)
  unfolding controller_publish_volume_locked attach_unless_attached attach ◌>>=◌
  publish-KeepsLocks req s = ground arith

  unpublish-KeepsLocks :
      (req : ControllerUnpublishVolumeRequest)
      → KeepsLocks (controller_unpublish_volume_locked t d req)
  unfolding controller_unpublish_volume_locked ◌>>=◌
  unpublish-KeepsLocks req s = ground arith

  validate-KeepsLocks :
      (req : ValidateVolumeCapabilitiesRequest) → KeepsLocks (validate_volume_capabilities t d req)
  unfolding validate_volume_capabilities ◌>>=◌
  validate-KeepsLocks req s = ground arith

  expand-KeepsLocks :
      (volume_id : Text) (size : ℤ)
      → KeepsLocks (controller_expand_volume_locked t d volume_id size)
  unfolding controller_expand_volume_locked expand ◌>>=◌
  expand-KeepsLocks volume_id size s = ground arith

  snapshot_source-KeepsLocks :
      (c : Client) (name vid : Text) → KeepsLocks (snapshot_source t d c name vid)
  unfolding snapshot_source created_snapshot ◌>>=◌
  snapshot_source-KeepsLocks c name vid s = ground arith

  found_or_create-KeepsLocks :
      (c : Client) (name vid : Text) (o : Option Snapshot)
      → KeepsLocks (found_or_create t d c name vid o)
  unfolding found_or_create ◌>>=◌
  found_or_create-KeepsLocks c name vid (some snap) s = refl
  found_or_create-KeepsLocks c name vid none s = snapshot_source-KeepsLocks c name vid s

  search_or_create-KeepsLocks :
      (c : Client) (name vid : Text) → KeepsLocks (search_or_create t d c name vid)
  unfolding search_or_create
  search_or_create-KeepsLocks c name vid =
      bind_call-KeepsLocks _ _
        λ r. bind_lift-KeepsLocks (search_result name r) _ (found_or_create-KeepsLocks c name vid)

  existing_or_search-KeepsLocks :
      (c : Client) (req : CreateSnapshotRequest) (r : Result Text (Option Snapshot))
      → KeepsLocks (existing_or_search t d c req r)
  unfolding existing_or_search existing_snapshot ◌>>=◌
  existing_or_search-KeepsLocks c req (ok (some existing)) s = ground arith
  existing_or_search-KeepsLocks c req (ok none) s =
      search_or_create-KeepsLocks c req.name req.source_volume_id s
  existing_or_search-KeepsLocks c req (err e) s =
      search_or_create-KeepsLocks c req.name req.source_volume_id s

  snapshot_with-KeepsLocks :
      (o : Option Client) (now : W → ℤ) (req : CreateSnapshotRequest)
      → KeepsLocks (snapshot_with t d o now req)
  unfolding snapshot_with
  snapshot_with-KeepsLocks none now req =
      bind_call-KeepsLocks (λ w. (now w, w)) _ (λ time s. unfold ◌>>=◌ in refl)
  snapshot_with-KeepsLocks (some c) now req =
      bind_call-KeepsLocks _ _ (existing_or_search-KeepsLocks c req)

  delete_snapshot_locked-KeepsLocks :
      (snapshot_id : Text) → KeepsLocks (delete_snapshot_locked t d snapshot_id)
  unfolding delete_snapshot_locked ◌>>=◌
  delete_snapshot_locked-KeepsLocks snapshot_id s = ground arith

  list_snapshots-KeepsLocks : (req : ListSnapshotsRequest) → KeepsLocks (list_snapshots t d req)
  unfolding list_snapshots list_one listed_reply list_many ◌>>=◌
  list_snapshots-KeepsLocks req s = ground arith

module _ {W : Type 0} (t : Transport W) (d : Driver) (now : W → ℤ) where
  expand_to-KeepsLocks : (k : Text) (o : Option CapacityRange) → KeepsLocks (expand_to t d k o)
  unfolding expand_to ◌>>=◌
  expand_to-KeepsLocks k none s = refl
  expand_to-KeepsLocks k (some range) s = ground (
    arith,
    locked-KeepsLocks k (volume_busy k) (controller_expand_volume_locked t d k range.required_bytes)
        (expand-KeepsLocks t d k range.required_bytes) s,
  )

  -- Every controller call gives the lock map back as it found it, whether it replies, fails or
  -- panics.
  pub handle-KeepsLocks :
      (call : ControllerCall) (s : State W)
      → (handle t d now call s).1.volume_locks ≡ s.volume_locks
  unfolding handle status create_volume delete_volume controller_publish_volume
      controller_unpublish_volume controller_expand_volume create_snapshot delete_snapshot
  handle-KeepsLocks (create_volume_call req) s = ground (
    arith,
    locked-KeepsLocks req.name (volume_busy req.name) (create_volume_locked t d req)
        (create_volume_locked-KeepsLocks t d req) s,
  )
  handle-KeepsLocks (delete_volume_call k) s = ground (
    arith,
    locked-KeepsLocks k (volume_busy k) (delete_volume_locked t d k)
        (delete_volume_locked-KeepsLocks t d k) s,
  )
  handle-KeepsLocks (publish_call req) s = ground (
    arith,
    locked-KeepsLocks req.volume_id (volume_busy req.volume_id)
        (controller_publish_volume_locked t d req) (publish-KeepsLocks t d req) s,
  )
  handle-KeepsLocks (unpublish_call req) s = ground (
    arith,
    locked-KeepsLocks req.volume_id (volume_busy req.volume_id)
        (controller_unpublish_volume_locked t d req) (unpublish-KeepsLocks t d req) s,
  )
  handle-KeepsLocks (validate_call req) s = validate-KeepsLocks t d req s
  handle-KeepsLocks (expand_call req) s =
      ground (arith, expand_to-KeepsLocks req.volume_id req.capacity_range s)
  handle-KeepsLocks (create_snapshot_call req) s = ground (
    arith,
    locked-KeepsLocks req.name (snapshot_busy req.name) (snapshot_with t d d.vcloud_client now req)
        (snapshot_with-KeepsLocks t d d.vcloud_client now req) s,
  )
  handle-KeepsLocks (delete_snapshot_call k) s = ground (
    arith,
    locked-KeepsLocks k (snapshot_busy k) (delete_snapshot_locked t d k)
        (delete_snapshot_locked-KeepsLocks t d k) s,
  )
  handle-KeepsLocks (list_snapshots_call req) s = list_snapshots-KeepsLocks t d req s
