-- ===== src/Controller/Refusals.antt =====
-- A controller call that is refused before its work asks the backend nothing.
mod Bodies
use csi_driver_bs.Base.{
  ◌≡◌, ◌≢◌, refl, true, false, Option, none, some, List, [], ◌∷◌, Result, ok, err, arith,
  Option-cases, inl, inr,
}
use csi_driver_bs.Base.Int.{ℤ}
use csi_driver_bs.Text.{Text, str, is_empty}
use csi_driver_bs.Driver.{Driver}
use csi_driver_bs.Client
use csi_driver_bs.Client.Types.{Snapshot}
use csi_driver_bs.Client.Request.{Client, Transport}
use csi_driver_bs.Grpc.{Code, Rpc, reply, fail, panic, State, status, lift, ◌>>=◌}
use csi_driver_bs.Grpc.Quiet.{
  is_refusal, Quiet, NoRefusal, NoRefusal-Quiet, locked-Quiet, bind_lift-Quiet, bind_lift-NoRefusal,
  bind_call-NoRefusal, bind-NoRefusal,
}
use csi_driver_bs.Controller.Calls.{
  ControllerCall, create_volume_call, delete_volume_call, publish_call, unpublish_call,
  validate_call, expand_call, create_snapshot_call, delete_snapshot_call, list_snapshots_call,
  handle,
}
use csi_driver_bs.Controller.Messages.{
  CapacityRange, CreateVolumeRequest, ControllerPublishVolumeRequest,
  ControllerUnpublishVolumeRequest, ValidateVolumeCapabilitiesRequest, CreateSnapshotRequest,
  ListSnapshotsRequest, VolumeContentSource,
}
use csi_driver_bs.Controller.Volumes.{
  volume_busy, volume_type_of, check_capabilities, volume_size, source_snapshot, existing_volume,
  created_volume, provision, provision_with, create_volume_locked, create_volume,
  delete_volume_locked, delete_volume,
}
use csi_driver_bs.Controller.Publish.{
  attach, attach_unless_attached, controller_publish_volume_locked, controller_publish_volume,
  controller_unpublish_volume_locked, controller_unpublish_volume, validate_volume_capabilities,
  expand, controller_expand_volume_locked, expand_to, controller_expand_volume,
}
use csi_driver_bs.Controller.Snapshots.{
  snapshot_busy, find_named, search_result, convert_snapshots, created_snapshot, snapshot_source,
  found_or_create, search_or_create, existing_snapshot, existing_or_search, snapshot_with,
  create_snapshot, delete_snapshot_locked, delete_snapshot, list_one, listed_reply, list_many,
  list_snapshots,
}
use csi_driver_bs.Controller.Refusals.Bodies.{
  create_volume_locked-Quiet, delete_volume_locked-Quiet, publish-Quiet, unpublish-Quiet,
  validate-Quiet, expand_to-Quiet, snapshot_with-NoRefusal, delete_snapshot_locked-Quiet,
  list_snapshots-Quiet,
}

module _ {W : Type 0} (t : Transport W) (d : Driver) (now : W → ℤ) where
  -- A controller call that fails with `InvalidArgument`, `Aborted` or `OutOfRange` has asked the
  -- backend nothing, and left all outside the driver as it was.
  pub handle-Quiet : (call : ControllerCall) → Quiet (handle t d now call)
  unfolding handle status create_volume delete_volume controller_publish_volume
      controller_unpublish_volume controller_expand_volume create_snapshot delete_snapshot
  handle-Quiet (create_volume_call req) s code message e refusal = ground (
    arith,
    locked-Quiet req.name (volume_busy req.name) (create_volume_locked t d req)
        (create_volume_locked-Quiet t d req) s code message,
  )
  handle-Quiet (delete_volume_call k) s code message e refusal = ground (
    arith,
    locked-Quiet k (volume_busy k) (delete_volume_locked t d k) (delete_volume_locked-Quiet t d k) s
        code message,
  )
  handle-Quiet (publish_call req) s code message e refusal = ground (
    arith,
    locked-Quiet req.volume_id (volume_busy req.volume_id)
        (controller_publish_volume_locked t d req) (publish-Quiet t d req) s code message,
  )
  handle-Quiet (unpublish_call req) s code message e refusal = ground (
    arith,
    locked-Quiet req.volume_id (volume_busy req.volume_id)
        (controller_unpublish_volume_locked t d req) (unpublish-Quiet t d req) s code message,
  )
  handle-Quiet (validate_call req) s code message e refusal =
      ground (arith, validate-Quiet t d req s code message)
  handle-Quiet (expand_call req) s code message e refusal =
      ground (arith, expand_to-Quiet t d req.volume_id req.capacity_range s code message)
  handle-Quiet (create_snapshot_call req) s code message e refusal = ground (
    arith,
    locked-Quiet req.name (snapshot_busy req.name) (snapshot_with t d d.vcloud_client now req)
        (NoRefusal-Quiet (snapshot_with t d d.vcloud_client now req)
          (snapshot_with-NoRefusal t d d.vcloud_client now req))
        s code message,
  )
  handle-Quiet (delete_snapshot_call k) s code message e refusal = ground (
    arith,
    locked-Quiet k (snapshot_busy k) (delete_snapshot_locked t d k)
        (delete_snapshot_locked-Quiet t d k) s code message,
  )
  handle-Quiet (list_snapshots_call req) s code message e refusal =
      ground (arith, list_snapshots-Quiet t d req s code message)
