-- ===== src/Controller/Calls.antt =====
-- The calls of the Controller service that pkg/vcloud/controllerserver.go locks or that ask the
-- backend, in one type. `handle` runs a call and forgets what a reply holds.
use csi_driver_bs.Base.Int.{ℤ}
use csi_driver_bs.Text.{Text}
use csi_driver_bs.Driver.{Driver}
use csi_driver_bs.Client.Request.{Transport}
use csi_driver_bs.Grpc.{Handler, outcome}
use csi_driver_bs.Controller.Messages.{
  CreateVolumeRequest, ControllerPublishVolumeRequest, ControllerUnpublishVolumeRequest,
  ValidateVolumeCapabilitiesRequest, ControllerExpandVolumeRequest, CreateSnapshotRequest,
  ListSnapshotsRequest,
}
use csi_driver_bs.Controller.Volumes.{create_volume, delete_volume}
use csi_driver_bs.Controller.Publish.{
  controller_publish_volume, controller_unpublish_volume, validate_volume_capabilities,
  controller_expand_volume,
}
use csi_driver_bs.Controller.Snapshots.{create_snapshot, delete_snapshot, list_snapshots}

pub data ControllerCall : Type 0 where
  create_volume_call : CreateVolumeRequest → ControllerCall
  delete_volume_call : Text → ControllerCall
  publish_call : ControllerPublishVolumeRequest → ControllerCall
  unpublish_call : ControllerUnpublishVolumeRequest → ControllerCall
  validate_call : ValidateVolumeCapabilitiesRequest → ControllerCall
  expand_call : ControllerExpandVolumeRequest → ControllerCall
  create_snapshot_call : CreateSnapshotRequest → ControllerCall
  delete_snapshot_call : Text → ControllerCall
  list_snapshots_call : ListSnapshotsRequest → ControllerCall

module _ {W : Type 0} (t : Transport W) (d : Driver) (now : W → ℤ) where
  unfoldable pub handle : ControllerCall → Handler W (Unit {0})
  handle (create_volume_call req) = outcome (create_volume t d req)
  handle (delete_volume_call volume_id) = outcome (delete_volume t d volume_id)
  handle (publish_call req) = outcome (controller_publish_volume t d req)
  handle (unpublish_call req) = outcome (controller_unpublish_volume t d req)
  handle (validate_call req) = outcome (validate_volume_capabilities t d req)
  handle (expand_call req) = outcome (controller_expand_volume t d req)
  handle (create_snapshot_call req) = outcome (create_snapshot t d now req)
  handle (delete_snapshot_call snapshot_id) = outcome (delete_snapshot t d snapshot_id)
  handle (list_snapshots_call req) = outcome (list_snapshots t d req)
