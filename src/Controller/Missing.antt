-- ===== src/Controller/Missing.antt =====
-- Snapshots that the backend answers with no ID, which the client gives as nil with no error.
use csi_driver_bs.Base.{◌≡◌, ◌≢◌, some, [], ok, arith}
use csi_driver_bs.Text.{Text}
use csi_driver_bs.Driver.{Driver}
use csi_driver_bs.Client
use csi_driver_bs.Client.Json.{Fields}
use csi_driver_bs.Client.Types.{perform_get_snapshot, snapshot_request, snapshot_request_fields}
use csi_driver_bs.Client.Request.{Client, Transport, post}
use csi_driver_bs.Client.Snapshots.{parse_snapshot, parse_snapshot_response}
use csi_driver_bs.Grpc.{reply, panic, State, ◌>>=◌}
use csi_driver_bs.Controller.Messages.{ListSnapshotsRequest, from_snapshot}
use csi_driver_bs.Controller.Volumes.{source_snapshot}
use csi_driver_bs.Controller.Snapshots.{list_one, list_snapshots}

abbrev get_snapshot_payload : Text → Fields
get_snapshot_payload k =
    snapshot_request_fields (record (snapshot_request perform_get_snapshot) { snapshot_id = k })

module _ {W : Type 0} (t : Transport W) (d : Driver) where
  -- An answer to GET_SNAPSHOT with no ID is taken for a snapshot: `ListSnapshots` panics at the nil
  -- pointer, and `CreateVolume` goes on as if the source snapshot existed.
  pub missing_snapshot :
      (c : Client) (req : ListSnapshotsRequest) (s : State W) (resp : Fields) (w : W)
      → d.vcloud_client ≡ some c
      → req.snapshot_id ≢ []
      → post t c (get_snapshot_payload req.snapshot_id) s.world ≡ (ok resp, w)
      → (parse_snapshot resp).id ≡ []
      → (list_snapshots t d req s ≡ (panic, record s { world = w }))
        × (source_snapshot t d (some (from_snapshot req.snapshot_id)) s
            ≡ (reply req.snapshot_id, record s { world = w }))
  unfolding list_snapshots list_one source_snapshot Client.Snapshots.get_snapshot
      parse_snapshot_response ◌>>=◌
  missing_snapshot c req s resp w client given answered no_id = ground arith
