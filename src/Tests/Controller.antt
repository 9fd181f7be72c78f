-- ===== src/Tests/Controller.antt =====
-- The theorems about the controller at concrete requests, and runs of its branches.
use csi_driver_bs.Base.{◌≡◌, refl, inr, true, some, none, [], ◌∷◌, ok, arith}
use csi_driver_bs.Base.Int.{ℤ, pos}
use csi_driver_bs.Text.{Text, text_eq, text_dec, str}
use csi_driver_bs.Dict
use csi_driver_bs.Client
use csi_driver_bs.Client.Json.{get, end}
use native.Mathlib.Decide.{ℕ_discrete}
use csi_driver_bs.Text.Contains.{contains}
use csi_driver_bs.Client.Types.{Volume, volume_response_fields}
use csi_driver_bs.Client.Request.{do_request, read_response}
use csi_driver_bs.Grpc.{invalid_argument, aborted, reply, fail, panic, State, status}
use csi_driver_bs.Controller.Messages.{
  mount, CreateVolumeRequest, ControllerPublishVolumeRequest, ControllerExpandVolumeRequest,
  ListSnapshotsRequest, from_snapshot,
}
use csi_driver_bs.Controller.Volumes.{
  volume_busy, check_capabilities, volume_size, create_volume, source_snapshot,
}
use csi_driver_bs.Controller.Publish.{
  controller_publish_volume, controller_expand_volume, expand_reply,
}
use csi_driver_bs.Controller.Snapshots.{list_snapshots}
use csi_driver_bs.Controller.Calls.{delete_volume_call, create_volume_call, handle}
use csi_driver_bs.Controller.Locking.{handle-KeepsLocks}
use csi_driver_bs.Controller.Busy.{delete_volume_locks, handle_busy}
use csi_driver_bs.Controller.Refusals.{handle-Quiet}
use csi_driver_bs.Controller.Removal.{deletes_volume, gone_succeeds, misread_succeeds}
use csi_driver_bs.Controller.Attachment.{publish_attached_outcome, publish_attached, expand_enough}
use csi_driver_bs.Controller.Missing.{missing_snapshot}
use csi_driver_bs.Controller.Existing.{IsAcceptable, same_volume, create_volume_again}
use csi_driver_bs.Tests.Server.{Script, answer, stored, scripted, client, driver, idle, clock}

abbrev k : Text
k = b'v' ∷ []

handle-KeepsLocks_example :
    (handle scripted driver clock (delete_volume_call k) (idle (answer 500 [] ∷ []))).1.volume_locks
    ≡ record { locks = [] }
handle-KeepsLocks_example =
    handle-KeepsLocks scripted driver clock (delete_volume_call k) (idle (answer 500 [] ∷ []))

abbrev busy : State Script
busy = record { volume_locks = record { locks = (k, true) ∷ [] }; world = answer 200 [] ∷ [] }

handle_busy_example :
    handle scripted driver clock (delete_volume_call k) busy ≡ (fail aborted (volume_busy k), busy)
unfolding Dict.lookup text_dec
handle_busy_example =
    handle_busy scripted driver clock busy (delete_volume_locks k (λ e. cc)) (λ e. cc)

-- A request with no name.
abbrev nameless : CreateVolumeRequest
nameless = record {
  name = [];
  volume_capabilities = [];
  capacity_range = none;
  parameters = [];
  volume_content_source = none;
}

nameless_refused :
    (handle scripted driver clock (create_volume_call nameless) (idle [])).0
    ≡ fail invalid_argument (str "CreateVolume name must be provided")
unfolding handle create_volume status
nameless_refused = refl

handle-Quiet_example :
    (handle scripted driver clock (create_volume_call nameless) (idle [])).1.world ≡ []
handle-Quiet_example =
    handle-Quiet scripted driver clock (create_volume_call nameless) (idle []) invalid_argument
      (str "CreateVolume name must be provided") nameless_refused refl

gone_succeeds_example :
    handle scripted driver clock (delete_volume_call k) (idle (answer 404 [] ∷ []))
    ≡ (reply tt, idle [])
unfolding Dict.lookup
gone_succeeds_example =
    gone_succeeds scripted driver clock client (idle (answer 404 [] ∷ [])) [] refl
      (deletes_volume k) (λ e. cc) refl
      (record { json = []; encoded = refl; accepted = refl; sent = refl })

contains_404 : contains (str "404") (str "404") ≡ true
unfolding contains str text_dec
contains_404 = refl

misread_succeeds_example :
    handle scripted driver clock (delete_volume_call k) (idle (answer 500 (str "404") ∷ []))
    ≡ (reply tt, idle [])
unfolding Dict.lookup Client.Request.do_request
misread_succeeds_example =
    misread_succeeds scripted driver clock client (idle (answer 500 (str "404") ∷ [])) 500
      (str "404") refl (deletes_volume k) (λ e. cc) refl
      (record { json = []; encoded = refl; accepted = refl; sent = refl }) (omega arith)
      contains_404

abbrev to_node : Text → ControllerPublishVolumeRequest
to_node node = record {
  volume_id = k;
  node_id = node;
  volume_capability = some (mount (record { fs_type = []; mount_flags = [] }));
}

-- The volume of the script, as the client reads it.
abbrev volume : Volume
volume = record {
  id = k;
  name = b'n' ∷ [];
  size_bytes = pos 10737418240;
  volume_type = b'h' ∷ [];
  device_path = b'/' ∷ b'd' ∷ [];
  node_id = b'a' ∷ [];
  snapshot_id = [];
}

abbrev one_volume : State Script
one_volume = idle (answer 200 k ∷ [])

get_volume_test : Client.Volumes.get_volume scripted client k one_volume.world ≡ (ok volume, [])
unfolding Client.Volumes.get_volume Client.Volumes.parse_volume_response do_request read_response
    volume_response_fields get str text_dec ℕ_discrete
get_volume_test = refl

publish_attached_example :
    controller_publish_volume scripted driver (to_node (b'b' ∷ [])) one_volume
    ≡ (publish_attached_outcome volume (to_node (b'b' ∷ [])), idle [])
unfolding Dict.lookup
publish_attached_example =
    publish_attached scripted driver client volume (to_node (b'b' ∷ []))
      (mount (record { fs_type = []; mount_flags = [] })) one_volume [] refl (λ e. cc) (λ e. cc)
      refl refl get_volume_test (λ e. cc)

abbrev to_size : ℤ → ControllerExpandVolumeRequest
to_size size = record {
  volume_id = k;
  capacity_range = some (record { required_bytes = size; limit_bytes = pos 0 });
}

expand_enough_example :
    controller_expand_volume scripted driver (to_size (pos 5)) one_volume
    ≡ (reply (expand_reply (pos 10737418240)), idle [])
unfolding Dict.lookup
expand_enough_example =
    expand_enough scripted driver client volume (to_size (pos 5))
      (record { required_bytes = pos 5; limit_bytes = pos 0 }) one_volume [] refl (λ e. cc) refl
      (omega arith) refl get_volume_test (omega arith)

abbrev one_snapshot : ListSnapshotsRequest
one_snapshot = record {
  snapshot_id = k;
  source_volume_id = [];
  max_entries = pos 0;
  starting_token = [];
}

missing_snapshot_example :
    (list_snapshots scripted driver one_snapshot (idle (answer 200 [] ∷ [])) ≡ (panic, idle []))
    × (source_snapshot scripted driver (some (from_snapshot k)) (idle (answer 200 [] ∷ []))
        ≡ (reply k, idle []))
unfolding do_request read_response get ℕ_discrete
missing_snapshot_example =
    missing_snapshot scripted driver client one_snapshot (idle (answer 200 [] ∷ [])) end [] refl
      (λ e. cc) refl refl

abbrev pub again : CreateVolumeRequest
again = record {
  name = b'n' ∷ [];
  volume_capabilities = mount (record { fs_type = []; mount_flags = [] }) ∷ [];
  capacity_range = none;
  parameters = [];
  volume_content_source = none;
}

pub again-IsAcceptable : IsAcceptable again (pos 10737418240)
unfolding check_capabilities volume_size
again-IsAcceptable = record {
  named = λ e. cc;
  capable = λ e. cc;
  checked = refl;
  sized = refl;
  empty = refl;
}

create_volume_again_example :
    create_volume scripted driver again one_volume
    ≡ (reply (same_volume stored (pos 10737418240)), idle [])
unfolding Dict.lookup do_request read_response text_dec ℕ_discrete
create_volume_again_example =
    create_volume_again scripted driver client again (pos 10737418240) stored one_volume [] refl
      again-IsAcceptable refl (record { answered = refl; has_id = λ e. cc }) (inr refl)
