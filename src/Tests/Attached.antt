-- ===== src/Tests/Attached.antt =====
-- A backend with one volume, which is attached to the node `a` at `/d`.
use csi_driver_bs.Base.{◌≡◌, refl, arith, Option, some, [], ◌∷◌, ◌++◌, ok, err, if◌then◌else◌, eqb}
use native.Mathlib.Decide.{ℕ_discrete}
use csi_driver_bs.Text.{Text, text_eq, text_dec, str}
use csi_driver_bs.Dict
use csi_driver_bs.Dict.{Dict}
use csi_driver_bs.Client
use csi_driver_bs.Client.Json.{get, as_text, or_default}
use csi_driver_bs.Client.Types.{volume_request_fields, volume_response_fields}
use csi_driver_bs.Client.Request.{
  HttpResponse, Transport, do_request, http_request, read_response, decode_body, status_error,
}
use csi_driver_bs.Client.Volumes.{parse_volume_response}
use csi_driver_bs.Locks.{try_acquire, release}
use csi_driver_bs.Grpc.{reply, locked, return, ◌>>=◌}
use csi_driver_bs.Controller.Messages.{mount, ControllerPublishVolumeRequest}
use csi_driver_bs.Controller.Publish.{
  controller_publish_volume, controller_publish_volume_locked, attach_unless_attached,
  publish_context,
}
use csi_driver_bs.Controller.Backend.Attached.{Attachments, IsAttacher, staged_attached}
use csi_driver_bs.Mounter.Fake.{fake_mounter}
use csi_driver_bs.Mounter.Laws.{fake_mounter-IsMounter}
use csi_driver_bs.Node.Stage.{node_stage_volume}
use csi_driver_bs.Tests.Server.{answer, stored, client, driver}
use csi_driver_bs.Tests.Host.{calm}
use csi_driver_bs.Tests.Node.{points, calm-KeepsMounts, with_mounts, stage_path, staged, to_stage}

abbrev first : Text → Text
first [] = []
first (c ∷ s) = c ∷ []

abbrev respond : Option Text → HttpResponse
respond (some (c ∷ [])) = if eqb c b'G' then answer 200 (b'v' ∷ []) else answer 500 []
respond _ = answer 500 []

-- A body is the first letter of the action.
abbrev holder : Transport (Unit {0})
holder = record {
  marshal = λ f. ok (first (or_default (as_text (get (str "perform") f)) []));
  unmarshal = λ body. ok (volume_response_fields stored);
  new_request = λ method url. ok tt;
  send = λ req w. (ok (respond req.body), w);
}

abbrev held : Attachments (Unit {0})
held w id = some (stored.node_id, stored.device_path)

get_held :
    (id : Text) (w : Unit {0})
    → Client.Volumes.get_volume holder client id w
      ≡ (ok (parse_volume_response (volume_response_fields stored)), w)
unfolding Client.Volumes.get_volume do_request http_request read_response decode_body
    volume_request_fields get str text_dec ℕ_discrete parse_volume_response volume_response_fields
get_held id w = refl

attach_held :
    (id node : Text) (w : Unit {0})
    → Client.Volumes.attach_volume holder client id node w
      ≡ (err (str "failed to attach volume: " ++ status_error 500 []), w)
unfolding Client.Volumes.attach_volume do_request http_request read_response volume_request_fields
    get str text_dec ℕ_discrete
attach_held id node w = refl

holder-IsAttacher : IsAttacher holder client held
unfolding parse_volume_response volume_response_fields get str text_dec ℕ_discrete
holder-IsAttacher = record {
  reported = λ id v w got named. ground (arith, get_held id w);
  attaches = λ id node r w done. absurd (ground (arith, attach_held id node w));
}

abbrev to_attach : ControllerPublishVolumeRequest
to_attach = record {
  volume_id = b'v' ∷ [];
  node_id = b'a' ∷ [];
  volume_capability = some (mount (record { fs_type = []; mount_flags = [] }));
}

published_held :
    (controller_publish_volume holder driver to_attach
      (record { volume_locks = record { locks = [] }; world = tt })).0
    ≡ reply (publish_context stored.device_path)
unfolding controller_publish_volume controller_publish_volume_locked attach_unless_attached locked
    try_acquire return ◌>>=◌ Client.Volumes.get_volume do_request http_request read_response
    decode_body volume_request_fields get str text_dec ℕ_discrete parse_volume_response
    volume_response_fields Dict.lookup Dict.insert release Dict.erase
published_held = refl

staged_attached_example :
    (device : Text) × (held tt (b'v' ∷ []) ≡ some (b'a' ∷ [], device))
    × (Dict.lookup stage_path
          (points (node_stage_volume calm fake_mounter driver to_stage (with_mounts [])).1.world)
        ≡ some device)
unfolding Dict.lookup
staged_attached_example =
    staged_attached holder driver client held holder-IsAttacher calm fake_mounter driver points
      to_attach to_stage (record { volume_locks = record { locks = [] }; world = tt })
      (with_mounts []) fake_mounter-IsMounter calm-KeepsMounts refl published_held refl staged
