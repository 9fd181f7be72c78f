-- ===== src/Tests/Volumes.antt =====
-- The theorems about the volumes of a backend, with the backend of one volume.
use csi_driver_bs.Base.{ok, ◌≡◌, refl, sym, ap, none, some, [], ◌∷◌}
use native.Mathlib.Decide.{ℕ_discrete}
use csi_driver_bs.Base.Int.{pos}
use csi_driver_bs.Text.{str, text_eq, text_dec}
use csi_driver_bs.Dict
use csi_driver_bs.Client
use csi_driver_bs.Client.Json.{get}
use csi_driver_bs.Client.Types.{volume_request_fields}
use csi_driver_bs.Client.Volumes.{parse_volume_response}
use csi_driver_bs.Client.Request.{do_request, read_response, decode_body, http_request}
use csi_driver_bs.Grpc.{locked, reply, State, status, return, lift, ◌>>=◌}
use csi_driver_bs.Maps.{get_value_from_map}
use csi_driver_bs.Locks.{try_acquire, release}
use csi_driver_bs.Controller.Backend.{Loses}
use csi_driver_bs.Controller.Messages.{mount, CsiVolume, CreateVolumeRequest}
use csi_driver_bs.Controller.Volumes.{
  check_capabilities, volume_size, volume_type_of, source_snapshot, provision, provision_with,
  existing_volume, created_volume, create_volume, create_volume_locked, volume_context,
  delete_volume, delete_volume_locked,
}
use csi_driver_bs.Controller.Backend.Ensures.{Ensured}
use csi_driver_bs.Controller.Backend.Creation.{create_volume-Ensures}
use csi_driver_bs.Controller.Backend.Once.{create_volume_once}
use csi_driver_bs.Controller.Backend.Removed.{deletion, delete_volume-Loses}
use csi_driver_bs.Client.Request.Laws.{Answers}
use csi_driver_bs.Client.Json.{get}
use csi_driver_bs.Tests.Server.{client, driver}
use csi_driver_bs.Tests.Backend.{Slot, v, slot_transport, slot_store}
use csi_driver_bs.Tests.Slot.{slot-IsBackend, slot-IsFinder, slot-IsRemover}

abbrev req : CreateVolumeRequest
req = record {
  name = b'n' ∷ [];
  volume_capabilities = mount (record { fs_type = []; mount_flags = [] }) ∷ [];
  capacity_range = none;
  parameters = [];
  volume_content_source = none;
}

abbrev quiet : Slot → State Slot
quiet slot = record { volume_locks = record { locks = [] }; world = slot }

abbrev made : CsiVolume
made = record {
  volume_id = v;
  capacity_bytes = pos 10737418240;
  volume_context = volume_context (b'n' ∷ []) (str "hiops");
  content_source = none;
}

made_reply :
    create_volume slot_transport driver req (quiet none) ≡ (reply made, quiet (some (b'n' ∷ [])))
unfolding create_volume create_volume_locked check_capabilities volume_size volume_type_of
    source_snapshot provision provision_with created_volume lift return ◌>>=◌
    Client.Volumes.create_volume Client.Volumes.get_volume_by_name volume_request_fields get
    do_request read_response decode_body str text_dec ℕ_discrete Dict.lookup locked try_acquire
    http_request get_value_from_map release Dict.erase Dict.insert
made_reply = refl

-- The volume as `GetVolumeByName` gives it, with no name, type or size.
abbrev found : CsiVolume
found = record {
  volume_id = v;
  capacity_bytes = pos 10737418240;
  volume_context = volume_context [] [];
  content_source = none;
}

found_reply :
    create_volume slot_transport driver req (quiet (some (b'n' ∷ [])))
    ≡ (reply found, quiet (some (b'n' ∷ [])))
unfolding create_volume create_volume_locked check_capabilities volume_size volume_type_of
    source_snapshot provision provision_with existing_volume parse_volume_response lift return ◌>>=◌
    Client.Volumes.create_volume Client.Volumes.get_volume_by_name volume_request_fields get
    do_request read_response decode_body str text_dec ℕ_discrete Dict.lookup locked try_acquire
    http_request get_value_from_map release Dict.erase Dict.insert
found_reply = refl

deleted_reply :
    delete_volume slot_transport driver v (quiet (some (b'n' ∷ []))) ≡ (reply tt, quiet none)
unfolding delete_volume delete_volume_locked return status ◌>>=◌ Client.Volumes.delete_volume
    volume_request_fields get do_request read_response decode_body str text_dec ℕ_discrete
    Dict.lookup locked try_acquire http_request release Dict.erase Dict.insert
deleted_reply = refl

create_volume-Ensures_example :
    Ensured
      (b'n' ∷ [])
      made
      (slot_store none)
      (slot_store (create_volume slot_transport driver req (quiet none)).1.world)
create_volume-Ensures_example =
    create_volume-Ensures slot_transport driver client slot_store slot-IsBackend req (quiet none)
      made refl (ap (λ x. x.0) made_reply)

create_volume_once_example :
    (found.volume_id ≡ made.volume_id)
    × (slot_store (create_volume slot_transport driver req (quiet (some (b'n' ∷ [])))).1.world
        ≡ slot_store (some (b'n' ∷ [])))
unfolding Dict.lookup
create_volume_once_example =
    create_volume_once slot_transport driver client slot_store slot-IsFinder req req (quiet none)
      (quiet (some (b'n' ∷ []))) made found refl (λ i j name h. absurd cc)
      (ap (λ x. x.0) made_reply) refl (ap (λ x. x.1.world) (sym made_reply))
      (ap (λ x. x.0) found_reply)

deletion_answered :
    Answers slot_transport client
      (deletion v)
      (some (b'n' ∷ []))
      none
      (record { status_code = 200; body = ok [] })
unfolding str text_dec ℕ_discrete get http_request
deletion_answered = record { json = b'D' ∷ v; encoded = refl; accepted = refl; sent = refl }

delete_volume-Loses_example :
    Loses v
      (slot_store (some (b'n' ∷ [])))
      (slot_store (delete_volume slot_transport driver v (quiet (some (b'n' ∷ [])))).1.world)
delete_volume-Loses_example =
    delete_volume-Loses slot_transport driver client slot_store slot-IsRemover v [] 200
      (quiet (some (b'n' ∷ []))) none refl deletion_answered (λ h. absurd (h refl))
      (ap (λ x. x.0) deleted_reply)
