-- ===== src/Controller/Existing.antt =====
-- The idempotency check of `CreateVolume`.
use csi_driver_bs.Base.{◌≡◌, ◌≢◌, ◌⊎◌, none, some, [], ok, arith, ap}
use csi_driver_bs.Base.Int.{ℤ, pos}
use csi_driver_bs.Text.{Text, text_eq}
use csi_driver_bs.Dict
use csi_driver_bs.Locks.Laws.{with_lock}
use csi_driver_bs.Driver.{Driver}
use csi_driver_bs.Client.Types.{
  Volume, VolumeResponse, volume_response_fields, perform_get_volume, volume_request,
  volume_request_fields,
}
use csi_driver_bs.Client.Request.{Client, Transport, post}
use csi_driver_bs.Client.RoundTrip.{parse_volume_exact}
use csi_driver_bs.Client.Volumes.{parse_volume_response, get_volume_by_name}
use csi_driver_bs.Grpc.{reply, State, return, status, ◌>>=◌}
use csi_driver_bs.Grpc.Keeps.{locked_free}
use csi_driver_bs.Controller.Messages.{CreateVolumeRequest, CsiVolume}
use csi_driver_bs.Controller.Volumes.{
  check_capabilities, volume_size, volume_busy, volume_context, existing_volume, provision,
  provision_with, source_snapshot, create_volume_locked, create_volume, volume_type_of,
}

-- The reply for the volume that the backend has under the name.
abbrev pub same_volume : VolumeResponse → ℤ → CsiVolume
same_volume r size = record {
  volume_id = r.id;
  capacity_bytes = size;
  volume_context = volume_context r.name r.volume_type;
  content_source = none;
}

-- The size that the backend reports allows the reply.
abbrev pub Agrees : VolumeResponse → ℤ → Type 0
Agrees r size = (r.capacity ≡ pos 0) ⊎ (r.capacity ≡ size)

-- What makes a request for a new, empty volume acceptable.
pub record IsAcceptable (req : CreateVolumeRequest) (size : ℤ) : Type 0 where
  pub named : req.name ≢ []
  pub capable : req.volume_capabilities ≢ []
  pub checked : check_capabilities req.volume_capabilities ≡ reply tt
  pub sized : volume_size req.capacity_range ≡ reply size
  pub empty : req.volume_content_source ≡ none

module _ {W : Type 0} (t : Transport W) (d : Driver) where
  -- The backend answers GET_VOLUME by this name with this volume.
  pub record Named (c : Client) (name : Text) (r : VolumeResponse) (w w' : W) : Type 0 where
    pub answered :
        post t c
          (volume_request_fields (record (volume_request perform_get_volume) { name = name }))
          w
        ≡ (ok (volume_response_fields r), w')
    pub has_id : r.id ≢ []

  get_volume_by_name-Named :
      (c : Client) (name : Text) (r : VolumeResponse) (w w' : W)
      → Named c name r w w'
      → get_volume_by_name t c name w
        ≡ (ok (some (parse_volume_response (volume_response_fields r))), w')
  unfolding get_volume_by_name
  get_volume_by_name-Named c name r w w' h =
      ground (arith, h.answered, h.has_id, ap (λ (v : Volume). v.id) (parse_volume_exact r))

  existing_volume-same :
      (name : Text) (size : ℤ) (r : VolumeResponse) (s : State W)
      → Agrees r size
      → existing_volume t d name size (parse_volume_response (volume_response_fields r)) s
        ≡ (reply (same_volume r size), s)
  unfolding existing_volume return status
  existing_volume-same name size r s h = rw parse_volume_exact (ground arith)

  provision-same :
      (c : Client) (name : Text) (size : ℤ) (vt sid : Text) (r : VolumeResponse) (s : State W)
      (w : W)
      → Named c name r s.world w
      → Agrees r size
      → provision t d c name size vt sid s ≡ (reply (same_volume r size), record s { world = w })
  unfolding provision ◌>>=◌
  provision-same c name size vt sid r s w h agrees =
      rw (get_volume_by_name-Named c name r s.world w h)
        (existing_volume-same name size r (record s { world = w }) agrees)

  create_locked-same :
      (c : Client) (req : CreateVolumeRequest) (size : ℤ) (r : VolumeResponse) (s : State W) (w : W)
      → d.vcloud_client ≡ some c
      → IsAcceptable req size
      → Named c req.name r s.world w
      → Agrees r size
      → create_volume_locked t d req s ≡ (reply (same_volume r size), record s { world = w })
  unfolding create_volume_locked provision_with source_snapshot ◌>>=◌
  create_locked-same c req size r s w client ok_req h agrees = ground (
    arith,
    ok_req.checked,
    ok_req.sized,
    ok_req.empty,
    provision-same c req.name size (volume_type_of req.parameters) [] r s w h agrees,
  )

  -- `CreateVolume` is idempotent: where the backend has a volume of the requested name, and reports
  -- the requested size or none, an acceptable request is answered with that volume's ID and the
  -- requested size, and the only request made is the one for the volume, so nothing is created.
  -- The name is not locked.
  pub create_volume_again :
      (c : Client) (req : CreateVolumeRequest) (size : ℤ) (r : VolumeResponse) (s : State W) (w : W)
      → d.vcloud_client ≡ some c
      → IsAcceptable req size
      → Dict.lookup req.name s.volume_locks.locks ≡ none
      → Named c req.name r s.world w
      → Agrees r size
      → create_volume t d req s ≡ (reply (same_volume r size), record s { world = w })
  unfolding create_volume
  create_volume_again c req size r s w client ok_req free h agrees = ground (
    arith,
    ok_req.named,
    ok_req.capable,
    locked_free req.name (volume_busy req.name) (create_volume_locked t d req) s
        (reply (same_volume r size)) w free
        (create_locked-same c req size r
          (record s { volume_locks = with_lock req.name s.volume_locks }) w client ok_req h agrees),
  )
