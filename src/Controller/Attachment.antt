-- ===== src/Controller/Attachment.antt =====
-- What `ControllerPublishVolume` and `ControllerExpandVolume` promise about a volume that the backend
-- reports.
use csi_driver_bs.Base.{
  ◌≡◌, ◌≢◌, true, Option, none, some, [], ◌++◌, ok, arith, ◌==◌, if◌then◌else◌,
}
use csi_driver_bs.Base.Int.{ℤ, pos, ◌≤ℤ◌, ◌<ℤ◌}
use csi_driver_bs.Text.{Text, text_eq, str}
use csi_driver_bs.Dict
use csi_driver_bs.Locks.Laws.{with_lock}
use csi_driver_bs.Driver.{Driver}
use csi_driver_bs.Client
use csi_driver_bs.Client.Types.{Volume}
use csi_driver_bs.Client.Request.{Client, Transport}
use csi_driver_bs.Grpc.{Rpc, reply, fail, failed_precondition, State, status, ◌>>=◌}
use csi_driver_bs.Grpc.Keeps.{locked_free, locked-reply}
use csi_driver_bs.Controller.Messages.{
  VolumeCapability, CapacityRange, ControllerPublishVolumeRequest, ControllerExpandVolumeRequest,
  ControllerExpandVolumeResponse,
}
use csi_driver_bs.Controller.Volumes.{volume_busy}
use csi_driver_bs.Controller.Publish.{
  attach_unless_attached, controller_publish_volume_locked, controller_publish_volume, expand,
  controller_expand_volume_locked, expand_to, controller_expand_volume, expand_reply,
  publish_context,
}

-- The outcome for a volume that is attached already: its device path for the node that has it,
-- a refusal for every other node.
abbrev pub publish_attached_outcome :
    Volume → ControllerPublishVolumeRequest → Rpc (Dict.Dict Text Text)
publish_attached_outcome vol req =
    if vol.node_id == req.node_id
    then reply (publish_context vol.device_path)
    else fail failed_precondition
        (str "volume " ++ (req.volume_id ++ (str " already attached to node " ++ vol.node_id)))

module _ {W : Type 0} (t : Transport W) (d : Driver) where
  publish_locked_attached :
      (c : Client) (vol : Volume) (req : ControllerPublishVolumeRequest) (s : State W) (w : W)
      → d.vcloud_client ≡ some c
      → vol.node_id ≢ []
      → Client.Volumes.get_volume t c req.volume_id s.world ≡ (ok vol, w)
      → controller_publish_volume_locked t d req s
        ≡ (publish_attached_outcome vol req, record s { world = w })
  unfolding controller_publish_volume_locked attach_unless_attached ◌>>=◌
  publish_locked_attached c vol req s w client attached found = ground arith

  -- A volume that the backend reports attached is never attached again: after the backend's answer
  -- no further request is made, the node that has the volume gets its device path, and any other
  -- node is refused with `FailedPrecondition`. The request has all its fields and its volume is not
  -- locked.
  pub publish_attached :
      (c : Client) (vol : Volume) (req : ControllerPublishVolumeRequest) (cap : VolumeCapability)
      (s : State W) (w : W)
      → d.vcloud_client ≡ some c
      → req.volume_id ≢ []
      → req.node_id ≢ []
      → req.volume_capability ≡ some cap
      → Dict.lookup req.volume_id s.volume_locks.locks ≡ none
      → Client.Volumes.get_volume t c req.volume_id s.world ≡ (ok vol, w)
      → vol.node_id ≢ []
      → controller_publish_volume t d req s
        ≡ (publish_attached_outcome vol req, record s { world = w })
  unfolding controller_publish_volume
  publish_attached c vol req cap s w client id node capability free found attached = ground (
    arith,
    locked_free req.volume_id (volume_busy req.volume_id) (controller_publish_volume_locked t d req)
        s (publish_attached_outcome vol req) w free
        (publish_locked_attached c vol req
          (record s { volume_locks = with_lock req.volume_id s.volume_locks }) w client attached
          found),
  )

  expand_locked-ne-zero :
      (k : Text) (size : ℤ) (s : State W) (r : ControllerExpandVolumeResponse)
      → pos 0 <ℤ size
      → (controller_expand_volume_locked t d k size s).0 ≡ reply r
      → (r.capacity_bytes ≢ pos 0) × (r.node_expansion_required ≡ true)
  unfolding controller_expand_volume_locked expand ◌>>=◌
  expand_locked-ne-zero k size s r positive e = ground arith

  expand_to-ne-zero :
      (k : Text) (o : Option CapacityRange) (s : State W) (r : ControllerExpandVolumeResponse)
      → (expand_to t d k o s).0 ≡ reply r
      → (r.capacity_bytes ≢ pos 0) × (r.node_expansion_required ≡ true)
  unfolding expand_to status
  expand_to-ne-zero k none s r e = cc
  expand_to-ne-zero k (some range) s r e =
      expand_locked-ne-zero k range.required_bytes
        (record s { volume_locks = with_lock k s.volume_locks }) r (ground arith)
        (locked-reply k (volume_busy k) (controller_expand_volume_locked t d k range.required_bytes)
          s r (ground arith))

  -- Whatever the backend answers, a reply of `ControllerExpandVolume` has a capacity other than 0 and
  -- asks for the expansion on the node.
  pub expand_reply-ne-zero :
      (req : ControllerExpandVolumeRequest) (s : State W) (r : ControllerExpandVolumeResponse)
      → (controller_expand_volume t d req s).0 ≡ reply r
      → (r.capacity_bytes ≢ pos 0) × (r.node_expansion_required ≡ true)
  unfolding controller_expand_volume status
  expand_reply-ne-zero req s r e =
      expand_to-ne-zero req.volume_id req.capacity_range s r (ground arith)

  expand_locked_enough :
      (c : Client) (vol : Volume) (k : Text) (size : ℤ) (s : State W) (w : W)
      → d.vcloud_client ≡ some c
      → pos 0 <ℤ size
      → size ≤ℤ vol.size_bytes
      → Client.Volumes.get_volume t c k s.world ≡ (ok vol, w)
      → controller_expand_volume_locked t d k size s
        ≡ (reply (expand_reply vol.size_bytes), record s { world = w })
  unfolding controller_expand_volume_locked ◌>>=◌
  expand_locked_enough c vol k size s w client positive enough found = ground arith

  -- A volume that is large enough is not resized: after the backend has reported it no further
  -- request is made, and the reply has the size that was reported. The request has all its fields and
  -- its volume is not locked.
  pub expand_enough :
      (c : Client) (vol : Volume) (req : ControllerExpandVolumeRequest) (range : CapacityRange)
      (s : State W) (w : W)
      → d.vcloud_client ≡ some c
      → req.volume_id ≢ []
      → req.capacity_range ≡ some range
      → pos 0 <ℤ range.required_bytes
      → Dict.lookup req.volume_id s.volume_locks.locks ≡ none
      → Client.Volumes.get_volume t c req.volume_id s.world ≡ (ok vol, w)
      → range.required_bytes ≤ℤ vol.size_bytes
      → controller_expand_volume t d req s
        ≡ (reply (expand_reply vol.size_bytes), record s { world = w })
  unfolding controller_expand_volume expand_to
  expand_enough c vol req range s w client id given positive free found enough = ground (
    arith,
    locked_free req.volume_id (volume_busy req.volume_id)
        (controller_expand_volume_locked t d req.volume_id range.required_bytes) s
        (reply (expand_reply vol.size_bytes)) w free
        (expand_locked_enough c vol req.volume_id range.required_bytes
          (record s { volume_locks = with_lock req.volume_id s.volume_locks }) w client positive
          enough found),
  )
