-- ===== src/Controller/Backend/Attached.antt =====
-- Where the backend has a volume attached, and what `ControllerPublishVolume` and `NodeStageVolume`
-- make of it together.
use csi_driver_bs.Base.{◌≡◌, ◌≢◌, refl, arith, Option, none, some, [], ok, Result-cases, inl, inr}
use csi_driver_bs.Text.{Text, text_eq, text_dec, str}
use csi_driver_bs.Dict
use csi_driver_bs.Dict.{Dict}
use csi_driver_bs.Client
use csi_driver_bs.Client.Types.{Volume, AttachResult}
use csi_driver_bs.Client.Request.{Client, Transport}
use csi_driver_bs.Driver.{Driver}
use csi_driver_bs.Os.{Os}
use csi_driver_bs.Mounter.{Mounter}
use csi_driver_bs.Mounter.Laws.{IsMounter, KeepsMounts}
use csi_driver_bs.Grpc.{reply, State, locked, return, status, ◌>>=◌}
use csi_driver_bs.Grpc.Keeps.{locked-post}
use csi_driver_bs.Controller.Messages.{ControllerPublishVolumeRequest}
use csi_driver_bs.Controller.Volumes.{volume_busy}
use csi_driver_bs.Controller.Publish.{
  attach, attach_unless_attached, controller_publish_volume_locked, controller_publish_volume,
}
use csi_driver_bs.Node.Messages.{NodeStageVolumeRequest, value_at}
use csi_driver_bs.Node.Stage.{node_stage_volume}
use csi_driver_bs.Node.Mounted.{node_stage_volume-Added}

-- The node that has a volume, and the device there, in a state of the backend.
abbrev pub Attachments : Type 0 → Type 0
Attachments W = W → Text → Option (Text × Text)

-- `attached` tells where the volumes are: a volume with a node is attached there, and so is one that has
-- just been attached.
pub record IsAttacher {W : Type 0} (t : Transport W) (c : Client) (attached : Attachments W)
    : Type 0 where
  pub reported :
      (id : Text) (v : Volume) (w : W)
      → (Client.Volumes.get_volume t c id w).0 ≡ ok v
      → v.node_id ≢ []
      → attached (Client.Volumes.get_volume t c id w).1 id ≡ some (v.node_id, v.device_path)
  pub attaches :
      (id node : Text) (r : AttachResult) (w : W)
      → (Client.Volumes.attach_volume t c id node w).0 ≡ ok r
      → attached (Client.Volumes.attach_volume t c id node w).1 id ≡ some (node, r.device_path)

module _ {W : Type 0} (t : Transport W) (d : Driver) (c : Client) (attached : Attachments W)
    (b : IsAttacher t c attached) where
  attach-Attached :
      (id node : Text) (s : State W) (context : Dict Text Text)
      → (attach t d c id node s).0 ≡ reply context
      → attached (attach t d c id node s).1.world id
        ≡ some (node, value_at (str "devicePath") context)
  unfolding attach return status ◌>>=◌ Dict.lookup str text_dec
  attach-Attached id node s context e =
      elim (Result-cases (Client.Volumes.attach_volume t c id node s.world).0) [
        | inl (r, done) ↦ ground (arith, b.attaches id node r s.world done)
        | inr (x, failed) ↦ absurd (ground arith)
      ]

  attach_unless-Attached :
      (vol : Volume) (id node : Text) (w : W) (s : State W) (context : Dict Text Text)
      → node ≢ []
      → (Client.Volumes.get_volume t c id w).0 ≡ ok vol
      → s.world ≡ (Client.Volumes.get_volume t c id w).1
      → (attach_unless_attached t d c vol id node s).0 ≡ reply context
      → attached (attach_unless_attached t d c vol id node s).1.world id
        ≡ some (node, value_at (str "devicePath") context)
  unfolding attach_unless_attached return status Dict.lookup str text_dec
  attach_unless-Attached vol id node w s context named got same e =
      ground (arith, b.reported id vol w got, attach-Attached id node s context)

  publish_locked-Attached :
      (req : ControllerPublishVolumeRequest) (s : State W) (context : Dict Text Text)
      → d.vcloud_client ≡ some c
      → req.node_id ≢ []
      → (controller_publish_volume_locked t d req s).0 ≡ reply context
      → attached (controller_publish_volume_locked t d req s).1.world req.volume_id
        ≡ some (req.node_id, value_at (str "devicePath") context)
  unfolding controller_publish_volume_locked return status ◌>>=◌
  publish_locked-Attached req s context client named e =
      elim (Result-cases (Client.Volumes.get_volume t c req.volume_id s.world).0) [
        | inl (vol, got) ↦
            let s' : State W = record s {
              world = (Client.Volumes.get_volume t c req.volume_id s.world).1;
            } in
            ground (
              arith,
              attach_unless-Attached vol req.volume_id req.node_id s.world s' context named got
                  refl,
            )
        | inr (x, failed) ↦ absurd (ground arith)
      ]

  locked_publish-Attached :
      (req : ControllerPublishVolumeRequest) (s : State W) (context : Dict Text Text)
      → d.vcloud_client ≡ some c
      → req.node_id ≢ []
      → (locked req.volume_id
          (volume_busy req.volume_id)
          (controller_publish_volume_locked t d req)
          s).0
        ≡ reply context
      → attached
          (locked req.volume_id
            (volume_busy req.volume_id)
            (controller_publish_volume_locked t d req)
            s).1.world
          req.volume_id
        ≡ some (req.node_id, value_at (str "devicePath") context)
  locked_publish-Attached req s context client named e =
      locked-post
        (λ w w'.
          attached w' req.volume_id ≡ some (req.node_id, value_at (str "devicePath") context))
        req.volume_id (volume_busy req.volume_id) (controller_publish_volume_locked t d req) context
        (λ s' e'. publish_locked-Attached req s' context client named e') s e

  publish-Attached :
      (req : ControllerPublishVolumeRequest) (s : State W) (context : Dict Text Text)
      → d.vcloud_client ≡ some c
      → (controller_publish_volume t d req s).0 ≡ reply context
      → attached (controller_publish_volume t d req s).1.world req.volume_id
        ≡ some (req.node_id, value_at (str "devicePath") context)
  unfolding controller_publish_volume status
  publish-Attached req s context client e =
      ground (arith, locked_publish-Attached req s context client)

  -- What the node mounts is the device that the backend has attached: where `ControllerPublishVolume`
  -- replies, and `NodeStageVolume` on the node then replies to a request with the context of that
  -- reply, the backend has the volume attached to the node of the request, and the device that it
  -- names is mounted at the staging path. The backend reports truly where a volume is attached, the
  -- path was not mounted before, the driver of the controller has a client, and the mounter and the
  -- host keep the laws of a mount table.
  pub staged_attached :
      {N : Type 0} (os : Os N) (mo : Mounter N) (d' : Driver) (points : N → Dict Text Text)
      (req : ControllerPublishVolumeRequest) (req' : NodeStageVolumeRequest) (s : State W)
      (s' : State N)
      → IsMounter mo points
      → KeepsMounts os points
      → d.vcloud_client ≡ some c
      → (controller_publish_volume t d req s).0 ≡ reply req'.publish_context
      → Dict.lookup req'.staging_target_path (points s'.world) ≡ none
      → (node_stage_volume os mo d' req' s').0 ≡ reply tt
      → (device : Text) × (attached (controller_publish_volume t d req s).1.world req.volume_id
          ≡ some (req.node_id, device))
        × (Dict.lookup req'.staging_target_path
              (points (node_stage_volume os mo d' req' s').1.world)
            ≡ some device)
  staged_attached os mo d' points req req' s s' m o client published free staged = (
    value_at (str "devicePath") req'.publish_context,
    publish-Attached req s req'.publish_context client published,
    ground (
      arith,
      node_stage_volume-Added os mo d' points m o req' s' staged req'.staging_target_path,
    ),
  )
