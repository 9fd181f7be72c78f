-- ===== src/Controller/Publish.antt =====
-- `ControllerPublishVolume`, `ControllerUnpublishVolume`, `ValidateVolumeCapabilities` and
-- `ControllerExpandVolume` of pkg/vcloud/controllerserver.go.
use csi_driver_bs.Base.{
  Bool, true, false, ◌&&◌, not, Option, none, some, List, [], ◌∷◌, ◌++◌, ok, err, ◌==◌,
  if◌then◌else◌,
}
use csi_driver_bs.Base.Int.{ℤ, pos, ltb_ℤ, leb_ℤ, eqb_ℤ}
use csi_driver_bs.Text.{Text, text_eq, str, is_empty}
use csi_driver_bs.Text.Contains.{contains}
use csi_driver_bs.Dict.{Dict}
use csi_driver_bs.Driver.{Driver}
use csi_driver_bs.Client
use csi_driver_bs.Client.Errors.{is_not_found_error}
use csi_driver_bs.Client.Types.{Volume}
use csi_driver_bs.Client.Request.{Client, Transport}
use csi_driver_bs.Grpc.{
  invalid_argument, not_found, failed_precondition, internal, Handler, return, status, call, unless,
  locked, ◌>>=◌,
}
use csi_driver_bs.Controller.Messages.{
  VolumeCapability, block, mount, unset, CapacityRange, ControllerPublishVolumeRequest,
  ControllerUnpublishVolumeRequest, ValidateVolumeCapabilitiesRequest,
  ValidateVolumeCapabilitiesResponse, ControllerExpandVolumeRequest, ControllerExpandVolumeResponse,
}
use csi_driver_bs.Controller.Volumes.{volume_busy, no_capabilities}

abbrev pub publish_context : Text → Dict Text Text
publish_context device_path = (str "devicePath", device_path) ∷ []

abbrev volume_not_found : Text → Text
volume_not_found volume_id = str "volume " ++ (volume_id ++ str " not found")

abbrev missing {ℓ} : {A : Type ℓ} → Option A → Bool
missing none = true
missing (some _) = false

abbrev pub expand_reply : ℤ → ControllerExpandVolumeResponse
expand_reply size = record { capacity_bytes = size; node_expansion_required = true }

abbrev pub any_block : List VolumeCapability → Bool
any_block [] = false
any_block (block ∷ _) = true
any_block (mount _ ∷ caps) = any_block caps
any_block (unset ∷ caps) = any_block caps

-- The loop over the capabilities, and the reply.
unfoldable pub confirm_capabilities : List VolumeCapability → ValidateVolumeCapabilitiesResponse
confirm_capabilities caps =
    if any_block caps
    then record { confirmed = none; message = str "block volume not supported" }
    else record { confirmed = some caps; message = [] }

module _ {W : Type 0} (t : Transport W) (d : Driver) where
  -- "Attach volume".
  unfoldable pub attach : Client → Text → Text → Handler W (Dict Text Text)
  attach c volume_id node_id = do
    r ← call (Client.Volumes.attach_volume t c volume_id node_id)
    elim r [
      | err e ↦ status internal (str "failed to attach volume: " ++ e)
      | ok result ↦ return (publish_context result.device_path)
    ]

  -- The two checks on the node that the volume is attached to, then the attachment.
  unfoldable pub attach_unless_attached : Client → Volume → Text → Text → Handler W (Dict Text Text)
  attach_unless_attached c vol volume_id node_id =
      if vol.node_id == node_id
      then return (publish_context vol.device_path)
      else if not (is_empty vol.node_id) && not (vol.node_id == node_id)
      then status failed_precondition
          (str "volume " ++ (volume_id ++ (str " already attached to node " ++ vol.node_id)))
      else attach c volume_id node_id

  unfoldable pub controller_publish_volume_locked :
      ControllerPublishVolumeRequest → Handler W (Dict Text Text)
  controller_publish_volume_locked req = elim d.vcloud_client [
    | none ↦ return (publish_context (str "/dev/vdb"))
    | some c ↦ do
      r ← call (Client.Volumes.get_volume t c req.volume_id)
      elim r [
        | ok vol ↦ attach_unless_attached c vol req.volume_id req.node_id
        | err e ↦
            if is_not_found_error e
            then status not_found (volume_not_found req.volume_id)
            else status internal (str "failed to get volume: " ++ e)
      ]
  ]

  unfoldable pub controller_publish_volume :
      ControllerPublishVolumeRequest → Handler W (Dict Text Text)
  controller_publish_volume req =
      unless (is_empty req.volume_id) invalid_argument
        (str "ControllerPublishVolume volume ID must be provided")
        (unless (is_empty req.node_id) invalid_argument
          (str "ControllerPublishVolume node ID must be provided")
          (unless (missing req.volume_capability) invalid_argument
            (str "ControllerPublishVolume volume capability must be provided")
            (locked req.volume_id (volume_busy req.volume_id)
              (controller_publish_volume_locked req))))

  unfoldable pub controller_unpublish_volume_locked :
      ControllerUnpublishVolumeRequest → Handler W (Unit {0})
  controller_unpublish_volume_locked req = elim d.vcloud_client [
    | none ↦ return tt
    | some c ↦ do
      r ← call (Client.Volumes.detach_volume t c req.volume_id req.node_id)
      elim r [
        | ok _ ↦ return tt
        | err e ↦
            if is_not_found_error e
            then return tt
            else status internal (str "failed to detach volume: " ++ e)
      ]
  ]

  unfoldable pub controller_unpublish_volume :
      ControllerUnpublishVolumeRequest → Handler W (Unit {0})
  controller_unpublish_volume req =
      unless (is_empty req.volume_id) invalid_argument
        (str "ControllerUnpublishVolume volume ID must be provided")
        (locked req.volume_id (volume_busy req.volume_id) (controller_unpublish_volume_locked req))

  unfoldable pub validate_volume_capabilities :
      ValidateVolumeCapabilitiesRequest → Handler W ValidateVolumeCapabilitiesResponse
  validate_volume_capabilities req =
      unless (is_empty req.volume_id) invalid_argument
        (str "ValidateVolumeCapabilities volume ID must be provided")
        (unless (no_capabilities req.volume_capabilities) invalid_argument
          (str "ValidateVolumeCapabilities volume capabilities must be provided")
          (elim d.vcloud_client [
            | none ↦ return (confirm_capabilities req.volume_capabilities)
            | some c ↦ do
              r ← call (Client.Volumes.get_volume t c req.volume_id)
              elim r [
                | ok _ ↦ return (confirm_capabilities req.volume_capabilities)
                | err e ↦
                    if is_not_found_error e
                    then status not_found (volume_not_found req.volume_id)
                    else status internal (str "failed to get volume: " ++ e)
              ]
          ]))

  -- "Expand volume in backend".
  unfoldable pub expand : Client → Text → ℤ → Handler W ControllerExpandVolumeResponse
  expand c volume_id new_size = do
    r ← call (Client.Volumes.expand_volume t c volume_id new_size)
    elim r [
      | ok vol ↦
          return (expand_reply (if eqb_ℤ vol.size_bytes (pos 0) then new_size else vol.size_bytes))
      | err e ↦
          if contains e (str "CannotExpandUnattachedVolume")
          then status failed_precondition (
              str "volume "
              ++ (volume_id
                  ++ str " must be attached to a running workload before it can be expanded"))
          else status internal (str "failed to expand volume: " ++ e)
    ]

  unfoldable pub controller_expand_volume_locked :
      Text → ℤ → Handler W ControllerExpandVolumeResponse
  controller_expand_volume_locked volume_id new_size = elim d.vcloud_client [
    | none ↦ return (expand_reply new_size)
    | some c ↦ do
      r ← call (Client.Volumes.get_volume t c volume_id)
      elim r [
        | ok vol ↦
            if ltb_ℤ (pos 0) vol.size_bytes && leb_ℤ new_size vol.size_bytes
            then return (expand_reply vol.size_bytes)
            else expand c volume_id new_size
        | err e ↦
            if is_not_found_error e
            then status not_found (volume_not_found volume_id)
            else expand c volume_id new_size
      ]
  ]

  -- With the capacity range of the request, which must be there.
  unfoldable pub expand_to : Text → Option CapacityRange → Handler W ControllerExpandVolumeResponse
  expand_to volume_id none =
      status invalid_argument (str "ControllerExpandVolume capacity range must be provided")
  expand_to volume_id (some range) =
      unless (leb_ℤ range.required_bytes (pos 0)) invalid_argument
        (str "ControllerExpandVolume required bytes must be positive")
        (locked volume_id (volume_busy volume_id)
          (controller_expand_volume_locked volume_id range.required_bytes))

  unfoldable pub controller_expand_volume :
      ControllerExpandVolumeRequest → Handler W ControllerExpandVolumeResponse
  controller_expand_volume req =
      unless (is_empty req.volume_id) invalid_argument
        (str "ControllerExpandVolume volume ID must be provided")
        (expand_to req.volume_id req.capacity_range)
