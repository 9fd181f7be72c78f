-- ===== src/Webhook.antt =====
-- The admission webhook of cmd/pvc-expand-webhook/main.go, which refuses to expand a claim whose
-- volume is not attached. The Kubernetes API, the decoding of claims and the order of quantities are
-- parameters.
pub mod Expansion
pub mod Handler
pub mod Process
use csi_driver_bs.Base.{
  ℕ, ◌&&◌, ◌||◌, not, Bool, true, false, Option, none, some, List, [], ◌∷◌, ◌++◌, Result, ok, err,
  ◌==◌, if◌then◌else◌,
}
use csi_driver_bs.Base.Int.{ℤ, pos, leb_ℤ}
use csi_driver_bs.Text.{Text, text_eq, str, is_empty}

pub record AdmissionRequest : Type 0 where
  pub uid : Text
  pub kind : Text
  pub operation : Text
  pub namespace : Text
  pub name : Text
  pub old_object : Text
  pub object : Text

pub record Status : Type 0 where
  pub code : ℕ
  pub message : Text

pub record AdmissionResponse : Type 0 where
  pub uid : Text
  pub allowed : Bool
  pub result : Option Status

-- A claim, with its quantity of storage requested.
pub record PersistentVolumeClaim (Q : Type 0) : Type 0 where
  pub storage : Q
  pub phase : Text
  pub volume_name : Text

pub record CsiSource : Type 0 where
  pub driver : Text
  pub volume_handle : Text

pub record PersistentVolume : Type 0 where
  pub csi : Option CsiSource

pub record VolumeAttachment : Type 0 where
  pub persistent_volume_name : Option Text
  pub attached : Bool

-- `json.Unmarshal` and `Quantity.Cmp`, and the requests to the API server, over its state `W`.
pub record Cluster (Q W : Type 0) : Type 0 where
  pub decode_claim : Text → Result Text (PersistentVolumeClaim Q)
  pub cmp : Q → Q → ℤ
  pub get_volume : Text → W → Result Text PersistentVolume × W
  pub list_attachments : W → Result Text (List VolumeAttachment) × W

abbrev pub allow : AdmissionResponse
allow = record { uid = []; allowed = true; result = none }

abbrev pub forbid : Text → AdmissionResponse
forbid message = record {
  uid = [];
  allowed = false;
  result = some (record { code = 403; message = message });
}

-- `pv.Spec.CSI != nil && pv.Spec.CSI.VolumeHandle == volumeHandle`
abbrev pub has_handle : Text → Result Text PersistentVolume → Bool
has_handle volume_handle (err e) = false
has_handle volume_handle (ok pv) = elim pv.csi [
  | none ↦ false
  | some source ↦ source.volume_handle == volume_handle
]

module _ {Q W : Type 0} (cl : Cluster Q W) where
  -- The loop over the attachments.
  unfoldable pub attached_in : Text → List VolumeAttachment → W → Bool × W
  attached_in volume_handle [] w = (false, w)
  attached_in volume_handle (va ∷ vas) w =
      let rest = attached_in volume_handle vas in
      elim va.persistent_volume_name [
        | none ↦ rest w
        | some name ↦
            let (pv, w') = cl.get_volume name w in
            if has_handle volume_handle pv && va.attached then (true, w') else rest w'
      ]

  unfoldable pub is_volume_attached : Text → W → Result Text Bool × W
  is_volume_attached volume_handle w =
      let (r, w') = cl.list_attachments w in
      elim r [
        | err e ↦ (err (str "failed to list VolumeAttachments: " ++ e), w')
        | ok vas ↦ let (found, w'') = attached_in volume_handle vas w' in (ok found, w'')
      ]

  -- "Check if volume is attached".
  unfoldable pub validate_attached : Text → W → AdmissionResponse × W
  validate_attached volume_handle w =
      let (r, w') = is_volume_attached volume_handle w in
      elim r [
        | err e ↦ (allow, w')
        | ok attached ↦
            if not attached
            then (
              forbid (
                  str "volume must be attached to a running workload before it can be expanded. "
                  ++ str "Create a Pod using this PVC first."),
              w',
            )
            else (allow, w')
      ]

  -- "Get PV to find volume handle".
  unfoldable pub validate_volume : Text → W → AdmissionResponse × W
  validate_volume pv_name w =
      let (r, w') = cl.get_volume pv_name w in
      elim r [
        | err e ↦ (allow, w')
        | ok pv ↦ elim pv.csi [
          | none ↦ (allow, w')
          | some source ↦
              if not (source.driver == str "vcloud.csi.vnetwork.dev")
              then (allow, w')
              else validate_attached source.volume_handle w'
        ]
      ]

  -- From "Check if this is a resize request".
  unfoldable pub validate_claims :
      AdmissionRequest
      → PersistentVolumeClaim Q
      → PersistentVolumeClaim Q
      → W
      → AdmissionResponse × W
  validate_claims req old new w =
      if leb_ℤ (cl.cmp new.storage old.storage) (pos 0)
      then (allow, w)
      else if not (old.phase == str "Bound")
      then (
        forbid (
            str "PVC "
            ++ (req.namespace ++ (str "/" ++ (req.name ++ str " is not bound to a volume")))),
        w,
      )
      else if is_empty old.volume_name
      then (allow, w)
      else validate_volume old.volume_name w

  unfoldable pub validate : AdmissionRequest → W → AdmissionResponse × W
  validate req w =
      if not (req.kind == str "PersistentVolumeClaim") || not (req.operation == str "UPDATE")
      then (allow, w)
      else elim (cl.decode_claim req.old_object) [
        | err e ↦ (allow, w)
        | ok old ↦ elim (cl.decode_claim req.object) [
          | err e ↦ (allow, w)
          | ok new ↦ validate_claims req old new w
        ]
      ]
