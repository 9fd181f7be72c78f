-- ===== src/Webhook/Expansion.antt =====
-- Which expansions the webhook lets pass.
use csi_driver_bs.Base.{
  ◌&&◌, ◌||◌, not, ◌==◌, Bool, false, ◌≡◌, ◌≢◌, refl, arith, Option, none, some, List, [], ◌∷◌,
  Result, ok, Option-cases, inl, inr,
}
use csi_driver_bs.Base.Int.{pos, ◌<ℤ◌}
use csi_driver_bs.Text.{Text, text_eq, str}
use csi_driver_bs.Webhook.{
  AdmissionRequest, PersistentVolumeClaim, PersistentVolume, CsiSource, VolumeAttachment, Cluster,
  has_handle, attached_in, is_volume_attached, validate_attached, validate_volume, validate_claims,
  validate,
}

-- Reading a volume answers from a fixed table and changes nothing.
abbrev pub Steady : {Q W : Type 0} → Cluster Q W → (Text → Result Text PersistentVolume) → Type 0
Steady {Q} {W} cl volumes = (name : Text) (w : W) → cl.get_volume name w ≡ (volumes name, w)

abbrev pub has_volume : (Text → Result Text PersistentVolume) → Text → Option Text → Bool
has_volume volumes volume_handle none = false
has_volume volumes volume_handle (some name) = has_handle volume_handle (volumes name)

-- Some attachment of a volume with this handle has the status attached.
abbrev pub any_attached :
    (Text → Result Text PersistentVolume) → Text → List VolumeAttachment → Bool
any_attached volumes volume_handle [] = false
any_attached volumes volume_handle (va ∷ vas) =
    (va.attached && has_volume volumes volume_handle va.persistent_volume_name)
    || any_attached volumes volume_handle vas

-- An update of a claim that asks for more storage, of a bound volume of a CSI driver.
pub record IsExpansion {Q W : Type 0} (cl : Cluster Q W)
    (volumes : Text → Result Text PersistentVolume) (req : AdmissionRequest)
    (old new : PersistentVolumeClaim Q) (source : CsiSource) : Type 0 where
  pub of_claim : req.kind ≡ str "PersistentVolumeClaim"
  pub update : req.operation ≡ str "UPDATE"
  pub decoded_old : cl.decode_claim req.old_object ≡ ok old
  pub decoded_new : cl.decode_claim req.object ≡ ok new
  pub larger : pos 0 <ℤ cl.cmp new.storage old.storage
  pub bound : old.phase ≡ str "Bound"
  pub named : old.volume_name ≢ []
  pub found : volumes old.volume_name ≡ ok (record { csi = some source })

-- What the webhook goes by: the volume is of another driver than the one that it checks, or attached.
abbrev pub unchecked_or_attached :
    (Text → Result Text PersistentVolume) → CsiSource → List VolumeAttachment → Bool
unchecked_or_attached volumes source vas =
    not (source.driver == str "vcloud.csi.vnetwork.dev")
    || any_attached volumes source.volume_handle vas

module _ {Q W : Type 0} (cl : Cluster Q W) (volumes : Text → Result Text PersistentVolume)
    (steady : Steady cl volumes) where
  attached_in-any :
      (volume_handle : Text) (vas : List VolumeAttachment) (w : W)
      → attached_in cl volume_handle vas w ≡ (any_attached volumes volume_handle vas, w)
  unfolding attached_in
  attached_in-any volume_handle [] w = refl
  attached_in-any volume_handle (va ∷ vas) w = elim (Option-cases va.persistent_volume_name) [
    | inl e ↦ ground (arith, attached_in-any volume_handle vas w)
    | inr (name, e) ↦ ground (arith, steady name w, attached_in-any volume_handle vas w)
  ]

  validate_attached-any :
      (volume_handle : Text) (vas : List VolumeAttachment) (w w' : W)
      → cl.list_attachments w ≡ (ok vas, w')
      → (validate_attached cl volume_handle w).0.allowed ≡ any_attached volumes volume_handle vas
  unfolding validate_attached is_volume_attached
  validate_attached-any volume_handle vas w w' h =
      ground (arith, attached_in-any volume_handle vas w')

  validate_volume-any :
      (name : Text) (source : CsiSource) (vas : List VolumeAttachment) (w w' : W)
      → volumes name ≡ ok (record { csi = some source })
      → cl.list_attachments w ≡ (ok vas, w')
      → (validate_volume cl name w).0.allowed ≡ unchecked_or_attached volumes source vas
  unfolding validate_volume
  validate_volume-any name source vas w w' found h =
      ground (arith, steady name w, validate_attached-any source.volume_handle vas w w' h)

  -- The webhook allows an expansion of a bound volume exactly when the volume's driver is not
  -- vcloud.csi.vnetwork.dev, or some attachment of a volume with its handle has the status attached,
  -- where the API server answers, and reads of volumes answer from a fixed table.
  pub validate-any_attached :
      (req : AdmissionRequest) (old new : PersistentVolumeClaim Q) (source : CsiSource)
      (vas : List VolumeAttachment) (w w' : W)
      → IsExpansion cl volumes req old new source
      → cl.list_attachments w ≡ (ok vas, w')
      → (validate cl req w).0.allowed ≡ unchecked_or_attached volumes source vas
  unfolding validate validate_claims
  validate-any_attached req old new source vas w w' h listed = ground (
    arith,
    h.of_claim,
    h.update,
    h.decoded_old,
    h.decoded_new,
    h.larger,
    h.bound,
    h.named,
    validate_volume-any old.volume_name source vas w w' h.found listed,
  )
