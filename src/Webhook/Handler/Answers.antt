-- ===== src/Webhook/Handler/Answers.antt =====
-- What the API server reads in the webhook's answer.
use csi_driver_bs.Base.{◌≡◌, refl, arith, Option, none, some, List, Result, ok, err}
use csi_driver_bs.Text.{Text}
use csi_driver_bs.Webhook.{
  AdmissionRequest, AdmissionResponse, PersistentVolumeClaim, PersistentVolume, CsiSource,
  VolumeAttachment, Cluster, validate,
}
use csi_driver_bs.Webhook.Expansion.{
  Steady, unchecked_or_attached, IsExpansion, validate-any_attached,
}
use csi_driver_bs.Webhook.Handler.{
  AdmissionReview, ReviewCodec, Written, json_body, with_response, handle_validate,
}

abbrev pub response_of : Result Text AdmissionReview → Option AdmissionResponse
response_of (err _) = none
response_of (ok ar) = ar.response

-- The response of a review that is encoded is the one that is decoded.
abbrev pub ReadsBack : ReviewCodec → Type 0
ReadsBack codec =
    (ar : AdmissionReview) (bytes : Text)
    → codec.marshal ar ≡ ok bytes
    → response_of (codec.decode bytes) ≡ ar.response

-- The response that is read in what was written.
abbrev pub response_in : ReviewCodec → Written → Option AdmissionResponse
response_in codec (json_body bytes) = response_of (codec.decode bytes)
response_in codec _ = none

module _ {Q W : Type 0} (cl : Cluster Q W) (codec : ReviewCodec) (reads : ReadsBack codec) where
  handle_validate-response :
      (body : Text) (ar : AdmissionReview) (req : AdmissionRequest) (bytes : Text) (w : W)
      → codec.decode body ≡ ok ar
      → ar.request ≡ some req
      → codec.marshal (with_response ar req (validate cl req w).0) ≡ ok bytes
      → response_in codec (handle_validate cl codec (ok body) w).0
        ≡ some (record (validate cl req w).0 { uid = req.uid })
  unfolding handle_validate
  handle_validate-response body ar req bytes w e f g =
      ground (arith, reads (with_response ar req (validate cl req w).0) bytes g)

  -- The answer to a review of an expansion of a bound volume is a review again, whose response has the
  -- UID of the request and allows it exactly if the volume's driver is not vcloud.csi.vnetwork.dev, or
  -- some attachment of the volume has the status attached. So volumes of any other driver, also of
  -- bs.csi.vnetwork.dev, are let pass unchecked. The API server answers, reads of volumes answer from a
  -- fixed table, and the review can be encoded, by an encoding that keeps responses.
  pub handle_validate-any_attached :
      (volumes : Text → Result Text PersistentVolume) (body : Text) (ar : AdmissionReview)
      (req : AdmissionRequest) (old new : PersistentVolumeClaim Q) (source : CsiSource)
      (vas : List VolumeAttachment) (bytes : Text) (w w' : W)
      → Steady cl volumes
      → codec.decode body ≡ ok ar
      → ar.request ≡ some req
      → codec.marshal (with_response ar req (validate cl req w).0) ≡ ok bytes
      → IsExpansion cl volumes req old new source
      → cl.list_attachments w ≡ (ok vas, w')
      → (r : AdmissionResponse) × (response_in codec (handle_validate cl codec (ok body) w).0
          ≡ some r)
        × (r.uid ≡ req.uid)
        × (r.allowed ≡ unchecked_or_attached volumes source vas)
  handle_validate-any_attached volumes body ar req old new source vas bytes w w' steady e f g h
        listed =
      (
        record (validate cl req w).0 { uid = req.uid },
        handle_validate-response body ar req bytes w e f g,
        refl,
        validate-any_attached cl volumes steady req old new source vas w w' h listed,
      )
