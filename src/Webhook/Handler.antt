-- ===== src/Webhook/Handler.antt =====
-- `handleValidate` of cmd/pvc-expand-webhook/main.go. The decoder of reviews and the encoder are
-- parameters, and so is what `io.ReadAll` makes of a request's body.
pub mod Answers
use csi_driver_bs.Base.{ℕ, Option, none, some, Result, ok, err}
use csi_driver_bs.Text.{Text, str}
use csi_driver_bs.Webhook.{AdmissionRequest, AdmissionResponse, Cluster, validate}

pub record AdmissionReview : Type 0 where
  pub api_version : Text
  pub kind : Text
  pub request : Option AdmissionRequest
  pub response : Option AdmissionResponse

-- `codecs.UniversalDeserializer().Decode` into a review, and `json.Marshal` of one.
pub record ReviewCodec : Type 0 where
  pub decode : Text → Result Text AdmissionReview
  pub marshal : AdmissionReview → Result Text Text

-- What the handler writes: the answer of `http.Error`, or a body of JSON with status 200. A handler
-- that panics writes nothing.
pub data Written : Type 0 where
  http_error : Text → ℕ → Written
  json_body : Text → Written
  panicked : Written

-- "Send response".
abbrev send_response : ReviewCodec → AdmissionReview → Written
send_response codec ar = elim (codec.marshal ar) [
  | err _ ↦ http_error (str "Failed to marshal response") 500
  | ok bytes ↦ json_body bytes
]

-- The review with the response to its request.
abbrev pub with_response : AdmissionReview → AdmissionRequest → AdmissionResponse → AdmissionReview
with_response ar req resp = record ar { response = some (record resp { uid = req.uid }) }

module _ {Q W : Type 0} (cl : Cluster Q W) (codec : ReviewCodec) where
  -- From "Process the request". A review with no request is a nil pointer that `validate` reads.
  abbrev review : AdmissionReview → W → Written × W
  review ar w = elim ar.request [
    | none ↦ (panicked, w)
    | some req ↦
        let (resp, w') = validate cl req w in (send_response codec (with_response ar req resp), w')
  ]

  unfoldable pub handle_validate : Result Text Text → W → Written × W
  handle_validate (err _) w = (http_error (str "Failed to read request") 400, w)
  handle_validate (ok body) w = elim (codec.decode body) [
    | err _ ↦ (http_error (str "Failed to decode request") 400, w)
    | ok ar ↦ review ar w
  ]
