-- ===== src/Tests/Webhook.antt =====
-- The webhook's theorem at a concrete request: a claim that grows while its volume is attached.
use csi_driver_bs.Base.{
  ℕ, ◌≡◌, refl, arith, true, false, Option, none, some, [], ◌∷◌, Bool, eqb, if◌then◌else◌, Result,
  ok, err,
}
use csi_driver_bs.Base.Int.{sub_ℕ}
use native.Mathlib.Decide.{ℕ_discrete}
use csi_driver_bs.Text.{Text, text_dec, str}
use csi_driver_bs.Webhook.{
  AdmissionRequest, AdmissionResponse, Status, PersistentVolumeClaim, PersistentVolume, CsiSource,
  VolumeAttachment, Cluster, validate, validate_claims, validate_volume, validate_attached,
  is_volume_attached, attached_in,
}
use csi_driver_bs.Webhook.Expansion.{IsExpansion}
use csi_driver_bs.Webhook.Handler.{ReviewCodec, with_response, handle_validate}
use csi_driver_bs.Webhook.Handler.Answers.{ReadsBack, response_in, handle_validate-any_attached}

abbrev growing : AdmissionRequest
growing = record {
  uid = b'u' ∷ [];
  kind = str "PersistentVolumeClaim";
  operation = str "UPDATE";
  namespace = [];
  name = [];
  old_object = [];
  object = 1 ∷ [];
}

abbrev claim : ℕ → PersistentVolumeClaim ℕ
claim storage = record { storage = storage; phase = str "Bound"; volume_name = b'p' ∷ [] }

abbrev source : CsiSource
source = record { driver = str "vcloud.csi.vnetwork.dev"; volume_handle = [] }

abbrev volume : Result Text PersistentVolume
volume = ok (record { csi = some source })

abbrev attachment : VolumeAttachment
attachment = record { persistent_volume_name = some (b'p' ∷ []); attached = true }

abbrev first_or_zero : Text → ℕ
first_or_zero [] = 0
first_or_zero (c ∷ s) = c

abbrev cluster : Cluster ℕ (Unit {0})
cluster = record {
  decode_claim = λ object. ok (claim (first_or_zero object));
  cmp = λ a b. sub_ℕ a b;
  get_volume = λ name w. (volume, w);
  list_attachments = λ w. (ok (attachment ∷ []), w);
}

growing-IsExpansion : IsExpansion cluster (λ name. volume) growing (claim 0) (claim 1) source
growing-IsExpansion = record {
  of_claim = refl;
  update = refl;
  decoded_old = refl;
  decoded_new = refl;
  larger = omega arith;
  bound = refl;
  named = λ e. cc;
  found = refl;
}

abbrev plain : Text → AdmissionResponse
plain uid = record { uid = uid; allowed = true; result = none }

-- Only responses with no status can be encoded: as 1 with the UID, or as 2 where they do not allow.
abbrev encode_parts : Bool → Option Status → Text → Result Text Text
encode_parts true none uid = ok (1 ∷ uid)
encode_parts false none uid = ok (2 ∷ uid)
encode_parts allowed (some status) uid = err []

abbrev encode : Option AdmissionResponse → Result Text Text
encode none = ok []
encode (some r) = encode_parts r.allowed r.result r.uid

abbrev decode : Text → Option AdmissionResponse
decode [] = none
decode (c ∷ uid) =
    if eqb c 1 then some (plain uid) else some (record (plain uid) { allowed = false })

abbrev codec : ReviewCodec
codec = record {
  decode = λ body.
      ok (record { api_version = []; kind = []; request = some growing; response = decode body });
  marshal = λ ar. encode ar.response;
}

decode-encode_parts :
    (allowed : Bool) (status : Option Status) (uid bytes : Text)
    → encode_parts allowed status uid ≡ ok bytes
    → decode bytes ≡ some (record { uid = uid; allowed = allowed; result = status })
decode-encode_parts true none uid bytes e = ground arith
decode-encode_parts false none uid bytes e = ground arith
decode-encode_parts allowed (some status) uid bytes e = absurd (ground arith)

decode-encode :
    (r : Option AdmissionResponse) (bytes : Text) → encode r ≡ ok bytes → decode bytes ≡ r
decode-encode none bytes e = ground arith
decode-encode (some r) bytes e = decode-encode_parts r.allowed r.result r.uid bytes e

codec-ReadsBack : ReadsBack codec
codec-ReadsBack ar bytes e = decode-encode ar.response bytes e

growing_encoded :
    codec.marshal (
      with_response
        (record { api_version = []; kind = []; request = some growing; response = none })
        growing
        (validate cluster growing tt).0)
    ≡ ok (1 ∷ b'u' ∷ [])
unfolding validate validate_claims validate_volume validate_attached is_volume_attached attached_in
    str text_dec ℕ_discrete
growing_encoded = refl

handle_validate-any_attached_example :
    (r : AdmissionResponse) × (response_in codec (handle_validate cluster codec (ok []) tt).0
      ≡ some r)
    × (r.uid ≡ b'u' ∷ [])
    × (r.allowed ≡ true)
unfolding text_dec ℕ_discrete str
handle_validate-any_attached_example =
    handle_validate-any_attached cluster codec codec-ReadsBack (λ name. volume) [] _ growing
      (claim 0) (claim 1) source (attachment ∷ []) (1 ∷ b'u' ∷ []) tt tt (λ name w. refl) refl refl
      growing_encoded growing-IsExpansion refl
