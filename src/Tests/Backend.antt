-- ===== src/Tests/Backend.antt =====
-- A server with room for one volume, and the bodies that the client sends to it.
use csi_driver_bs.Base.{
  ◌≡◌, refl, arith, Option, none, some, [], ◌∷◌, Result, ok, err, ◌==◌, if◌then◌else◌, nat_eq,
}
use native.Mathlib.Decide.{ℕ_discrete}
use csi_driver_bs.Base.Int.{ℤ}
use csi_driver_bs.Text.{Text, text_eq, text_dec, str}
use csi_driver_bs.Client.Json.{Fields, field, end, text, get, as_text, or_default}
use csi_driver_bs.Client.Types.{
  volume_request_fields, volume_request, perform_get_volume, perform_delete_volume,
}
use csi_driver_bs.Client.RoundTrip.{reading}
use csi_driver_bs.Client.Request.{
  HttpResponse, Transport, http_request, read_response, decode_body, status_error, post,
}
use csi_driver_bs.Client.Request.Laws.{post-Answers}
use csi_driver_bs.Client.Volumes.{create_request}
use csi_driver_bs.Controller.Backend.{Store}
use csi_driver_bs.Tests.Server.{answer, client}

-- The name of the volume, if there is one.
abbrev pub Slot : Type 0
Slot = Option Text

abbrev pub v : Text
v = b'v' ∷ []

-- A body is the first letter of the action, with the name or else the ID.
abbrev pub marshal_slot : Fields → Result Text Text
marshal_slot f =
    let name = or_default (as_text (get (str "name") f)) [] in
    let id = or_default (as_text (get (str "volumeID") f)) [] in
    elim (or_default (as_text (get (str "perform") f)) []) [
      | [] ↦ ok []
      | c ∷ rest ↦ ok (c ∷ (if c == b'D' then id else name))
    ]

abbrev serve_create : Text → Slot → HttpResponse × Slot
serve_create name none = (answer 200 v, some name)
serve_create name (some other) = (answer 409 [], some other)

abbrev serve_get : Text → Slot → HttpResponse × Slot
serve_get name none = (answer 404 [], none)
serve_get name (some other) = (if name == other then answer 200 v else answer 404 [], some other)

abbrev serve_delete : Text → Slot → HttpResponse × Slot
serve_delete id none = (answer 404 [], none)
serve_delete id (some name) = if id == v then (answer 200 [], none) else (answer 404 [], some name)

abbrev pub serve_body : Option Text → Slot → HttpResponse × Slot
serve_body (some (c ∷ key)) slot =
    if c == b'C'
    then serve_create key slot
    else if c == b'G'
    then serve_get key slot
    else if c == b'D'
    then serve_delete key slot
    else (answer 500 [], slot)
serve_body _ slot = (answer 500 [], slot)

abbrev sent : HttpResponse × Slot → Result Text HttpResponse × Slot
sent (a, slot) = (ok a, slot)

abbrev pub slot_transport : Transport Slot
slot_transport = record {
  marshal = marshal_slot;
  unmarshal = λ body. ok (field (str "id") (text v) end);
  new_request = λ method url. ok tt;
  send = λ req slot. sent (serve_body req.body slot);
}

abbrev pub slot_store : Slot → Store
slot_store none = []
slot_store (some name) = (v, name) ∷ []

marshal_create :
    (name : Text) (size : ℤ) (kind snapshot : Text)
    → marshal_slot
        (volume_request_fields (create_request slot_transport client name size kind snapshot))
      ≡ ok (b'C' ∷ name)
unfolding volume_request_fields str text_dec ℕ_discrete get
marshal_create name size kind snapshot = simp reading

marshal_get :
    (name : Text)
    → marshal_slot
        (volume_request_fields (record (volume_request perform_get_volume) { name = name }))
      ≡ ok (b'G' ∷ name)
unfolding volume_request_fields str text_dec ℕ_discrete get
marshal_get name = simp reading

marshal_delete :
    (id : Text)
    → marshal_slot
        (volume_request_fields (record (volume_request perform_delete_volume) { volume_id = id }))
      ≡ ok (b'D' ∷ id)
unfolding volume_request_fields str text_dec ℕ_discrete get
marshal_delete id = simp reading

-- What the client makes of a served body.
pub served :
    (payload : Fields) (json : Text) (w : Slot)
    → marshal_slot payload ≡ ok json
    → post slot_transport client payload w ≡ (
      read_response slot_transport (ok (serve_body (some json) w).0),
      (serve_body (some json) w).1,
    )
unfolding http_request
served payload json w e =
    post-Answers slot_transport client payload w (serve_body (some json) w).1
      (serve_body (some json) w).0
      (record { json = json; encoded = e; accepted = refl; sent = refl })

abbrev post_create : Text → ℤ → Text → Text → Slot → Result Text Fields × Slot
post_create name size kind snapshot =
    post slot_transport client
      (volume_request_fields (create_request slot_transport client name size kind snapshot))

abbrev post_get : Text → Slot → Result Text Fields × Slot
post_get name =
    post slot_transport client
      (volume_request_fields (record (volume_request perform_get_volume) { name = name }))

abbrev post_delete : Text → Slot → Result Text Fields × Slot
post_delete id =
    post slot_transport client
      (volume_request_fields (record (volume_request perform_delete_volume) { volume_id = id }))

pub post_create-none :
    (name : Text) (size : ℤ) (kind snapshot : Text)
    → post_create name size kind snapshot none ≡ (ok (field (str "id") (text v) end), some name)
unfolding read_response decode_body ℕ_discrete
post_create-none name size kind snapshot =
    served _ (b'C' ∷ name) none (marshal_create name size kind snapshot)

pub post_create-some :
    (name : Text) (size : ℤ) (kind snapshot other : Text)
    → post_create name size kind snapshot (some other) ≡ (err (status_error 409 []), some other)
unfolding read_response ℕ_discrete
post_create-some name size kind snapshot other =
    served _ (b'C' ∷ name) (some other) (marshal_create name size kind snapshot)

pub post_get-none : (name : Text) → post_get name none ≡ (err (status_error 404 []), none)
unfolding read_response ℕ_discrete
post_get-none name = served _ (b'G' ∷ name) none (marshal_get name)

pub post_get-some :
    (name other : Text)
    → post_get name (some other) ≡ (
      if name == other then ok (field (str "id") (text v) end) else err (status_error 404 []),
      some other,
    )
unfolding read_response decode_body ℕ_discrete
post_get-some name other =
    let e = served _ (b'G' ∷ name) (some other) (marshal_get name) in ground (arith, e)

pub post_delete-none : (id : Text) → post_delete id none ≡ (err (status_error 404 []), none)
unfolding read_response ℕ_discrete
post_delete-none id = served _ (b'D' ∷ id) none (marshal_delete id)

pub post_delete-some :
    (id name : Text)
    → post_delete id (some name)
      ≡ (if id == v then (ok end, none) else (err (status_error 404 []), some name))
unfolding read_response decode_body ℕ_discrete
post_delete-some id name =
    let e = served _ (b'D' ∷ id) (some name) (marshal_delete id) in ground (arith, e)
