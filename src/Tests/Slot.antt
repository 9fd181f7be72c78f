-- ===== src/Tests/Slot.antt =====
-- The server of Tests/Backend keeps the laws that the controller relies on.
use csi_driver_bs.Base.{if◌then◌else◌, ◌==◌, none, ◌≡◌, refl, arith, some, [], ◌∷◌, ok, nat_eq}
use native.Mathlib.Decide.{ℕ_discrete}
use csi_driver_bs.Base.Int.{ℤ}
use csi_driver_bs.Text.{Text, text_eq, text_dec, str}
use csi_driver_bs.Dict
use csi_driver_bs.Client
use csi_driver_bs.Client.Json.{get, field, end, text}
use csi_driver_bs.Client.Types.{
  Volume, snapshot_request_fields, snapshot_request, perform_get_snapshot,
}
use csi_driver_bs.Client.RoundTrip.{reading}
use csi_driver_bs.Client.Volumes.{create_request, parse_volume_response}
use csi_driver_bs.Controller.Backend.{Unused, Gains, IsBackend, IsFinder}
use csi_driver_bs.Controller.Backend.Removed.{deletion, IsRemover}
use csi_driver_bs.Client.Request.{http_request, HttpResponse}
use csi_driver_bs.Client.Request.Laws.{Answers}
use csi_driver_bs.Tests.Server.{client}
use csi_driver_bs.Tests.Backend.{
  v, serve_body, Slot, marshal_slot, slot_transport, slot_store, served, post_create-none,
  post_create-some, post_get-none, post_get-some,
}

named_slot :
    (name : Text) (r : Volume) (w : Slot)
    → (Client.Volumes.get_volume_by_name slot_transport client name w).0 ≡ ok (some r)
    → Dict.lookup r.id (slot_store w) ≡ some name
unfolding Client.Volumes.get_volume_by_name parse_volume_response get str text_dec ℕ_discrete
    Dict.lookup
named_slot name r none e = absurd (ground (arith, post_get-none name))
named_slot name r (some other) e = ground (arith, post_get-some name other)

created_slot :
    (name : Text) (size : ℤ) (kind snapshot : Text) (r : Volume) (w : Slot)
    → (Client.Volumes.create_volume slot_transport client name size kind snapshot w).0 ≡ ok r
    → Unused name (slot_store w)
      × Gains r.id name (slot_store w) (
          slot_store
            (Client.Volumes.create_volume slot_transport client name size kind snapshot w).1)
unfolding Client.Volumes.create_volume get str text_dec ℕ_discrete Dict.lookup
created_slot name size kind snapshot r none e =
    (λ id h. absurd (cc), λ k. ground (arith, post_create-none name size kind snapshot))
created_slot name size kind snapshot r (some other) e =
    absurd (ground (arith, post_create-some name size kind snapshot other))

finds_slot :
    (id name : Text) (w : Slot)
    → Dict.lookup id (slot_store w) ≡ some name
    → (r : Volume) × ((Client.Volumes.get_volume_by_name slot_transport client name w).0
        ≡ ok (some r))
unfolding Client.Volumes.get_volume_by_name parse_volume_response get str text_dec ℕ_discrete
    Dict.lookup
finds_slot id name none e = absurd (ground arith)
finds_slot id name (some other) e = (
  parse_volume_response (field (str "id") (text v) end),
  ground (arith, post_get-some name other),
)

naming_keeps_slot :
    (name : Text) (w : Slot)
    → slot_store (Client.Volumes.get_volume_by_name slot_transport client name w).1 ≡ slot_store w
unfolding Client.Volumes.get_volume_by_name
naming_keeps_slot name none = ground (arith, post_get-none name)
naming_keeps_slot name (some other) = ground (arith, post_get-some name other)

marshal_get_snapshot :
    (id : Text)
    → marshal_slot (
        snapshot_request_fields
          (record (snapshot_request perform_get_snapshot) { snapshot_id = id }))
      ≡ ok (b'G' ∷ [])
unfolding snapshot_request_fields str text_dec ℕ_discrete get
marshal_get_snapshot id = simp reading

snapshot_keeps_slot :
    (id : Text) (w : Slot)
    → slot_store (Client.Snapshots.get_snapshot slot_transport client id w).1 ≡ slot_store w
unfolding Client.Snapshots.get_snapshot ℕ_discrete
snapshot_keeps_slot id none =
    let e = served _ (b'G' ∷ []) none (marshal_get_snapshot id) in ground (arith, e)
snapshot_keeps_slot id (some other) =
    let e = served _ (b'G' ∷ []) (some other) (marshal_get_snapshot id) in ground (arith, e)

pub slot-IsBackend : IsBackend slot_transport client slot_store
slot-IsBackend = record {
  named = named_slot;
  created = created_slot;
  naming_keeps = naming_keeps_slot;
  snapshot_keeps = snapshot_keeps_slot;
}

pub slot-IsFinder : IsFinder slot_transport client slot_store
slot-IsFinder = record {
  named = named_slot;
  finds = finds_slot;
  created = λ name size kind snapshot r w e. (created_slot name size kind snapshot r w e).1;
  naming_keeps = naming_keeps_slot;
  snapshot_keeps = snapshot_keeps_slot;
}

marshal_deletion : (id : Text) → marshal_slot (deletion id) ≡ ok (b'D' ∷ id)
unfolding str text_dec ℕ_discrete get
marshal_deletion [] = refl
marshal_deletion (c ∷ id) = refl

served_deletion :
    (id : Text) (w w' : Slot) (answer : HttpResponse)
    → Answers slot_transport client (deletion id) w w' answer
    → serve_body (some (b'D' ∷ id)) w ≡ (answer, w')
unfolding http_request
served_deletion id w w' answer a = ground (arith, a.encoded, a.sent, marshal_deletion id)

removes_slot :
    (id : Text) (w w' : Slot) (a : HttpResponse) (k : Text)
    → serve_body (some (b'D' ∷ id)) w ≡ (a, w')
    → a.status_code ≡ 200
    → Dict.lookup k (slot_store w') ≡ (if k == id then none else Dict.lookup k (slot_store w))
unfolding Dict.lookup ℕ_discrete
removes_slot id none w' a k e h = absurd (ground arith)
removes_slot id (some name) none a k e h = ground arith
removes_slot id (some name) (some other) a k e h = absurd (ground arith)

unknown_slot :
    (id : Text) (w w' : Slot) (a : HttpResponse)
    → serve_body (some (b'D' ∷ id)) w ≡ (a, w')
    → a.status_code ≡ 404
    → (Dict.lookup id (slot_store w) ≡ none) × (slot_store w' ≡ slot_store w)
unfolding Dict.lookup ℕ_discrete
unknown_slot id none none a e h = (refl, refl)
unknown_slot id none (some other) a e h = absurd (ground arith)
unknown_slot id (some name) none a e h = absurd (ground arith)
unknown_slot id (some name) (some other) a e h = (ground arith, ground arith)

pub slot-IsRemover : IsRemover slot_transport client slot_store
slot-IsRemover = record {
  removes =
      λ id w w' answer a h k. removes_slot id w w' answer k (served_deletion id w w' answer a) h;
  unknown = λ id w w' answer a h. unknown_slot id w w' answer (served_deletion id w w' answer a) h;
}
