-- ===== src/Controller/Backend/Removed.antt =====
-- `DeleteVolume` on a backend that answers over HTTP.
use csi_driver_bs.Base.{
  ℕ, ◌≡◌, ◌≢◌, refl, ap, arith, none, some, [], ◌∷◌, ◌++◌, ok, err, Bool, Bool-cases, true, false,
  eqb, not, ◌&&◌, ◌==◌, if◌then◌else◌, nat_eq, inl, inr,
}
use native.Mathlib.Decide.{ℕ_discrete}
use csi_driver_bs.Text.{Text, text_eq, str, is_empty}
use csi_driver_bs.Text.Decimal.{decimal}
use csi_driver_bs.Text.Contains.{contains, Contains, contains_iff}
use csi_driver_bs.Dict
use csi_driver_bs.Client
use csi_driver_bs.Client.Json.{Fields, field, end, text}
use csi_driver_bs.Client.Types.{volume_request, volume_request_fields, perform_delete_volume}
use csi_driver_bs.Client.Errors.{is_not_found_error}
use csi_driver_bs.Client.Request.{
  Client, HttpResponse, Transport, status_error, read_response, post,
}
use csi_driver_bs.Client.Request.Laws.{Answers, post-Answers, read_response_refused}
use csi_driver_bs.Driver.{Driver}
use csi_driver_bs.Grpc.{reply, State, locked, return, status, ◌>>=◌}
use csi_driver_bs.Grpc.Keeps.{locked-post}
use csi_driver_bs.Controller.Volumes.{volume_busy, delete_volume_locked, delete_volume}
use csi_driver_bs.Controller.Backend.{Store, Loses}

-- The JSON object that asks for the deletion of a volume.
abbrev pub deletion : Text → Fields
deletion id =
    field (str "perform") (text (str "DELETE_VOLUME"))
      (if is_empty id then end else field (str "volumeID") (text id) end)

-- What the backend means by its answer to a deletion: with status 200 it has removed the volume, and
-- with 404 it has none of this ID and changes nothing. Of any other answer nothing is known.
pub record IsRemover {W : Type 0} (t : Transport W) (c : Client) (store : W → Store) : Type 0 where
  pub removes :
      (id : Text) (w w' : W) (answer : HttpResponse)
      → Answers t c (deletion id) w w' answer
      → answer.status_code ≡ 200
      → Loses id (store w) (store w')
  pub unknown :
      (id : Text) (w w' : W) (answer : HttpResponse)
      → Answers t c (deletion id) w w' answer
      → answer.status_code ≡ 404
      → (Dict.lookup id (store w) ≡ none) × (store w' ≡ store w)

-- A text that does not speak of something that is not found.
pub record IsPlain (s : Text) : Type 0 where
  pub no_404 : ¬ Contains s (str "404")
  pub no_lower : ¬ Contains s (str "not found")
  pub no_upper : ¬ Contains s (str "Not Found")

abbrev lacks : ℕ → Text → Bool
lacks c [] = true
lacks c (d ∷ s) = not (eqb c d) && lacks c s

-- An occurrence does not begin in a text that lacks its first byte.
Contains-after :
    (before s : Text) (c : ℕ) (p : Text)
    → lacks c before ≡ true
    → Contains (before ++ s) (c ∷ p)
    → Contains s (c ∷ p)
Contains-after [] s c p h found = found
Contains-after (d ∷ before) s c p h ([], after, e) = absurd (ground arith)
Contains-after (d ∷ before) s c p h (x ∷ b, after, e) =
    Contains-after before s c p (ground arith) (b, after, ground arith)

not_contained : (s p : Text) → ¬ Contains s p → contains s p ≡ false
not_contained s p h = elim (Bool-cases (contains s p)) [
  | inl e ↦ absurd (h ((contains_iff s p).0 e))
  | inr e ↦ e
]

plain_error :
    (code : ℕ) (body : Text)
    → IsPlain (decimal code ++ (str ", response: " ++ body))
    → is_not_found_error (str "failed to delete volume: " ++ status_error code body) ≡ false
unfolding is_not_found_error status_error str
plain_error code body h =
    let s = decimal code ++ (str ", response: " ++ body) in
    let before = str "failed to delete volume: request failed, status code: " in
    ground (
      arith,
      not_contained (before ++ s) (str "404")
          (λ f. h.no_404 (Contains-after before s b'4' (str "04") refl f)),
      not_contained (before ++ s) (str "not found")
          (λ f. h.no_lower (Contains-after before s b'n' (str "ot found") refl f)),
      not_contained (before ++ s) (str "Not Found")
          (λ f. h.no_upper (Contains-after before s b'N' (str "ot Found") refl f)),
    )

module _ {W : Type 0} (t : Transport W) (d : Driver) (c : Client) (store : W → Store)
    (b : IsRemover t c store) where
  -- The client sends this object.
  deletion-sent :
      (id : Text)
      → volume_request_fields (record (volume_request perform_delete_volume) { volume_id = id })
        ≡ deletion id
  unfolding volume_request_fields str
  deletion-sent id = refl

  client_delete :
      (id : Text) (w w' : W) (answer : HttpResponse)
      → Answers t c (deletion id) w w' answer
      → post t c
          (volume_request_fields (record (volume_request perform_delete_volume) { volume_id = id }))
          w
        ≡ (read_response t (ok answer), w')
  client_delete id w w' answer a =
      rw (deletion-sent id) (post-Answers t c (deletion id) w w' answer a)

  -- With any other status the deletion fails with an error that does not count as "not found".
  delete_refused :
      (id : Text) (w w' : W) (code : ℕ) (body : Text)
      → Answers t c (deletion id) w w' (record { status_code = code; body = ok body })
      → code ≢ 200
      → IsPlain (decimal code ++ (str ", response: " ++ body))
      → (e : Text) × ((Client.Volumes.delete_volume t c id w).0 ≡ err e)
        × (is_not_found_error e ≡ false)
  unfolding Client.Volumes.delete_volume
  delete_refused id w w' code body a other plain = (
    str "failed to delete volume: " ++ status_error code body,
    ground (
      arith,
      client_delete id w w' (record { status_code = code; body = ok body }) a,
      read_response_refused t code body other,
    ),
    plain_error code body plain,
  )

  delete_world :
      (id : Text) (w w' : W) (answer : HttpResponse)
      → Answers t c (deletion id) w w' answer
      → (Client.Volumes.delete_volume t c id w).1 ≡ w'
  unfolding Client.Volumes.delete_volume
  delete_world id w w' answer a = ground (arith, client_delete id w w' answer a)

  locked_world :
      (id : Text) (s : State W)
      → d.vcloud_client ≡ some c
      → (delete_volume_locked t d id s).1.world ≡ (Client.Volumes.delete_volume t c id s.world).1
  unfolding delete_volume_locked return status ◌>>=◌
  locked_world id s client = ground arith

  locked_refused :
      (id e : Text) (s : State W)
      → d.vcloud_client ≡ some c
      → (Client.Volumes.delete_volume t c id s.world).0 ≡ err e
      → is_not_found_error e ≡ false
      → (delete_volume_locked t d id s).0 ≢ reply tt
  unfolding delete_volume_locked return status ◌>>=◌
  locked_refused id e s client failed other h = ground arith

  delete_locked-Loses :
      (id body : Text) (code : ℕ) (s : State W) (w' : W)
      → d.vcloud_client ≡ some c
      → Answers t c (deletion id) s.world w' (record { status_code = code; body = ok body })
      → (code ≢ 200 → code ≢ 404 → IsPlain (decimal code ++ (str ", response: " ++ body)))
      → (delete_volume_locked t d id s).0 ≡ reply tt
      → Loses id (store s.world) (store (delete_volume_locked t d id s).1.world)
  delete_locked-Loses id body code s w' client a plain e k =
      let answer : HttpResponse = record { status_code = code; body = ok body } in
      rw (locked_world id s client, delete_world id s.world w' answer a)
        (elim (ℕ_discrete code 200) [
          | yes removed ↦ b.removes id s.world w' answer a removed k
          | no other ↦ elim (ℕ_discrete code 404) [
            | yes missing ↦
                let (none_there, kept) = b.unknown id s.world w' answer a missing in
                ground (arith, ap (Dict.lookup k) kept)
            | no neither ↦
                let (x, failed, no_match) =
                  delete_refused id s.world w' code body a other (plain other neither) in
                absurd (locked_refused id x s client failed no_match e)
          ]
        ])

  locked_delete-Loses :
      (id body : Text) (code : ℕ) (s : State W) (w' : W) (k : Text)
      → d.vcloud_client ≡ some c
      → Answers t c (deletion id) s.world w' (record { status_code = code; body = ok body })
      → (code ≢ 200 → code ≢ 404 → IsPlain (decimal code ++ (str ", response: " ++ body)))
      → (locked id (volume_busy id) (delete_volume_locked t d id) s).0 ≡ reply tt
      → Dict.lookup k (store (locked id (volume_busy id) (delete_volume_locked t d id) s).1.world)
        ≡ (if k == id then none else Dict.lookup k (store s.world))
  locked_delete-Loses id body code s w' k client a plain e =
      locked-post (λ w v. w ≡ s.world → Loses id (store w) (store v)) id (volume_busy id)
        (delete_volume_locked t d id) tt
        (λ s' e' same. delete_locked-Loses id body code s' w' client (rw same a) plain e') s e refl
        k

  -- A reply of `DeleteVolume` means that the backend has no volume of this ID any more, whether it had
  -- one or not, and that every other volume is as it was. The backend answers the request for the
  -- deletion; with status 200 it has removed the volume, and with 404 it has none of this ID. Any other
  -- answer neither has 404 in its status and body nor says there that something is not found, since the
  -- driver would take it for an answer with 404. The driver has a client.
  pub delete_volume-Loses :
      (id body : Text) (code : ℕ) (s : State W) (w' : W)
      → d.vcloud_client ≡ some c
      → Answers t c (deletion id) s.world w' (record { status_code = code; body = ok body })
      → (code ≢ 200 → code ≢ 404 → IsPlain (decimal code ++ (str ", response: " ++ body)))
      → (delete_volume t d id s).0 ≡ reply tt
      → Loses id (store s.world) (store (delete_volume t d id s).1.world)
  unfolding delete_volume status
  delete_volume-Loses id body code s w' client a plain e k =
      ground (arith, locked_delete-Loses id body code s w' k client a plain)
