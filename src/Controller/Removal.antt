-- ===== src/Controller/Removal.antt =====
-- The three calls that remove something from the backend: `DeleteVolume`,
-- `ControllerUnpublishVolume` and `DeleteSnapshot`.
use csi_driver_bs.Base.{
  ℕ, ◌≡◌, ◌≢◌, ap, ◌∙◌, true, none, some, [], ◌++◌, Result, ok, err, arith, nat_eq, if◌then◌else◌,
}
use csi_driver_bs.Base.Int.{ℤ}
use csi_driver_bs.Text.{Text, text_eq, str}
use csi_driver_bs.Text.Contains.{contains}
use csi_driver_bs.Dict
use csi_driver_bs.Locks.Laws.{with_lock}
use csi_driver_bs.Driver.{Driver}
use csi_driver_bs.Client
use csi_driver_bs.Client.Json.{Fields}
use csi_driver_bs.Client.Types.{
  perform_delete_volume, perform_detach_volume, perform_delete_snapshot, volume_request,
  volume_request_fields, snapshot_request, snapshot_request_fields,
}
use csi_driver_bs.Client.Errors.{is_not_found_error}
use csi_driver_bs.Client.Request.{Client, Transport, post, status_error}
use csi_driver_bs.Client.Request.Laws.{
  Answers, post-Answers, read_response_refused, is_not_found-status_error, is_not_found_body,
}
use csi_driver_bs.Grpc.{Rpc, reply, fail, internal, State, ◌>>=◌}
use csi_driver_bs.Grpc.Keeps.{locked_free}
use csi_driver_bs.Controller.Messages.{ControllerUnpublishVolumeRequest}
use csi_driver_bs.Controller.Volumes.{delete_volume, delete_volume_locked, volume_busy}
use csi_driver_bs.Controller.Publish.{
  controller_unpublish_volume, controller_unpublish_volume_locked,
}
use csi_driver_bs.Controller.Snapshots.{delete_snapshot, delete_snapshot_locked, snapshot_busy}
use csi_driver_bs.Controller.Calls.{
  ControllerCall, delete_volume_call, unpublish_call, delete_snapshot_call, handle,
}

-- A removal, the key that it locks, the payload that it posts and the text in front of its errors.
pub data Removal : ControllerCall → Text → Fields → Text → Type 0 where
  deletes_volume :
      (k : Text)
      → Removal
          (delete_volume_call k)
          k
          (volume_request_fields (record (volume_request perform_delete_volume) { volume_id = k }))
          (str "failed to delete volume: ")
  detaches_volume :
      (req : ControllerUnpublishVolumeRequest)
      → Removal
          (unpublish_call req)
          req.volume_id
          (volume_request_fields (record (volume_request perform_detach_volume) {
            volume_id = req.volume_id;
            node_id = req.node_id;
          }))
          (str "failed to detach volume: ")
  deletes_snapshot :
      (k : Text)
      → Removal
          (delete_snapshot_call k)
          k
          (snapshot_request_fields
            (record (snapshot_request perform_delete_snapshot) { snapshot_id = k }))
          (str "failed to delete snapshot: ")

-- What a removal makes of the client's answer.
abbrev removed : Text → Result Text Fields → Rpc (Unit {0})
removed before (ok _) = reply tt
removed before (err e) =
    if is_not_found_error (before ++ e) then reply tt else fail internal (before ++ (before ++ e))

module _ {W : Type 0} (t : Transport W) (d : Driver) (now : W → ℤ) where
  delete_volume_locked-removed :
      (c : Client) (k : Text) (s : State W)
      → d.vcloud_client ≡ some c
      → let (r, w) =
          post t c
            (volume_request_fields
              (record (volume_request perform_delete_volume) { volume_id = k }))
            s.world in
        delete_volume_locked t d k s
        ≡ (removed (str "failed to delete volume: ") r, record s { world = w })
  unfolding delete_volume_locked Client.Volumes.delete_volume ◌>>=◌
  delete_volume_locked-removed c k s client = ground arith

  unpublish_locked-removed :
      (c : Client) (req : ControllerUnpublishVolumeRequest) (s : State W)
      → d.vcloud_client ≡ some c
      → let (r, w) =
          post t c
            (volume_request_fields (record (volume_request perform_detach_volume) {
              volume_id = req.volume_id;
              node_id = req.node_id;
            }))
            s.world in
        controller_unpublish_volume_locked t d req s
        ≡ (removed (str "failed to detach volume: ") r, record s { world = w })
  unfolding controller_unpublish_volume_locked Client.Volumes.detach_volume ◌>>=◌
  unpublish_locked-removed c req s client = ground arith

  delete_snapshot_locked-removed :
      (c : Client) (k : Text) (s : State W)
      → d.vcloud_client ≡ some c
      → let (r, w) =
          post t c
            (snapshot_request_fields
              (record (snapshot_request perform_delete_snapshot) { snapshot_id = k }))
            s.world in
        delete_snapshot_locked t d k s
        ≡ (removed (str "failed to delete snapshot: ") r, record s { world = w })
  unfolding delete_snapshot_locked Client.Snapshots.delete_snapshot ◌>>=◌
  delete_snapshot_locked-removed c k s client = ground arith

  -- A removal of a free key posts its payload, once, and its outcome is that of the answer.
  pub handle-Removal :
      {call : ControllerCall} {key before : Text} {payload : Fields} (c : Client) (s : State W)
      → d.vcloud_client ≡ some c
      → Removal call key payload before
      → key ≢ []
      → Dict.lookup key s.volume_locks.locks ≡ none
      → let (r, w) = post t c payload s.world in
        handle t d now call s ≡ (removed before r, record s { world = w })
  unfolding handle delete_volume controller_unpublish_volume delete_snapshot
  handle-Removal c s client (deletes_volume k) ne free = ground (
    arith,
    locked_free k (volume_busy k) (delete_volume_locked t d k) s _ _ free (
        delete_volume_locked-removed c k (record s { volume_locks = with_lock k s.volume_locks })
          client),
  )
  handle-Removal c s client (detaches_volume req) ne free = ground (
    arith,
    locked_free req.volume_id (volume_busy req.volume_id)
        (controller_unpublish_volume_locked t d req) s _ _ free
        (unpublish_locked-removed c req
          (record s { volume_locks = with_lock req.volume_id s.volume_locks }) client),
  )
  handle-Removal c s client (deletes_snapshot k) ne free = ground (
    arith,
    locked_free k (snapshot_busy k) (delete_snapshot_locked t d k) s _ _ free (
        delete_snapshot_locked-removed c k (record s { volume_locks = with_lock k s.volume_locks })
          client),
  )

module _ {W : Type 0} (t : Transport W) (d : Driver) (now : W → ℤ) where
  handle-Removal_status :
      {call : ControllerCall} {key before : Text} {payload : Fields} {w : W} (c : Client)
      (s : State W) (code : ℕ) (body : Text)
      → d.vcloud_client ≡ some c
      → Removal call key payload before
      → key ≢ []
      → Dict.lookup key s.volume_locks.locks ≡ none
      → Answers t c payload s.world w (record { status_code = code; body = ok body })
      → code ≢ 200
      → handle t d now call s
        ≡ (removed before (err (status_error code body)), record s { world = w })
  handle-Removal_status {call} {before} {payload} {w} c s code body client removal ne free a
        refused =
      handle-Removal t d now c s client removal ne free
      ∙ ap
          (λ (answer : Result Text Fields × W).
            (removed before answer.0, record s { world = answer.1 }))
          (post-Answers t c payload s.world w (record { status_code = code; body = ok body }) a
            ∙ ap (λ (r : Result Text Fields). (r, w)) (read_response_refused t code body refused))

  -- Removing what the backend does not have succeeds: where the server answers 404 to the request
  -- of a `DeleteVolume`, a `ControllerUnpublishVolume` or a `DeleteSnapshot` with a key that is given
  -- and free, the call replies, and the lock map is as it was.
  pub gone_succeeds :
      {call : ControllerCall} {key before : Text} {payload : Fields} {w : W} (c : Client)
      (s : State W) (body : Text)
      → d.vcloud_client ≡ some c
      → Removal call key payload before
      → key ≢ []
      → Dict.lookup key s.volume_locks.locks ≡ none
      → Answers t c payload s.world w (record { status_code = 404; body = ok body })
      → handle t d now call s ≡ (reply tt, record s { world = w })
  gone_succeeds {before} c s body client removal ne free a =
      handle-Removal_status c s 404 body client removal ne free a (omega arith)
      ∙ rw (is_not_found-status_error before body)

  -- Any other refusal counts as a removal too if its body holds the text "404" anywhere: a server
  -- that answers 500 with such a body makes the three calls reply that the removal is done.
  pub misread_succeeds :
      {call : ControllerCall} {key before : Text} {payload : Fields} {w : W} (c : Client)
      (s : State W) (code : ℕ) (body : Text)
      → d.vcloud_client ≡ some c
      → Removal call key payload before
      → key ≢ []
      → Dict.lookup key s.volume_locks.locks ≡ none
      → Answers t c payload s.world w (record { status_code = code; body = ok body })
      → code ≢ 200
      → contains body (str "404") ≡ true
      → handle t d now call s ≡ (reply tt, record s { world = w })
  misread_succeeds {before} c s code body client removal ne free a refused h =
      handle-Removal_status c s code body client removal ne free a refused
      ∙ rw (is_not_found_body before code body h)
