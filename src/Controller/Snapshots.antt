-- ===== src/Controller/Snapshots.antt =====
-- `CreateSnapshot`, `DeleteSnapshot`, `ListSnapshots` and `convertSnapshot` of
-- pkg/vcloud/controllerserver.go. A nil snapshot that is read makes the handler panic.
use csi_driver_bs.Base.{
  true, Option, none, some, List, [], ◌∷◌, ◌++◌, Result, ok, err, ◌==◌, if◌then◌else◌,
}
use csi_driver_bs.Base.Int.{ℤ, pos, eqb_ℤ}
use csi_driver_bs.Text.{Text, text_eq, str, is_empty}
use csi_driver_bs.Text.Contains.{contains}
use csi_driver_bs.Driver.{Driver}
use csi_driver_bs.Client
use csi_driver_bs.Client.Errors.{is_not_found_error, is_already_exists_error}
use csi_driver_bs.Client.Types.{Volume, Snapshot}
use csi_driver_bs.Client.Request.{Client, Transport}
use csi_driver_bs.Grpc.{
  invalid_argument, not_found, already_exists, failed_precondition, internal, Rpc, reply, fail,
  panic, Handler, return, status, crash, lift, call, unless, locked, ◌>>=◌,
}
use csi_driver_bs.Controller.Messages.{
  CreateSnapshotRequest, CsiSnapshot, ListSnapshotsRequest, ListSnapshotsResponse,
}
use csi_driver_bs.Controller.Volumes.{default_volume_size}

abbrev pub snapshot_busy : Text → Text
snapshot_busy key = str "an operation with the given Snapshot " ++ (key ++ str " already exists")

unfoldable pub convert_snapshot : Snapshot → CsiSnapshot
convert_snapshot snap = record {
  snapshot_id = snap.id;
  source_volume_id = snap.source_volume_id;
  size_bytes = snap.size_bytes;
  creation_time = snap.created_at;
  ready_to_use = snap.ready_to_use;
}

-- The search of `CreateSnapshot` through the listed snapshots.
unfoldable pub find_named : Text → List (Option Snapshot) → Rpc (Option Snapshot)
find_named name [] = reply none
find_named name (none ∷ _) = panic
find_named name (some snap ∷ rest) =
    if snap.name == name then reply (some snap) else find_named name rest

abbrev pub search_result :
    Text → Result Text (List (Option Snapshot) × Text) → Rpc (Option Snapshot)
search_result name (err e) = reply none
search_result name (ok (snapshots, next_token)) = find_named name snapshots

abbrev cons_entry : CsiSnapshot → Rpc (List CsiSnapshot) → Rpc (List CsiSnapshot)
cons_entry entry (reply entries) = reply (entry ∷ entries)
cons_entry entry (fail code message) = fail code message
cons_entry entry panic = panic

-- The loop of `ListSnapshots`.
unfoldable pub convert_snapshots : List (Option Snapshot) → Rpc (List CsiSnapshot)
unfolding convert_snapshot
convert_snapshots [] = reply []
convert_snapshots (none ∷ _) = panic
convert_snapshots (some snap ∷ rest) = cons_entry (convert_snapshot snap) (convert_snapshots rest)

abbrev no_entries : ListSnapshotsResponse
no_entries = record { entries = []; next_token = [] }

module _ {W : Type 0} (t : Transport W) (d : Driver) where
  unfoldable pub created_snapshot :
      Text → Volume → Result Text (Option Snapshot) → Handler W CsiSnapshot
  created_snapshot name vol (ok none) = crash
  created_snapshot name vol (ok (some snap)) = return (
      convert_snapshot (record snap {
        size_bytes = if eqb_ℤ snap.size_bytes (pos 0) then vol.size_bytes else snap.size_bytes;
      }))
  created_snapshot name vol (err e) =
      if is_already_exists_error e
      then status already_exists (str "snapshot " ++ (name ++ str " already exists"))
      else if contains e (str "VolumeInUse")
      then status failed_precondition (
          str
            "cannot create snapshot while volume is attached to a running workload. Stop the pod using this volume first")
      else if contains e (str "VolumeNotReady")
      then status failed_precondition
          (str "volume is not in ready state. Please wait and try again")
      else status internal (str "failed to create snapshot: " ++ e)

  -- "Verify source volume exists", and the creation.
  unfoldable pub snapshot_source : Client → Text → Text → Handler W CsiSnapshot
  snapshot_source c name source_volume_id = do
    found ← call (Client.Volumes.get_volume t c source_volume_id)
    elim found [
      | err e ↦
          if is_not_found_error e
          then status not_found (str "source volume " ++ (source_volume_id ++ str " not found"))
          else status internal (str "failed to get source volume: " ++ e)
      | ok vol ↦ do
        r ← call (Client.Snapshots.create_snapshot t c name source_volume_id)
        created_snapshot name vol r
    ]

  unfoldable pub found_or_create : Client → Text → Text → Option Snapshot → Handler W CsiSnapshot
  found_or_create c name source_volume_id (some snap) = return (convert_snapshot snap)
  found_or_create c name source_volume_id none = snapshot_source c name source_volume_id

  -- "Fallback idempotency check": an error of the listing is ignored.
  unfoldable pub search_or_create : Client → Text → Text → Handler W CsiSnapshot
  search_or_create c name source_volume_id = do
    r ← call (Client.Snapshots.list_snapshots t c source_volume_id (pos 100) [])
    found ← lift (search_result name r)
    found_or_create c name source_volume_id found

  unfoldable pub existing_snapshot : Text → Text → Snapshot → Handler W CsiSnapshot
  existing_snapshot name source_volume_id existing =
      if existing.source_volume_id == source_volume_id
      then return (convert_snapshot existing)
      else status already_exists
          (str "snapshot " ++ (name ++ str " already exists with different source volume"))

  unfoldable pub existing_or_search :
      Client → CreateSnapshotRequest → Result Text (Option Snapshot) → Handler W CsiSnapshot
  existing_or_search c req (ok (some existing)) =
      existing_snapshot req.name req.source_volume_id existing
  existing_or_search c req (ok none) = search_or_create c req.name req.source_volume_id
  existing_or_search c req (err _) = search_or_create c req.name req.source_volume_id

  abbrev mock_snapshot : CreateSnapshotRequest → ℤ → CsiSnapshot
  mock_snapshot req time = record {
    snapshot_id = str "snap-" ++ req.name;
    source_volume_id = req.source_volume_id;
    size_bytes = default_volume_size;
    creation_time = time;
    ready_to_use = true;
  }

  -- `now` is the clock of `timestamppb.Now`, in seconds. With no client the reply is made up.
  unfoldable pub snapshot_with :
      Option Client → (W → ℤ) → CreateSnapshotRequest → Handler W CsiSnapshot
  snapshot_with none now req = do time ← call (λ w. (now w, w)); return (mock_snapshot req time)
  snapshot_with (some c) now req = do
    found ← call (Client.Snapshots.get_snapshot_by_name t c req.name)
    existing_or_search c req found

  abbrev pub create_snapshot_locked : (W → ℤ) → CreateSnapshotRequest → Handler W CsiSnapshot
  create_snapshot_locked = snapshot_with d.vcloud_client

  unfoldable pub create_snapshot : (W → ℤ) → CreateSnapshotRequest → Handler W CsiSnapshot
  create_snapshot now req =
      unless (is_empty req.name) invalid_argument (str "CreateSnapshot name must be provided") (
        unless (is_empty req.source_volume_id) invalid_argument
          (str "CreateSnapshot source volume ID must be provided")
          (locked req.name (snapshot_busy req.name) (create_snapshot_locked now req)))

  unfoldable pub delete_snapshot_locked : Text → Handler W (Unit {0})
  delete_snapshot_locked snapshot_id = elim d.vcloud_client [
    | none ↦ return tt
    | some c ↦ do
      r ← call (Client.Snapshots.delete_snapshot t c snapshot_id)
      elim r [
        | ok _ ↦ return tt
        | err e ↦
            if is_not_found_error e
            then return tt
            else status internal (str "failed to delete snapshot: " ++ e)
      ]
  ]

  unfoldable pub delete_snapshot : Text → Handler W (Unit {0})
  delete_snapshot snapshot_id =
      unless (is_empty snapshot_id) invalid_argument
        (str "DeleteSnapshot snapshot ID must be provided")
        (locked snapshot_id (snapshot_busy snapshot_id) (delete_snapshot_locked snapshot_id))

  abbrev one_entry : Option Snapshot → Rpc ListSnapshotsResponse
  one_entry none = panic
  one_entry (some snap) = reply (record { entries = convert_snapshot snap ∷ []; next_token = [] })

  -- A request for one snapshot by its ID.
  unfoldable pub list_one : Client → Text → Handler W ListSnapshotsResponse
  list_one c snapshot_id = do
    r ← call (Client.Snapshots.get_snapshot t c snapshot_id)
    elim r [
      | ok snap ↦ lift (one_entry snap)
      | err e ↦
          if is_not_found_error e
          then return no_entries
          else status internal (str "failed to get snapshot: " ++ e)
    ]

  unfoldable pub listed_reply :
      Result Text (List (Option Snapshot) × Text) → Handler W ListSnapshotsResponse
  listed_reply (err e) = status internal (str "failed to list snapshots: " ++ e)
  listed_reply (ok (snapshots, next_token)) = do
    entries ← lift (convert_snapshots snapshots)
    return (record { entries = entries; next_token = next_token })

  unfoldable pub list_many : Client → ListSnapshotsRequest → Handler W ListSnapshotsResponse
  list_many c req = do
    r ← call (
        Client.Snapshots.list_snapshots t c req.source_volume_id req.max_entries req.starting_token)
    listed_reply r

  -- With no client the reply is empty, whatever is asked.
  unfoldable pub list_snapshots : ListSnapshotsRequest → Handler W ListSnapshotsResponse
  list_snapshots req = elim d.vcloud_client [
    | none ↦ return no_entries
    | some c ↦ if is_empty req.snapshot_id then list_many c req else list_one c req.snapshot_id
  ]
