-- ===== src/Client/Snapshots.antt =====
-- The snapshot operations of pkg/vcloud/client/client.go.
use csi_driver_bs.Base.{
  false, Option, none, some, List, [], ◌∷◌, ◌++◌, Result, ok, err, if◌then◌else◌,
}
use csi_driver_bs.Base.Int.{ℤ, pos}
use csi_driver_bs.Text.{Text, str, is_empty}
use csi_driver_bs.Client.Json.{
  obj, Items, nil, cons, Fields, get, as_text, as_num, as_bool, as_arr, or_default,
}
use csi_driver_bs.Client.Types.{
  perform_create_snapshot, perform_delete_snapshot, perform_get_snapshot, perform_list_snapshots,
  SnapshotRequest, snapshot_request, snapshot_request_fields, Snapshot,
}
use csi_driver_bs.Client.Request.{Client, Transport, post}

-- `parseSnapshotResponse` up to its test of the ID.
abbrev pub parse_snapshot : Fields → Snapshot
parse_snapshot resp = record {
  id = or_default (as_text (get (str "id") resp)) [];
  name = or_default (as_text (get (str "name") resp)) [];
  source_volume_id = or_default (as_text (get (str "sourceVolumeId") resp)) [];
  size_bytes = or_default (as_num (get (str "sizeBytes") resp)) (pos 0);
  created_at = or_default (as_num (get (str "createdAt") resp)) (pos 0);
  ready_to_use = or_default (as_bool (get (str "readyToUse") resp)) false;
}

-- Nil, with no error, if the answer has no ID.
unfoldable pub parse_snapshot_response : Fields → Option Snapshot
parse_snapshot_response resp =
    let snap = parse_snapshot resp in if is_empty snap.id then none else some snap

-- The loop of `ListSnapshots`: items that are no objects are skipped, and a parsed nil is kept.
unfoldable pub parse_snapshots : Items → List (Option Snapshot)
parse_snapshots nil = []
parse_snapshots (cons (obj m) rest) = parse_snapshot_response m ∷ parse_snapshots rest
parse_snapshots (cons _ rest) = parse_snapshots rest

module _ {W : Type 0} (t : Transport W) (c : Client) where
  abbrev post_snapshot : SnapshotRequest → W → Result Text Fields × W
  post_snapshot req = post t c (snapshot_request_fields req)

  abbrev parsed : Text → Result Text Fields → Result Text (Option Snapshot)
  parsed message (err e) = err (message ++ e)
  parsed message (ok resp) = ok (parse_snapshot_response resp)

  unfoldable pub create_snapshot : Text → Text → W → Result Text (Option Snapshot) × W
  create_snapshot name source_volume_id w =
      let (r, w') =
        post_snapshot
          (record (snapshot_request perform_create_snapshot) {
            name = name;
            source_volume_id = source_volume_id;
          })
          w in
      (parsed (str "failed to create snapshot: ") r, w')

  abbrev acknowledged : Result Text Fields → Result Text (Unit {0})
  acknowledged (err e) = err (str "failed to delete snapshot: " ++ e)
  acknowledged (ok _) = ok tt

  unfoldable pub delete_snapshot : Text → W → Result Text (Unit {0}) × W
  delete_snapshot snapshot_id w =
      let (r, w') =
        post_snapshot
          (record (snapshot_request perform_delete_snapshot) { snapshot_id = snapshot_id }) w in
      (acknowledged r, w')

  unfoldable pub get_snapshot : Text → W → Result Text (Option Snapshot) × W
  get_snapshot snapshot_id w =
      let (r, w') =
        post_snapshot (record (snapshot_request perform_get_snapshot) { snapshot_id = snapshot_id })
          w in
      (parsed (str "failed to get snapshot: ") r, w')

  abbrev named : Result Text Fields → Result Text (Option Snapshot)
  named (err e) = err e
  named (ok resp) = ok (parse_snapshot_response resp)

  unfoldable pub get_snapshot_by_name : Text → W → Result Text (Option Snapshot) × W
  get_snapshot_by_name name w =
      let (r, w') =
        post_snapshot (record (snapshot_request perform_get_snapshot) { name = name }) w in
      (named r, w')

  abbrev listed : Result Text Fields → Result Text (List (Option Snapshot) × Text)
  listed (err e) = err (str "failed to list snapshots: " ++ e)
  listed (ok resp) = ok (
    parse_snapshots (or_default (as_arr (get (str "snapshots") resp)) nil),
    or_default (as_text (get (str "nextToken") resp)) [],
  )

  unfoldable pub list_snapshots :
      Text → ℤ → Text → W → Result Text (List (Option Snapshot) × Text) × W
  list_snapshots source_volume_id max_entries starting_token w =
      let (r, w') =
        post_snapshot
          (record (snapshot_request perform_list_snapshots) {
            source_volume_id = source_volume_id;
            max_entries = max_entries;
            starting_token = starting_token;
          })
          w in
      (listed r, w')
