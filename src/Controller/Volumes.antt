-- ===== src/Controller/Volumes.antt =====
-- `CreateVolume` and `DeleteVolume` of pkg/vcloud/controllerserver.go.
pub mod Sizes
use csi_driver_bs.Base.{
  Bool, true, false, ◌&&◌, not, Option, none, some, List, [], ◌∷◌, ◌++◌, Result, ok, err,
  if◌then◌else◌,
}
use csi_driver_bs.Base.Int.{ℤ, pos, ltb_ℤ, eqb_ℤ}
use csi_driver_bs.Text.{Text, str, is_empty}
use csi_driver_bs.Text.Decimal.{decimal_ℤ}
use csi_driver_bs.Dict.{Dict}
use csi_driver_bs.Maps.{get_value_from_map}
use csi_driver_bs.Driver.{Driver, or_text}
use csi_driver_bs.Client.Errors.{is_not_found_error, is_already_exists_error}
use csi_driver_bs.Client.Types.{Volume}
use csi_driver_bs.Client.Request.{Client, Transport}
use csi_driver_bs.Client
use csi_driver_bs.Grpc.{
  invalid_argument, not_found, already_exists, out_of_range, internal, Rpc, reply, fail, panic,
  Handler, return, status, lift, call, unless, locked, ◌>>=◌,
}
use csi_driver_bs.Controller.Messages.{
  VolumeCapability, block, mount, unset, CapacityRange, VolumeContentSource, from_snapshot,
  other_source, CreateVolumeRequest, CsiVolume,
}

abbrev pub min_volume_size : ℤ
min_volume_size = pos 1073741824

abbrev pub default_volume_size : ℤ
default_volume_size = pos 10737418240

abbrev pub max_volume_size : ℤ
max_volume_size = pos 17592186044416

abbrev pub volume_busy : Text → Text
volume_busy key = str "an operation with the given Volume " ++ (key ++ str " already exists")

abbrev pub no_capabilities : List VolumeCapability → Bool
no_capabilities [] = true
no_capabilities (_ ∷ _) = false

-- The loop over the capabilities.
unfoldable pub check_capabilities : List VolumeCapability → Rpc (Unit {0})
check_capabilities [] = reply tt
check_capabilities (block ∷ _) = fail invalid_argument (str "block volume not supported")
check_capabilities (mount _ ∷ caps) = check_capabilities caps
check_capabilities (unset ∷ _) = fail invalid_argument (str "mount volume capability required")

-- The size before it is clamped.
abbrev asked_size : Option CapacityRange → Rpc ℤ
asked_size none = reply default_volume_size
asked_size (some range) =
    let size =
      if ltb_ℤ (pos 0) range.required_bytes then range.required_bytes else default_volume_size in
    if ltb_ℤ (pos 0) range.limit_bytes && ltb_ℤ range.limit_bytes size
    then fail out_of_range (str "requested size exceeds limit")
    else reply size

abbrev clamp_size : ℤ → Rpc ℤ
clamp_size size =
    let raised = if ltb_ℤ size min_volume_size then min_volume_size else size in
    if ltb_ℤ max_volume_size raised
    then fail out_of_range (
        str "requested size "
        ++ (decimal_ℤ raised ++ (str " exceeds maximum " ++ decimal_ℤ max_volume_size)))
    else reply raised

-- "Determine volume size".
unfoldable pub volume_size : Option CapacityRange → Rpc ℤ
volume_size range = elim (asked_size range) [
  | reply size ↦ clamp_size size
  | fail code message ↦ fail code message
  | panic ↦ panic
]

-- "Get volume type from parameters".
unfoldable pub volume_type_of : Dict Text Text → Text
volume_type_of params = or_text (get_value_from_map params (str "type")) (str "hiops")

abbrev pub volume_context : Text → Text → Dict Text Text
volume_context name volume_type = (str "name", name) ∷ (str "volumeType", volume_type) ∷ []

-- The reply of a driver with no client.
abbrev pub mock_volume : Text → ℤ → Text → CsiVolume
mock_volume name size volume_type = record {
  volume_id = str "vol-" ++ name;
  capacity_bytes = size;
  volume_context = volume_context name volume_type;
  content_source = none;
}

module _ {W : Type 0} (t : Transport W) (d : Driver) where
  -- "Check for snapshot source": the snapshot's ID, empty if there is no such source.
  unfoldable pub source_snapshot : Option VolumeContentSource → Handler W Text
  source_snapshot (some (from_snapshot snapshot_id)) = elim d.vcloud_client [
    | none ↦ return snapshot_id
    | some c ↦ do
      r ← call (Client.Snapshots.get_snapshot t c snapshot_id)
      elim r [
        | ok _ ↦ return snapshot_id
        | err e ↦
            if is_not_found_error e
            then status not_found (str "snapshot " ++ (snapshot_id ++ str " not found"))
            else status internal (str "failed to get snapshot: " ++ e)
      ]
  ]
  source_snapshot _ = return []

  -- The reply for a volume of the same name, or a refusal if its size differs.
  unfoldable pub existing_volume : Text → ℤ → Volume → Handler W CsiVolume
  existing_volume name size existing =
      if ltb_ℤ (pos 0) existing.size_bytes && not (eqb_ℤ existing.size_bytes size)
      then status already_exists (
          str "volume "
          ++ (name
              ++ (str " already exists with different size: "
                  ++ (decimal_ℤ existing.size_bytes ++ (str " != " ++ decimal_ℤ size)))))
      else return (record {
        volume_id = existing.id;
        capacity_bytes = if eqb_ℤ existing.size_bytes (pos 0) then size else existing.size_bytes;
        volume_context = volume_context existing.name existing.volume_type;
        content_source = none;
      })

  unfoldable pub created_volume : Text → Text → Result Text Volume → Handler W CsiVolume
  created_volume name snapshot_id (err e) =
      if is_already_exists_error e
      then status already_exists (str "volume " ++ (name ++ str " already exists"))
      else status internal (str "failed to create volume: " ++ e)
  created_volume name snapshot_id (ok vol) = return (record {
    volume_id = vol.id;
    capacity_bytes = vol.size_bytes;
    volume_context = volume_context vol.name vol.volume_type;
    content_source = if is_empty snapshot_id then none else some (from_snapshot snapshot_id);
  })

  -- "Idempotency check", and the creation. An error of the check is ignored.
  unfoldable pub provision : Client → Text → ℤ → Text → Text → Handler W CsiVolume
  provision c name size volume_type snapshot_id = do
    found ← call (Client.Volumes.get_volume_by_name t c name)
    elim found [
      | ok (some existing) ↦ existing_volume name size existing
      | _ ↦ do
        r ← call (Client.Volumes.create_volume t c name size volume_type snapshot_id)
        created_volume name snapshot_id r
    ]

  -- With no client the reply is made up.
  unfoldable pub provision_with : Option Client → Text → ℤ → Text → Text → Handler W CsiVolume
  provision_with (some c) name size volume_type snapshot_id =
      provision c name size volume_type snapshot_id
  provision_with none name size volume_type snapshot_id = return (mock_volume name size volume_type)

  -- The part under the lock.
  unfoldable pub create_volume_locked : CreateVolumeRequest → Handler W CsiVolume
  create_volume_locked req = do
    _ ← lift (check_capabilities req.volume_capabilities)
    size ← lift (volume_size req.capacity_range)
    let volume_type = volume_type_of req.parameters
    snapshot_id ← source_snapshot req.volume_content_source
    provision_with d.vcloud_client req.name size volume_type snapshot_id

  unfoldable pub create_volume : CreateVolumeRequest → Handler W CsiVolume
  create_volume req =
      unless (is_empty req.name) invalid_argument (str "CreateVolume name must be provided") (
        unless (no_capabilities req.volume_capabilities) invalid_argument
          (str "CreateVolume volume capabilities must be provided")
          (locked req.name (volume_busy req.name) (create_volume_locked req)))

  unfoldable pub delete_volume_locked : Text → Handler W (Unit {0})
  delete_volume_locked volume_id = elim d.vcloud_client [
    | none ↦ return tt
    | some c ↦ do
      r ← call (Client.Volumes.delete_volume t c volume_id)
      elim r [
        | ok _ ↦ return tt
        | err e ↦
            if is_not_found_error e
            then return tt
            else status internal (str "failed to delete volume: " ++ e)
      ]
  ]

  unfoldable pub delete_volume : Text → Handler W (Unit {0})
  delete_volume volume_id =
      unless (is_empty volume_id) invalid_argument (str "DeleteVolume volume ID must be provided")
        (locked volume_id (volume_busy volume_id) (delete_volume_locked volume_id))
