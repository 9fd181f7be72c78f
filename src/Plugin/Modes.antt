-- ===== src/Plugin/Modes.antt =====
-- The two modes of the plugin: with a client of the backend, and without one.
use csi_driver_bs.Base.{
  Result-cases, ◌∷◌, ◌++◌, ◌&&◌, false, ◌≡◌, ◌≢◌, ◌↔◌, ◌⊎◌, refl, arith, Option, none, some,
  Option-cases, inl, inr, List, [], Result, ok, err, if◌then◌else◌,
}
use csi_driver_bs.Base.Int.{ℤ}
use csi_driver_bs.Text.{str, Text, text_eq, is_empty}
use csi_driver_bs.Dict
use csi_driver_bs.Os.{OsError, FileInfo, Os}
use csi_driver_bs.Config.{Config, load_config_from_file, new_client_from_config}
use csi_driver_bs.Config.Safe.{load_config-ne-none}
use csi_driver_bs.Config.Document.{Item}
use csi_driver_bs.Config.Reading.{AllItems}
use csi_driver_bs.Config.Loading.{render, Says, load_config_iff}
use csi_driver_bs.Client.Request.{Client, Transport, new_client}
use csi_driver_bs.Driver.{
  DriverOptions, Driver, new_driver, add_volume_capability_access_modes,
  add_controller_service_capabilities, add_node_service_capabilities,
}
use csi_driver_bs.Locks.Laws.{with_lock}
use csi_driver_bs.Grpc.{reply, State, return, ◌>>=◌}
use csi_driver_bs.Maps.{get_value_from_map}
use csi_driver_bs.Grpc.Keeps.{locked_free}
use csi_driver_bs.Controller.Messages.{CreateVolumeRequest}
use csi_driver_bs.Controller.Volumes.{
  volume_busy, volume_type_of, source_snapshot, provision_with, create_volume_locked, create_volume,
  mock_volume,
}
use csi_driver_bs.Controller.Existing.{IsAcceptable}
use csi_driver_bs.Plugin.{
  no_credentials, Flags, Credentials, credentials_of, driver_options, Started, running,
  create_driver, load_credentials, start,
}

abbrev pub client_of : Started → Option Client
client_of (running d) = d.vcloud_client
client_of _ = none

-- The endpoint of a running driver, if it has all three servers.
abbrev pub endpoint_of : Started → Option Text
endpoint_of (running d) = if d.ids && d.cs && d.ns then some d.endpoint else none
endpoint_of _ = none

Loaded-cases :
    (l : Option (Result OsError Config))
    → (l ≡ none) ⊎ (((e : OsError) × (l ≡ some (err e))) ⊎ ((c : Config) × (l ≡ some (ok c))))
Loaded-cases none = inl refl
Loaded-cases (some (err e)) = inr (inl (e, refl))
Loaded-cases (some (ok c)) = inr (inr (c, refl))

create_driver-client :
    (options : DriverOptions)
    → options.endpoint ≢ []
    → client_of (create_driver options) ≡ (
        if is_empty options.api_url
        then none
        else if is_empty options.provider_token
        then none
        else some (new_client options.api_url options.provider_token))
unfolding create_driver new_driver add_volume_capability_access_modes
    add_controller_service_capabilities add_node_service_capabilities
create_driver-client options h = ground arith

create_driver-endpoint :
    (options : DriverOptions)
    → options.endpoint ≢ []
    → endpoint_of (create_driver options) ≡ some options.endpoint
unfolding create_driver new_driver add_volume_capability_access_modes
    add_controller_service_capabilities add_node_service_capabilities
create_driver-endpoint options h = ground arith

module _ {W : Type 0} (os : Os W) (version env_node_id : Text) (flags : Flags) (w : W) where
  load_credentials-ne-none : (path : Text) (w : W) → (load_credentials os path w).0 ≢ none
  unfolding load_credentials credentials_of
  load_credentials-ne-none path w = ground (arith, load_config-ne-none os path (os.stat path w).1)

  -- The process comes to a driver for the endpoint of its flags.
  pub start-endpoint :
      flags.show_version ≡ false
      → flags.endpoint ≢ []
      → endpoint_of (start os version env_node_id flags w).0 ≡ some flags.endpoint
  unfolding start driver_options
  start-endpoint h k = elim (Option-cases (load_credentials os flags.config_file w).0) [
    | inl e ↦ ground (arith, load_credentials-ne-none flags.config_file w)
    | inr (c, e) ↦
        ground (arith, create_driver-endpoint (driver_options version env_node_id flags c))
  ]

  -- With a configuration file that is there and can be read, the driver has a client with the URL and
  -- the token of a configuration exactly if the file says this configuration. The version is not
  -- asked for, there is an endpoint, and the file is one of comments, headers and pairs.
  pub start-client :
      (info : FileInfo) (w' w'' : W) (items : List Item) (c : Config)
      → flags.show_version ≡ false
      → flags.endpoint ≢ []
      → AllItems items
      → os.stat flags.config_file w ≡ (ok info, w')
      → os.open_file flags.config_file w' ≡ (ok (render items, none), w'')
      → (client_of (start os version env_node_id flags w).0 ≡ some (new_client_from_config c))
        ↔ Says items c
  unfolding start driver_options load_credentials credentials_of new_client_from_config new_client
  start-client info w' w'' items c h k all stat opened =
      let loaded = (load_config_from_file os flags.config_file w').0 in
      let options = λ (c : Credentials). driver_options version env_node_id flags c in
      elim (Loaded-cases loaded) [
        | inl e ↦ ground (arith, load_config_iff os flags.config_file w' w'' items c all opened)
        | inr (inl (e, failed)) ↦ ground (
          arith,
          load_config_iff os flags.config_file w' w'' items c all opened,
          create_driver-client (options no_credentials),
        )
        | inr (inr (c', got)) ↦ ground (
          arith,
          load_config_iff os flags.config_file w' w'' items c all opened,
          load_config_iff os flags.config_file w' w'' items c' all opened,
          create_driver-client
              (options (record { api_url = c'.api_url; provider_token = c'.provider_token })),
        )
      ]

create_locked-no_client :
    {W : Type 0} (t : Transport W) (d : Driver) (req : CreateVolumeRequest) (size : ℤ) (s : State W)
    → d.vcloud_client ≡ none
    → IsAcceptable req size
    → create_volume_locked t d req s
      ≡ (reply (mock_volume req.name size (volume_type_of req.parameters)), s)
unfolding create_volume_locked provision_with source_snapshot return ◌>>=◌
create_locked-no_client t d req size s none_client ok_req =
    ground (arith, ok_req.checked, ok_req.sized, ok_req.empty)

create_volume-no_client :
    {W : Type 0} (t : Transport W) (d : Driver) (req : CreateVolumeRequest) (size : ℤ) (s : State W)
    → d.vcloud_client ≡ none
    → IsAcceptable req size
    → Dict.lookup req.name s.volume_locks.locks ≡ none
    → create_volume t d req s
      ≡ (reply (mock_volume req.name size (volume_type_of req.parameters)), s)
unfolding create_volume
create_volume-no_client t d req size s none_client ok_req free = ground (
  arith,
  ok_req.named,
  ok_req.capable,
  locked_free req.name (volume_busy req.name) (create_volume_locked t d req) s
      (reply (mock_volume req.name size (volume_type_of req.parameters))) s.world free
      (create_locked-no_client t d req size
        (record s { volume_locks = with_lock req.name s.volume_locks }) none_client ok_req),
)

-- The configuration file is not there, or it cannot be loaded.
pub data Unconfigured {N : Type 0} (os : Os N) (path : Text) (w : N) : Type 0 where
  missing : (e : OsError) → (os.stat path w).0 ≡ err e → Unconfigured os path w
  broken :
      (info : FileInfo) (w' : N) (e : OsError)
      → os.stat path w ≡ (ok info, w')
      → (load_config_from_file os path w').0 ≡ some (err e)
      → Unconfigured os path w

unconfigured-no_credentials :
    {N : Type 0} (os : Os N) (path : Text) (w : N)
    → Unconfigured os path w
    → (load_credentials os path w).0 ≡ some no_credentials
unfolding load_credentials credentials_of
unconfigured-no_credentials os path w (missing e h) = ground arith
unconfigured-no_credentials os path w (broken info w' e h k) = ground arith

no_credentials-running :
    (options : DriverOptions)
    → options.endpoint ≢ []
    → options.api_url ≡ []
    → (d : Driver) × (create_driver options ≡ running d) × (d.vcloud_client ≡ none)
unfolding create_driver new_driver add_volume_capability_access_modes
    add_controller_service_capabilities add_node_service_capabilities
no_credentials-running options h k = elim (Result-cases (new_driver options)) [
  | inl (d, e) ↦ (d, ground arith, ground arith)
  | inr (x, e) ↦ absurd (ground arith)
]

-- A plugin that has no configuration file, or one that cannot be loaded, comes to a driver all the
-- same, whose `CreateVolume` answers a request that it accepts with success: with the ID that is made
-- of `vol-` and the name, with the size asked for and the type of the parameters or hiops, and without
-- any request to a backend. The version is not asked for, there is an endpoint, the name is not
-- locked, and no content source is asked for.
pub create_volume_unconfigured :
    {N W : Type 0} (os : Os N) (version env_node_id : Text) (flags : Flags) (w : N)
    (t : Transport W) (req : CreateVolumeRequest) (size : ℤ) (s : State W)
    → flags.show_version ≡ false
    → flags.endpoint ≢ []
    → Unconfigured os flags.config_file w
    → IsAcceptable req size
    → Dict.lookup req.name s.volume_locks.locks ≡ none
    → (d : Driver) × ((start os version env_node_id flags w).0 ≡ running d)
      × (create_volume t d req s ≡ (
        reply (record {
          volume_id = str "vol-" ++ req.name;
          capacity_bytes = size;
          volume_context =
              (str "name", req.name)
              ∷ (
                str "volumeType",
                if is_empty (get_value_from_map req.parameters (str "type"))
                    then str "hiops"
                    else get_value_from_map req.parameters (str "type"),
              )
              ∷ [];
          content_source = none;
        }),
        s,
      ))
unfolding start driver_options volume_type_of
create_volume_unconfigured os version env_node_id flags w t req size s h k u ok_req free =
    let options = driver_options version env_node_id flags no_credentials in
    let (d, e, no_client) = no_credentials-running options k refl in
    (
      d,
      ground (arith, unconfigured-no_credentials os flags.config_file w u),
      create_volume-no_client t d req size s no_client ok_req free,
    )
