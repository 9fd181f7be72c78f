-- ===== src/Driver.antt =====
-- `DriverOptions`, `Driver` and `NewDriver` of pkg/vcloud/vcloud.go. The lock map of a driver is part
-- of the state of its handlers (Grpc), and starts as `new_volume_locks`.
use csi_driver_bs.Base.{
  ℕ, Bool, true, false, not, ◌&&◌, Option, none, some, List, [], ◌∷◌, ◌++◌, Result, ok, err,
  if◌then◌else◌,
}
use csi_driver_bs.Text.{Text, str, is_empty}
use csi_driver_bs.Client.Request.{Client, new_client}

pub data AccessMode : Type 0 where
  single_node_writer single_node_reader_only : AccessMode

pub data ControllerCapability : Type 0 where
  create_delete_volume publish_unpublish_volume : ControllerCapability
  controller_expand_volume create_delete_snapshot list_snapshots : ControllerCapability

pub data NodeCapability : Type 0 where
  stage_unstage_volume node_expand_volume get_volume_stats single_node_multi_writer : NodeCapability

pub record DriverOptions : Type 0 where
  pub driver_name : Text
  pub node_id : Text
  pub endpoint : Text
  pub api_url : Text
  pub provider_token : Text
  pub version : Text
  pub mount_permissions : ℕ
  pub working_mount_dir : Text

pub record Driver : Type 0 where
  pub name : Text
  pub node_id : Text
  pub version : Text
  pub endpoint : Text
  pub mount_permissions : ℕ
  pub working_mount_dir : Text
  pub vcloud_client : Option Client
  pub vcap : List AccessMode
  pub cscap : List ControllerCapability
  pub nscap : List NodeCapability
  -- Whether `ids`, `ns` and `cs` are not nil.
  pub ids : Bool
  pub ns : Bool
  pub cs : Bool

abbrev pub or_text : Text → Text → Text
or_text value default = if is_empty value then default else value

unfoldable pub add_volume_capability_access_modes : List AccessMode → Driver → Driver
add_volume_capability_access_modes modes d = record d { vcap = d.vcap ++ modes }

unfoldable pub add_controller_service_capabilities : List ControllerCapability → Driver → Driver
add_controller_service_capabilities caps d = record d { cscap = d.cscap ++ caps }

unfoldable pub add_node_service_capabilities : List NodeCapability → Driver → Driver
add_node_service_capabilities caps d = record d { nscap = d.nscap ++ caps }

-- The driver before its capabilities are added.
abbrev bare_driver : DriverOptions → Driver
bare_driver options = record {
  name = or_text options.driver_name (str "vcloud.csi.vnetwork.dev");
  node_id = options.node_id;
  version = or_text options.version (str "dev");
  endpoint = options.endpoint;
  mount_permissions = options.mount_permissions;
  working_mount_dir = or_text options.working_mount_dir (str "/tmp");
  vcloud_client =
      if not (is_empty options.api_url) && not (is_empty options.provider_token)
      then some (new_client options.api_url options.provider_token)
      else none;
  vcap = [];
  cscap = [];
  nscap = [];
  ids = false;
  ns = false;
  cs = false;
}

-- "Create servers".
abbrev with_servers : Driver → Driver
with_servers d = record d { ids = true; ns = true; cs = true }

unfoldable pub new_driver : DriverOptions → Result Text Driver
unfolding add_volume_capability_access_modes add_controller_service_capabilities
    add_node_service_capabilities
new_driver options =
    if is_empty options.endpoint
    then err (str "endpoint is required")
    else ok (
        with_servers (
          add_node_service_capabilities
            (stage_unstage_volume ∷ node_expand_volume ∷ get_volume_stats ∷ single_node_multi_writer
              ∷ [])
            (add_controller_service_capabilities
              (create_delete_volume ∷ publish_unpublish_volume ∷ controller_expand_volume
                ∷ create_delete_snapshot ∷ list_snapshots ∷ [])
              (add_volume_capability_access_modes
                (single_node_writer ∷ single_node_reader_only ∷ []) (bare_driver options)))))
