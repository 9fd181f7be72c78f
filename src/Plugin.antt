-- ===== src/Plugin.antt =====
-- cmd/vcloud-csi-plugin/main.go: from the flags, as the package flag has parsed them, to a driver.
-- The signal handler, which only ends the process, is left out, and so is what is printed.
pub mod Modes
pub mod Process
use csi_driver_bs.Base.{
  ℕ, Bool, true, false, Option, none, some, [], ◌++◌, Result, ok, err, if◌then◌else◌,
}
use csi_driver_bs.Text.{Text, str, is_empty}
use csi_driver_bs.Os.{OsError, Os}
use csi_driver_bs.Config.{Config, load_config_from_file}
use csi_driver_bs.Client.Request.{Client}
use csi_driver_bs.Driver.{DriverOptions, Driver, new_driver, or_text}

abbrev pub default_driver_name : Text
default_driver_name = str "bs.csi.vnetwork.dev"

pub record Flags : Type 0 where
  pub endpoint : Text
  pub config_file : Text
  pub node_id : Text
  pub driver_name : Text
  pub mount_permissions : ℕ
  pub working_mount_dir : Text
  pub show_version : Bool

-- The flags of a command line with none.
abbrev pub default_flags : Flags
default_flags = record {
  endpoint = str "unix:///var/lib/kubelet/plugins/" ++ (default_driver_name ++ str "/csi.sock");
  config_file = str "/etc/config/cloud-config";
  node_id = [];
  driver_name = default_driver_name;
  mount_permissions = 0;
  working_mount_dir = str "/tmp";
  show_version = false;
}

-- `apiURL` and `providerToken`.
pub record Credentials : Type 0 where
  pub api_url : Text
  pub provider_token : Text

abbrev pub no_credentials : Credentials
no_credentials = record { api_url = []; provider_token = [] }

-- A configuration that cannot be loaded counts as none; a panic is passed on.
unfoldable pub credentials_of : Option (Result OsError Config) → Option Credentials
credentials_of none = none
credentials_of (some (err e)) = some no_credentials
credentials_of (some (ok c)) =
    some (record { api_url = c.api_url; provider_token = c.provider_token })

-- `version` is the variable that the build sets, and `env_node_id` is NODE_ID of the environment.
unfoldable pub driver_options : Text → Text → Flags → Credentials → DriverOptions
driver_options version env_node_id flags c = record {
  driver_name = flags.driver_name;
  node_id = or_text flags.node_id env_node_id;
  endpoint = flags.endpoint;
  api_url = c.api_url;
  provider_token = c.provider_token;
  version = version;
  mount_permissions = flags.mount_permissions;
  working_mount_dir = flags.working_mount_dir;
}

-- How the start of the process ends.
pub data Started : Type 0 where
  version_printed : Started
  panicked : Started
  fatal : Text → Started
  running : Driver → Started

-- "Create driver".
unfoldable pub create_driver : DriverOptions → Started
create_driver options = elim (new_driver options) [
  | err e ↦ fatal (str "Failed to create driver: " ++ e)
  | ok d ↦ running d
]

abbrev start_driver : Text → Text → Flags → Option Credentials → Started
start_driver version env_node_id flags none = panicked
start_driver version env_node_id flags (some c) =
    create_driver (driver_options version env_node_id flags c)

module _ {W : Type 0} (os : Os W) where
  -- "Load API credentials from config file", if it is there.
  unfoldable pub load_credentials : Text → W → Option Credentials × W
  load_credentials path w =
      let (st, w') = os.stat path w in
      elim st [
        | err _ ↦ (some no_credentials, w')
        | ok _ ↦
            let (loaded, w'') = load_config_from_file os path w' in (credentials_of loaded, w'')
      ]

  unfoldable pub start : Text → Text → Flags → W → Started × W
  start version env_node_id flags w =
      if flags.show_version
      then (version_printed, w)
      else let (c, w') = load_credentials flags.config_file w in
        (start_driver version env_node_id flags c, w')
