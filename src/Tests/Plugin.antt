-- ===== src/Tests/Plugin.antt =====
-- The theorems about the configuration and the start of the plugin, for one file.
use csi_driver_bs.Base.{◌++◌, err, ◌≡◌, ◌≢◌, ◌↔◌, refl, arith, none, some, List, [], ◌∷◌, ok, true}
use native.Mathlib.Decide.{ℕ_discrete}
use csi_driver_bs.Base.Int.{pos}
use csi_driver_bs.Text.{str, text_dec}
use csi_driver_bs.Text.Trim.{ends}
use csi_driver_bs.Dict
use csi_driver_bs.Os.{errorf, Os}
use csi_driver_bs.Config.{
  Config, config_section_vcloud, config_key_mgmt_url, config_key_provider_token,
  load_config_from_file, new_client_from_config,
}
use csi_driver_bs.Config.Document.{Item, comment, header, pair}
use csi_driver_bs.Config.Reading.{AllItems, no_item, an_item}
use csi_driver_bs.Config.Loading.{render, Says, load_config_iff}
use csi_driver_bs.Driver.{Driver}
use csi_driver_bs.Plugin.{Flags, default_flags, running, start}
use csi_driver_bs.Plugin.Modes.{client_of, start-client, missing, create_volume_unconfigured}
use csi_driver_bs.Maps.{get_value_from_map}
use csi_driver_bs.Grpc.{reply}
use csi_driver_bs.Server.{parse_endpoint}
use csi_driver_bs.Server.Serving.{Net}
use csi_driver_bs.Plugin.Process.{main, main_returns, SocketGone, no_socket, main-serves}
use csi_driver_bs.Controller.Volumes.{create_volume}
use csi_driver_bs.Tests.Host.{calm}
use csi_driver_bs.Tests.Server.{scripted, idle}
use csi_driver_bs.Tests.Controller.{again, again-IsAcceptable}

abbrev file : List Item
file =
    comment (str " vCloud")
    ∷ header config_section_vcloud
    ∷ pair config_key_mgmt_url (b'u' ∷ [])
    ∷ pair config_key_provider_token (b't' ∷ [])
    ∷ []

file-AllItems : AllItems file
unfolding str ends
file-AllItems =
    an_item (record { shape = refl; one_line = refl; short = omega arith })
      (an_item (record { shape = refl; one_line = refl; short = omega arith })
        (an_item (record { shape = refl; one_line = refl; short = omega arith })
          (an_item (record { shape = refl; one_line = refl; short = omega arith }) no_item)))

abbrev with_file : Os (Unit {0})
with_file = record calm { open_file = λ path w. (ok (render file, none), w) }

abbrev config : Config
config = record { api_url = b'u' ∷ []; provider_token = b't' ∷ [] }

load_config_iff_example :
    ((load_config_from_file with_file [] tt).0 ≡ some (ok config)) ↔ Says file config
load_config_iff_example = load_config_iff with_file [] tt tt file config file-AllItems refl

endpoint_given : default_flags.endpoint ≢ []
unfolding str
endpoint_given e = cc

-- A server that is stopped at once.
abbrev stopping : Net (Unit {0})
stopping = record {
  listen = λ proto addr w. (ok tt, w);
  serve = λ proto addr services w. (none, w);
  graceful_stop = λ w. w;
  stop = λ w. w;
}

abbrev flags : Flags
flags = record default_flags { endpoint = str "tcp://a" }

tcp_parsed : parse_endpoint (str "tcp://a") ≡ (str "tcp", b'a' ∷ [])
unfolding parse_endpoint str text_dec ℕ_discrete
tcp_parsed = refl

tcp_socket : SocketGone with_file (str "tcp") (b'a' ∷ []) (start with_file [] [] flags tt).1 tt
unfolding str
tcp_socket = no_socket (λ e. cc)

main-serves_example : main with_file stopping [] [] flags tt ≡ (main_returns, tt)
unfolding str
main-serves_example =
    main-serves with_file stopping [] [] flags (str "tcp") (b'a' ∷ []) tt tt tt refl
      (λ e. absurd cc) tcp_parsed tcp_socket refl

start-client_example :
    (client_of (start with_file [] [] default_flags tt).0 ≡ some (new_client_from_config config))
    ↔ Says file config
start-client_example =
    start-client with_file [] [] default_flags tt (record { perm = 0; is_device = true }) tt tt file
      config refl endpoint_given file-AllItems refl refl

-- A host with no configuration file.
abbrev without_file : Os (Unit {0})
without_file = record calm { stat = λ path w. (err (errorf []), w) }

create_volume_unconfigured_example :
    (d : Driver) × ((start without_file [] [] default_flags tt).0 ≡ running d)
    × (create_volume scripted d again (idle []) ≡ (
      reply (record {
        volume_id = str "vol-" ++ (b'n' ∷ []);
        capacity_bytes = pos 10737418240;
        volume_context = (str "name", b'n' ∷ []) ∷ (str "volumeType", str "hiops") ∷ [];
        content_source = none;
      }),
      idle [],
    ))
unfolding Dict.lookup get_value_from_map
create_volume_unconfigured_example =
    create_volume_unconfigured without_file [] [] default_flags tt scripted again (pos 10737418240)
      (idle []) refl endpoint_given (missing (errorf []) refl) again-IsAcceptable refl
