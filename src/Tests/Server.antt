-- ===== src/Tests/Server.antt =====
-- A server that gives the answers of a script, one after the other, and a driver that talks to it.
use csi_driver_bs.Base.{true, ℕ, some, List, [], ◌∷◌, Result, ok, err, ◌==◌, if◌then◌else◌}
use csi_driver_bs.Base.Int.{ℤ, pos}
use csi_driver_bs.Text.{Text, text_eq, str}
use csi_driver_bs.Driver.{Driver}
use csi_driver_bs.Client.Json.{Fields, end}
use csi_driver_bs.Client.Types.{VolumeResponse, volume_response_fields}
use csi_driver_bs.Client.Request.{Client, HttpRequest, HttpResponse, Transport}
use csi_driver_bs.Grpc.{State}

abbrev pub Script : Type 0
Script = List HttpResponse

abbrev pub answer : ℕ → Text → HttpResponse
answer code body = record { status_code = code; body = ok body }

-- A volume of 10 GiB, attached to a node.
abbrev pub stored : VolumeResponse
stored = record {
  id = b'v' ∷ [];
  name = b'n' ∷ [];
  capacity = pos 10737418240;
  volume_type = b'h' ∷ [];
  device_path = b'/' ∷ b'd' ∷ [];
  node_id = b'a' ∷ [];
  snapshot_id = [];
  error = [];
  message = [];
}

abbrev next_answer : HttpRequest → Script → Result Text HttpResponse × Script
next_answer req [] = (err (str "connection refused"), [])
next_answer req (a ∷ rest) = (ok a, rest)

-- The one body that this decoder knows is `v`, which stands for the volume `stored`.
abbrev decode : Text → Result Text Fields
decode body = if body == (b'v' ∷ []) then ok (volume_response_fields stored) else ok end

abbrev pub scripted : Transport Script
scripted = record {
  marshal = λ fields. ok [];
  unmarshal = decode;
  new_request = λ method url. ok tt;
  send = next_answer;
}

abbrev pub client : Client
client = record { timeout = 0; base_url = []; provider_token = [] }

abbrev pub driver : Driver
driver = record {
  name = b'n' ∷ [];
  node_id = [];
  version = [];
  endpoint = b'e' ∷ [];
  mount_permissions = 0;
  working_mount_dir = [];
  vcloud_client = some client;
  vcap = [];
  cscap = [];
  nscap = [];
  ids = true;
  ns = true;
  cs = true;
}

abbrev pub idle : Script → State Script
idle script = record { volume_locks = record { locks = [] }; world = script }

abbrev pub clock : Script → ℤ
clock script = pos 0
