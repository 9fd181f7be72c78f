-- ===== src/Tests/Host.antt =====
-- A host for the tests, and the theorems about the mounter, /proc/mounts, the statistics, the
-- endpoint and the identity at concrete inputs.
use csi_driver_bs.Base.{
  ℕ, suc, eqb, if◌then◌else◌, Option, ◌≤◌, ◌<◌, ◌≡◌, ◌⊎◌, refl, arith, true, false, some, none, [],
  ◌∷◌, ok, err,
}
use csi_driver_bs.Base.Int.{pos}
use native.Mathlib.Decide.{ℕ_discrete}
use csi_driver_bs.Text.{text_dec, str}
use csi_driver_bs.Text.Lines.{split_lines}
use csi_driver_bs.Base.{Result, ◌++◌, err, ok}
use csi_driver_bs.Text.{Text}
use csi_driver_bs.Driver.{
  create_delete_volume, publish_unpublish_volume, controller_expand_volume, create_delete_snapshot,
  list_snapshots, stage_unstage_volume, node_expand_volume, get_volume_stats,
  single_node_multi_writer, Driver, DriverOptions, new_driver,
}
use csi_driver_bs.Grpc.{reply}
use csi_driver_bs.Identity.{
  get_plugin_info, node_get_info, controller_get_capabilities, node_get_capabilities,
  get_plugin_info-new_driver,
}
use csi_driver_bs.Server.{parse_endpoint, parse_endpoint-parts}
use csi_driver_bs.Tests.Server.{driver, idle}
use csi_driver_bs.Os.Waiting.{
  tick, expired, wait_for_path_not_exist, Waited, wait_for_path_not_exist-Waited,
}
use csi_driver_bs.Os.{OsError, errorf, Statfs, Os}
use csi_driver_bs.Mounter.Host.{MountUtils, mount_with_retry}
use csi_driver_bs.Mounter.Retries.{CountsMounts, mount_with_retry-count}
use csi_driver_bs.Node.Stats.{stats_of}
use csi_driver_bs.Node.Expand.{device_at}
use csi_driver_bs.Node.Usage.{IsSound, stats_exact}
use csi_driver_bs.Node.MountTable.{Entry, IsEntry, render, no_entry, an_entry, device_at-render}

-- A host on which every call succeeds.
abbrev pub calm : {W : Type 0} → Os W
calm = record {
  stat = λ path w. (ok (record { perm = 0; is_device = true }), w);
  statfs = λ path w. (err (errorf []), w);
  open_file = λ path w. (ok ([], none), w);
  read_file = λ path w. (ok [], w);
  read_dir = λ path w. (ok [], w);
  mkdir_all = λ path mode w. (none, w);
  remove_all = λ path w. (none, w);
  remove = λ path w. (none, w);
  chmod = λ path mode w. (none, w);
  output = λ name args w. (([], none), w);
  combined_output = λ name args w. (([], none), w);
  sleep = λ n w. w;
  fires_first = λ f n w. none;
  dir = λ path. path;
  duration_text = λ n. [];
}

-- Mounts that always fail, with a count of them.
abbrev failing : MountUtils ℕ
failing = record {
  mount = λ source target fs options n. (some (errorf (str "device or resource busy")), suc n);
  unmount = λ target n. (none, n);
  is_mount_point = λ target n. ((false, none), n);
  is_likely_not_mount_point = λ target n. ((true, none), n);
}

failing-CountsMounts : CountsMounts calm failing (λ n. n)
failing-CountsMounts = record {
  mounting = λ source target fs options n. refl;
  checking = λ target n. refl;
  sleeping = λ n w. refl;
}

mount_with_retry-count_example :
    (((mount_with_retry calm failing [] [] [] [] 0).0 ≡ none)
      × ((0 < (mount_with_retry calm failing [] [] [] [] 0).1)
          × ((mount_with_retry calm failing [] [] [] [] 0).1 ≤ 5)))
    ⊎ ((mount_with_retry calm failing [] [] [] [] 0).1 ≡ 5)
mount_with_retry-count_example =
    mount_with_retry-count calm failing (λ n. n) failing-CountsMounts [] [] [] [] 0

-- A path that goes away between the first tick and the second.
abbrev fading : Os ℕ
fading = record calm {
  stat = λ path n.
      if eqb n 0
      then (ok (record { perm = 0; is_device = false }), n)
      else (err (record { message = []; not_exist = true; exit_code = none }), n);
}

wait_for_path_not_exist-Waited_example :
    (r : Option OsError) × (n : ℕ) × (wait_for_path_not_exist fading []
        (tick (λ n. n) ∷ tick (λ n. suc n) ∷ expired (λ n. n) ∷ [])
        0
      ≡ some (r, n))
    × Waited fading [] r n
wait_for_path_not_exist-Waited_example =
    wait_for_path_not_exist-Waited fading [] (tick (λ n. n) ∷ tick (λ n. suc n) ∷ []) [] (λ n. n) 0

abbrev disk : Statfs
disk = record { bavail = 3; blocks = 5; bsize = 4096; ffree = 7; files = 10 }

disk-IsSound : IsSound disk
disk-IsSound = record {
  blocks_fit = omega arith;
  bytes_fit = omega arith;
  inodes_fit = omega arith;
  inodes_bound = omega arith;
}

stats_exact_example : stats_of disk ≡ record {
  bytes = record { available = pos 12288; total = pos 20480; used = pos 8192 };
  inodes = record { available = pos 7; total = pos 10; used = pos 3 };
}
stats_exact_example = stats_exact disk disk-IsSound

abbrev mounted : Entry
mounted = record { device = b'd' ∷ []; point = b'm' ∷ []; rest = b'x' ∷ [] }

mounted-IsEntry : IsEntry mounted
mounted-IsEntry = record {
  device_named = λ e. cc;
  device_word = refl;
  point_named = λ e. cc;
  point_word = refl;
  rest_line = refl;
}

device_at-render_example :
    device_at (b'm' ∷ []) (split_lines (render (mounted ∷ []))) ≡ ok (b'd' ∷ [])
unfolding text_dec ℕ_discrete
device_at-render_example =
    device_at-render (b'm' ∷ []) (mounted ∷ []) (an_entry mounted-IsEntry no_entry)

parse_endpoint-parts_example :
    (parse_endpoint (str "unix://" ++ (b'/' ∷ b's' ∷ [])) ≡ (str "unix", b'/' ∷ b's' ∷ []))
    × ((parse_endpoint (str "tcp://" ++ (b'/' ∷ b's' ∷ [])) ≡ (str "tcp", b'/' ∷ b's' ∷ []))
        × (parse_endpoint (str "unix:" ++ (b'/' ∷ b's' ∷ [])) ≡ (str "unix", b'/' ∷ b's' ∷ [])))
unfolding str
parse_endpoint-parts_example = parse_endpoint-parts (b'/' ∷ b's' ∷ []) (λ e. cc) (λ e. cc)

abbrev options : DriverOptions
options = record {
  driver_name = [];
  node_id = b'n' ∷ [];
  endpoint = b'e' ∷ [];
  api_url = [];
  provider_token = [];
  version = [];
  mount_permissions = 0;
  working_mount_dir = [];
}

abbrev made_of : Result Text Driver → Driver
made_of (ok d) = d
made_of (err e) = driver

get_plugin_info-new_driver_example :
    (get_plugin_info (made_of (new_driver options)) (idle []) ≡ (
      reply (record { name = str "vcloud.csi.vnetwork.dev"; vendor_version = str "dev" }),
      idle [],
    ))
    × (node_get_info (made_of (new_driver options)) (idle []) ≡ (reply (b'n' ∷ []), idle []))
    × (controller_get_capabilities (made_of (new_driver options)) (idle []) ≡ (
      reply (
          create_delete_volume ∷ publish_unpublish_volume ∷ controller_expand_volume
          ∷ create_delete_snapshot ∷ list_snapshots ∷ []),
      idle [],
    ))
    × (node_get_capabilities (made_of (new_driver options)) (idle []) ≡ (
      reply (
          stage_unstage_volume ∷ node_expand_volume ∷ get_volume_stats ∷ single_node_multi_writer
          ∷ []),
      idle [],
    ))
unfolding new_driver
get_plugin_info-new_driver_example =
    get_plugin_info-new_driver options (made_of (new_driver options)) (idle []) refl
