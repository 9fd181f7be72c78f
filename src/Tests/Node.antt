-- ===== src/Tests/Node.antt =====
-- The theorems about the node service at concrete requests, on the fake mounter.
use csi_driver_bs.Base.{◌≡◌, refl, true, some, [], ◌∷◌}
use csi_driver_bs.Text.{Text, text_eq, text_dec, str}
use csi_driver_bs.Dict
use csi_driver_bs.Dict.{Dict}
use native.Mathlib.Decide.{ℕ_discrete}
use csi_driver_bs.Locks.{try_acquire}
use csi_driver_bs.Os.Files.{wait_until_timeout, make_dir, chmod_if_permission_mismatch}
use csi_driver_bs.Mounter.Fake.{
  FakeMounter, fake_mounter, fake_mount, fake_unmount, fake_is_mount_point, fake_format,
}
use csi_driver_bs.Mounter.Laws.{KeepsMounts, present, fake_mounter-IsMounter}
use csi_driver_bs.Controller.Messages.{mount}
use csi_driver_bs.Grpc.{aborted, fail, reply, State, return, locked, ◌>>=◌}
use csi_driver_bs.Node.Messages.{
  NodeStageVolumeRequest, NodeUnstageVolumeRequest, NodePublishVolumeRequest,
  NodeUnpublishVolumeRequest,
}
use csi_driver_bs.Node.Stage.{
  set_permissions, mount_device, stage_device, stage_unless_mounted, stage_with,
  node_stage_volume_locked, stage_capability, node_stage_volume, unmount_and_remove,
  unmount_if_mounted, node_unstage_volume,
}
use csi_driver_bs.Node.Publish.{
  mount_options, bind_mount, publish_target, publish_unless_mounted, node_publish_volume_locked,
  publish_capability, node_publish_volume, node_unpublish_volume,
}
use csi_driver_bs.Node.Calls.{stage_call, unpublish_call, handle_node}
use csi_driver_bs.Node.Busy.{unpublish_claims, handle_node_busy}
use csi_driver_bs.Controller.Volumes.{volume_busy}
use csi_driver_bs.Node.Locking.{handle_node-KeepsLocks}
use csi_driver_bs.Node.Mounted.Bodies.{Added, Removed}
use csi_driver_bs.Node.Mounted.{
  node_stage_volume-Added, node_publish_volume-Added, node_unpublish_volume-Removed,
  node_unstage_volume-Removed,
}
use csi_driver_bs.Tests.Server.{driver}
use csi_driver_bs.Tests.Host.{calm}

abbrev pub points : FakeMounter → Dict Text Text
points m = m.mount_points

pub calm-KeepsMounts : KeepsMounts calm points
calm-KeepsMounts = record {
  stat_keeps = λ path w. refl;
  mkdir_all_keeps = λ path mode w. refl;
  remove_all_keeps = λ path w. refl;
  chmod_keeps = λ path mode w. refl;
}

abbrev pub with_mounts : Dict Text Text → State FakeMounter
with_mounts table = record {
  volume_locks = record { locks = [] };
  world = record { mount_points = table; format_calls = [] };
}

abbrev v : Text
v = b'v' ∷ []

abbrev pub dev : Text
dev = b'/' ∷ b'd' ∷ []

abbrev pub stage_path : Text
stage_path = b's' ∷ []

abbrev pub pod_path : Text
pod_path = b'p' ∷ []

abbrev pub to_stage : NodeStageVolumeRequest
to_stage = record {
  volume_id = v;
  staging_target_path = stage_path;
  volume_capability = some (mount (record { fs_type = []; mount_flags = [] }));
  publish_context = (str "devicePath", dev) ∷ [];
}

abbrev pub to_publish : NodePublishVolumeRequest
to_publish = record {
  volume_id = v;
  target_path = pod_path;
  staging_target_path = stage_path;
  volume_capability = some (mount (record { fs_type = []; mount_flags = [] }));
  readonly = true;
}

handle_node-KeepsLocks_example :
    (handle_node calm fake_mounter driver (stage_call to_stage) (with_mounts [])).1.volume_locks
    ≡ record { locks = [] }
handle_node-KeepsLocks_example =
    handle_node-KeepsLocks calm fake_mounter driver (stage_call to_stage) (with_mounts [])

pub staged : (node_stage_volume calm fake_mounter driver to_stage (with_mounts [])).0 ≡ reply tt
unfolding node_stage_volume stage_capability node_stage_volume_locked stage_with
    stage_unless_mounted stage_device mount_device set_permissions wait_until_timeout make_dir
    chmod_if_permission_mismatch fake_mount fake_is_mount_point fake_format locked try_acquire
    return ◌>>=◌ Dict.lookup Dict.insert text_dec ℕ_discrete str
staged = refl

node_stage_volume-Added_example :
    Added stage_path dev []
      (node_stage_volume calm fake_mounter driver to_stage (with_mounts [])).1.world.mount_points
unfolding Dict.lookup text_dec ℕ_discrete str
node_stage_volume-Added_example =
    node_stage_volume-Added calm fake_mounter driver points fake_mounter-IsMounter calm-KeepsMounts
      to_stage (with_mounts []) staged

abbrev pub staged_mounts : Dict Text Text
staged_mounts = (stage_path, dev) ∷ []

pub published :
    (node_publish_volume calm fake_mounter driver to_publish (with_mounts staged_mounts)).0
    ≡ reply tt
unfolding node_publish_volume publish_capability node_publish_volume_locked publish_unless_mounted
    publish_target bind_mount mount_options fake_mount fake_is_mount_point locked try_acquire return
    ◌>>=◌ Dict.lookup Dict.insert text_dec ℕ_discrete
published = refl

node_publish_volume-Added_example :
    (present (Dict.lookup stage_path staged_mounts) ≡ true)
    × Added pod_path stage_path staged_mounts
        (node_publish_volume calm fake_mounter driver to_publish
          (with_mounts staged_mounts)).1.world.mount_points
node_publish_volume-Added_example =
    node_publish_volume-Added calm fake_mounter driver points fake_mounter-IsMounter
      calm-KeepsMounts to_publish (with_mounts staged_mounts) published

abbrev pub to_unpublish : NodeUnpublishVolumeRequest
to_unpublish = record { volume_id = v; target_path = pod_path }

abbrev pub to_unstage : NodeUnstageVolumeRequest
to_unstage = record { volume_id = v; staging_target_path = stage_path }

abbrev pub all_mounts : Dict Text Text
all_mounts = (stage_path, dev) ∷ (pod_path, stage_path) ∷ []

pub unpublished :
    (node_unpublish_volume calm fake_mounter to_unpublish (with_mounts all_mounts)).0 ≡ reply tt
unfolding node_unpublish_volume unmount_if_mounted unmount_and_remove fake_unmount
    fake_is_mount_point locked try_acquire return ◌>>=◌ Dict.lookup Dict.erase text_dec ℕ_discrete
unpublished = refl

node_unpublish_volume-Removed_example :
    Removed pod_path all_mounts
      (node_unpublish_volume calm fake_mounter to_unpublish
        (with_mounts all_mounts)).1.world.mount_points
node_unpublish_volume-Removed_example =
    node_unpublish_volume-Removed calm fake_mounter driver points fake_mounter-IsMounter
      calm-KeepsMounts to_unpublish (with_mounts all_mounts) unpublished

pub unstaged :
    (node_unstage_volume calm fake_mounter to_unstage (with_mounts staged_mounts)).0 ≡ reply tt
unfolding node_unstage_volume unmount_if_mounted unmount_and_remove fake_unmount fake_is_mount_point
    locked try_acquire return ◌>>=◌ Dict.lookup Dict.erase text_dec ℕ_discrete
unstaged = refl

node_unstage_volume-Removed_example :
    Removed stage_path staged_mounts
      (node_unstage_volume calm fake_mounter to_unstage
        (with_mounts staged_mounts)).1.world.mount_points
node_unstage_volume-Removed_example =
    node_unstage_volume-Removed calm fake_mounter driver points fake_mounter-IsMounter
      calm-KeepsMounts to_unstage (with_mounts staged_mounts) unstaged

-- Another call on the same volume and path is running.
abbrev busy : State FakeMounter
busy = record {
  volume_locks = record { locks = (str "v-p", true) ∷ [] };
  world = record { mount_points = staged_mounts; format_calls = [] };
}

handle_node_busy_example :
    handle_node calm fake_mounter driver (unpublish_call to_unpublish) busy
    ≡ (fail aborted (volume_busy v), busy)
unfolding Dict.lookup text_dec ℕ_discrete str
handle_node_busy_example =
    handle_node_busy calm fake_mounter driver busy
      (unpublish_claims to_unpublish (λ e. cc) (λ e. cc)) (λ e. cc)
