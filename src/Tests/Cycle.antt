-- ===== src/Tests/Cycle.antt =====
-- A volume that is staged, published, unpublished and unstaged.
use csi_driver_bs.Base.{◌≡◌, ◌≢◌, refl, sym, arith, some, []}
use csi_driver_bs.Text.{text_eq, text_dec, str}
use csi_driver_bs.Dict
use csi_driver_bs.Dict.{Dict}
use native.Mathlib.Decide.{ℕ_discrete}
use csi_driver_bs.Locks.{try_acquire, release}
use csi_driver_bs.Os.Files.{wait_until_timeout, make_dir, chmod_if_permission_mismatch}
use csi_driver_bs.Mounter.Fake.{
  fake_mounter, fake_mount, fake_unmount, fake_is_mount_point, fake_format,
}
use csi_driver_bs.Mounter.Laws.{fake_mounter-IsMounter}
use csi_driver_bs.Grpc.{return, locked, ◌>>=◌}
use csi_driver_bs.Node.Stage.{
  set_permissions, mount_device, stage_device, stage_unless_mounted, stage_with,
  node_stage_volume_locked, stage_capability, node_stage_volume, unmount_and_remove,
  unmount_if_mounted, node_unstage_volume,
}
use csi_driver_bs.Node.Publish.{
  mount_options, bind_mount, publish_target, publish_unless_mounted, node_publish_volume_locked,
  publish_capability, node_publish_volume, node_unpublish_volume,
}
use csi_driver_bs.Node.Cycle.{Requests, AllReply, node_cycle}
use csi_driver_bs.Tests.Server.{driver}
use csi_driver_bs.Tests.Host.{calm}
use csi_driver_bs.Tests.Node.{
  points, calm-KeepsMounts, with_mounts, dev, stage_path, pod_path, to_stage, to_publish, staged,
  staged_mounts, published, to_unpublish, to_unstage, all_mounts, unpublished, unstaged,
}

staged_points :
    points (node_stage_volume calm fake_mounter driver to_stage (with_mounts [])).1.world
    ≡ staged_mounts
unfolding node_stage_volume stage_capability node_stage_volume_locked stage_with
    stage_unless_mounted stage_device mount_device set_permissions wait_until_timeout make_dir
    chmod_if_permission_mismatch fake_mount fake_is_mount_point fake_format locked try_acquire
    release return ◌>>=◌ Dict.lookup Dict.insert Dict.erase text_dec ℕ_discrete str
staged_points = refl

published_points :
    points
      (node_publish_volume calm fake_mounter driver to_publish (with_mounts staged_mounts)).1.world
    ≡ all_mounts
unfolding node_publish_volume publish_capability node_publish_volume_locked publish_unless_mounted
    publish_target bind_mount mount_options fake_mount fake_is_mount_point locked try_acquire
    release return ◌>>=◌ Dict.lookup Dict.insert Dict.erase text_dec ℕ_discrete
published_points = refl

unpublished_points :
    points (node_unpublish_volume calm fake_mounter to_unpublish (with_mounts all_mounts)).1.world
    ≡ staged_mounts
unfolding node_unpublish_volume unmount_if_mounted unmount_and_remove fake_unmount
    fake_is_mount_point locked try_acquire release return ◌>>=◌ Dict.lookup Dict.erase text_dec
    ℕ_discrete
unpublished_points = refl

abbrev requests : Requests
requests = record {
  stage = to_stage;
  publish = to_publish;
  unpublish = to_unpublish;
  unstage = to_unstage;
  same_staging = refl;
  same_target = refl;
  same_unstaging = refl;
}

all_reply :
    AllReply calm fake_mounter driver points requests
      (with_mounts [])
      (with_mounts staged_mounts)
      (with_mounts all_mounts)
      (with_mounts staged_mounts)
all_reply = record {
  staged = staged;
  then_publish = sym staged_points;
  published = published;
  then_unpublish = sym published_points;
  unpublished = unpublished;
  then_unstage = sym unpublished_points;
  unstaged = unstaged;
}

apart : pod_path ≢ stage_path
apart e = ground arith

node_cycle_example :
    (Dict.lookup stage_path all_mounts ≡ some dev)
    × (Dict.lookup pod_path all_mounts ≡ some stage_path)
    × (Dict.lookup pod_path (
          points
            (node_unstage_volume calm fake_mounter to_unstage (with_mounts staged_mounts)).1.world)
        ≡ Dict.lookup pod_path [])
unfolding Dict.lookup text_dec ℕ_discrete str
node_cycle_example =
    node_cycle calm fake_mounter driver points fake_mounter-IsMounter calm-KeepsMounts requests
      (with_mounts []) (with_mounts staged_mounts) (with_mounts all_mounts)
      (with_mounts staged_mounts) all_reply pod_path refl refl apart
