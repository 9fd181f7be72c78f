-- ===== src/Node/Cycle.antt =====
-- A volume on a node, from `NodeStageVolume` to `NodeUnstageVolume`.
use csi_driver_bs.Base.{◌≡◌, ◌≢◌, ap, arith, none, some, ◌==◌, if◌then◌else◌}
use csi_driver_bs.Text.{Text, text_eq, str}
use csi_driver_bs.Dict
use csi_driver_bs.Dict.{Dict}
use csi_driver_bs.Driver.{Driver}
use csi_driver_bs.Os.{Os}
use csi_driver_bs.Mounter.{Mounter}
use csi_driver_bs.Mounter.Laws.{IsMounter, KeepsMounts}
use csi_driver_bs.Grpc.{reply, State}
use csi_driver_bs.Node.Messages.{
  NodeStageVolumeRequest, NodeUnstageVolumeRequest, NodePublishVolumeRequest,
  NodeUnpublishVolumeRequest, value_at,
}
use csi_driver_bs.Node.Stage.{node_stage_volume, node_unstage_volume}
use csi_driver_bs.Node.Publish.{node_publish_volume, node_unpublish_volume}
use csi_driver_bs.Node.Mounted.{
  node_stage_volume-Added, node_publish_volume-Added, node_unpublish_volume-Removed,
  node_unstage_volume-Removed,
}

-- The requests for one volume at one staging path and one target path.
pub record Requests : Type 0 where
  pub stage : NodeStageVolumeRequest
  pub publish : NodePublishVolumeRequest
  pub unpublish : NodeUnpublishVolumeRequest
  pub unstage : NodeUnstageVolumeRequest
  pub same_staging : publish.staging_target_path ≡ stage.staging_target_path
  pub same_target : unpublish.target_path ≡ publish.target_path
  pub same_unstaging : unstage.staging_target_path ≡ stage.staging_target_path

module _ {W : Type 0} (os : Os W) (mo : Mounter W) (d : Driver) (points : W → Dict Text Text) where
  -- The four calls all reply, each in a state with the mount table that the call before has left.
  pub record AllReply (q : Requests) (s t u v : State W) : Type 0 where
    pub staged : (node_stage_volume os mo d q.stage s).0 ≡ reply tt
    pub then_publish : points t.world ≡ points (node_stage_volume os mo d q.stage s).1.world
    pub published : (node_publish_volume os mo d q.publish t).0 ≡ reply tt
    pub then_unpublish : points u.world ≡ points (node_publish_volume os mo d q.publish t).1.world
    pub unpublished : (node_unpublish_volume os mo q.unpublish u).0 ≡ reply tt
    pub then_unstage : points v.world ≡ points (node_unpublish_volume os mo q.unpublish u).1.world
    pub unstaged : (node_unstage_volume os mo q.unstage v).0 ≡ reply tt

  module _ (m : IsMounter mo points) (o : KeepsMounts os points) (q : Requests) (s t u v : State W)
      (r : AllReply q s t u v) where
    at_publish :
        (k : Text)
        → Dict.lookup q.stage.staging_target_path (points s.world) ≡ none
        → Dict.lookup k (points t.world) ≡ (
            if k == q.stage.staging_target_path
            then some (value_at (str "devicePath") q.stage.publish_context)
            else Dict.lookup k (points s.world))
    at_publish k free = ground (
      arith,
      ap (Dict.lookup k) r.then_publish,
      node_stage_volume-Added os mo d points m o q.stage s r.staged k,
    )

    at_unpublish :
        (k : Text)
        → Dict.lookup q.publish.target_path (points t.world) ≡ none
        → Dict.lookup k (points u.world) ≡ (
            if k == q.publish.target_path
            then some q.stage.staging_target_path
            else Dict.lookup k (points t.world))
    at_unpublish k free = ground (
      arith,
      ap (Dict.lookup k) r.then_unpublish,
      q.same_staging,
      (node_publish_volume-Added os mo d points m o q.publish t r.published).1 k,
    )

    at_end :
        (k : Text)
        → Dict.lookup k (points (node_unstage_volume os mo q.unstage v).1.world) ≡ (
            if k == q.stage.staging_target_path
            then none
            else if k == q.publish.target_path
            then none
            else Dict.lookup k (points u.world))
    at_end k = ground (
      arith,
      ap (Dict.lookup k) r.then_unstage,
      q.same_target,
      q.same_unstaging,
      node_unpublish_volume-Removed os mo d points m o q.unpublish u r.unpublished k,
      node_unstage_volume-Removed os mo d points m o q.unstage v r.unstaged k,
    )

    -- Where all four calls for a volume reply, the device is mounted at the staging path and the
    -- staging path at the target path while the volume is published, and in the end every mount is as
    -- it was before. Neither path was mounted at the start, they differ, and nothing else changes the
    -- mount table between the calls. The mounter and the host are any that keep the laws of a mount
    -- table.
    pub node_cycle :
        (k : Text)
        → Dict.lookup q.stage.staging_target_path (points s.world) ≡ none
        → Dict.lookup q.publish.target_path (points s.world) ≡ none
        → q.publish.target_path ≢ q.stage.staging_target_path
        → (Dict.lookup q.stage.staging_target_path (points u.world)
            ≡ some (value_at (str "devicePath") q.stage.publish_context))
          × (Dict.lookup q.publish.target_path (points u.world) ≡ some q.stage.staging_target_path)
          × (Dict.lookup k (points (node_unstage_volume os mo q.unstage v).1.world)
              ≡ Dict.lookup k (points s.world))
    node_cycle k free free_target apart =
        let staging = q.stage.staging_target_path in
        let target = q.publish.target_path in
        let target_free : Dict.lookup target (points t.world) ≡ none =
          ground (arith, at_publish target free) in
        (
          ground (arith, at_publish staging free, at_unpublish staging target_free),
          ground (arith, at_unpublish target target_free),
          ground (arith, at_end k, at_unpublish k target_free, at_publish k free),
        )
