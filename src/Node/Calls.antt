-- ===== src/Node/Calls.antt =====
-- The calls of the Node service, in one type. `handle` runs a call and forgets what a reply holds.
use csi_driver_bs.Driver.{Driver}
use csi_driver_bs.Os.{Os}
use csi_driver_bs.Mounter.{Mounter}
use csi_driver_bs.Grpc.{Handler, outcome}
use csi_driver_bs.Node.Messages.{
  NodeStageVolumeRequest, NodeUnstageVolumeRequest, NodePublishVolumeRequest,
  NodeUnpublishVolumeRequest, NodeGetVolumeStatsRequest, NodeExpandVolumeRequest,
}
use csi_driver_bs.Node.Stage.{node_stage_volume, node_unstage_volume}
use csi_driver_bs.Node.Publish.{node_publish_volume, node_unpublish_volume}
use csi_driver_bs.Node.Stats.{node_get_volume_stats}
use csi_driver_bs.Node.Expand.{node_expand_volume}

pub data NodeCall : Type 0 where
  stage_call : NodeStageVolumeRequest → NodeCall
  unstage_call : NodeUnstageVolumeRequest → NodeCall
  publish_call : NodePublishVolumeRequest → NodeCall
  unpublish_call : NodeUnpublishVolumeRequest → NodeCall
  stats_call : NodeGetVolumeStatsRequest → NodeCall
  expand_call : NodeExpandVolumeRequest → NodeCall

module _ {W : Type 0} (os : Os W) (mo : Mounter W) (d : Driver) where
  unfoldable pub handle_node : NodeCall → Handler W (Unit {0})
  handle_node (stage_call req) = node_stage_volume os mo d req
  handle_node (unstage_call req) = node_unstage_volume os mo req
  handle_node (publish_call req) = node_publish_volume os mo d req
  handle_node (unpublish_call req) = node_unpublish_volume os mo req
  handle_node (stats_call req) = outcome (node_get_volume_stats os req)
  handle_node (expand_call req) = outcome (node_expand_volume os mo req)
