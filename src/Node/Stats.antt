-- ===== src/Node/Stats.antt =====
-- `NodeGetVolumeStats` of pkg/vcloud/nodeserver.go.
use csi_driver_bs.Base.{ℕ, ◌+◌, ◌-◌, ◌*◌, ◌%◌, ◌^◌, ok, err, ◌++◌}
use csi_driver_bs.Base.Int.{int64}
use csi_driver_bs.Text.{str, is_empty}
use csi_driver_bs.Os.{Os, Statfs, is_not_exist}
use csi_driver_bs.Grpc.{
  invalid_argument, not_found, internal, Handler, return, status, call, unless, ◌>>=◌,
}
use csi_driver_bs.Node.Messages.{VolumeUsage, NodeGetVolumeStatsRequest, NodeGetVolumeStatsResponse}

-- The bits of a - b.
abbrev pub minus_64 : ℕ → ℕ → ℕ
minus_64 a b = a + (2 ^ 64 - b % 2 ^ 64)

unfoldable pub usage : ℕ → ℕ → VolumeUsage
usage total available = record {
  available = int64 available;
  total = int64 total;
  used = int64 (minus_64 total available);
}

unfoldable pub stats_of : Statfs → NodeGetVolumeStatsResponse
stats_of stat = record {
  bytes = usage (stat.blocks * stat.bsize) (stat.bavail * stat.bsize);
  inodes = usage stat.files stat.ffree;
}

module _ {W : Type 0} (os : Os W) where
  unfoldable pub node_get_volume_stats :
      NodeGetVolumeStatsRequest → Handler W NodeGetVolumeStatsResponse
  node_get_volume_stats req =
      unless (is_empty req.volume_id) invalid_argument
        (str "NodeGetVolumeStats volume ID must be provided")
        (unless (is_empty req.volume_path) invalid_argument
          (str "NodeGetVolumeStats volume path must be provided")
          (do
            st ← call (os.stat req.volume_path)
            unless (is_not_exist st) not_found
                (str "volume path " ++ (req.volume_path ++ str " not found"))
                (do
                  r ← call (os.statfs req.volume_path)
                  elim r [
                    | err e ↦ status internal (str "failed to get filesystem stats: " ++ e.message)
                    | ok stat ↦ return (stats_of stat)
                  ])))
