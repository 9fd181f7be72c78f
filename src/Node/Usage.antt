-- ===== src/Node/Usage.antt =====
-- The figures of `NodeGetVolumeStats`.
use csi_driver_bs.Base.{ℕ, zero, suc, ◌-◌, ◌*◌, ◌^◌, ◌≤◌, ◌<◌, ◌≡◌, arith}
use csi_driver_bs.Base.Int.{pos}
use csi_driver_bs.Os.{Statfs}
use csi_driver_bs.Node.Stats.{usage, stats_of}

usage_exact :
    (total available : ℕ)
    → available ≤ total
    → total < 2 ^ 63
    → usage total available
      ≡ record { available = pos available; total = pos total; used = pos (total - available) }
unfolding usage
usage_exact total available h k = ground arith

mul_le : (a b c : ℕ) → a ≤ b → a * c ≤ b * c
mul_le a b zero h = omega arith
mul_le a b (suc c) h = omega (arith, h, mul_le a b c h)

-- What a file system reports: no more available than there is, and fewer than 2^63 bytes and inodes.
pub record IsSound (stat : Statfs) : Type 0 where
  pub blocks_fit : stat.bavail ≤ stat.blocks
  pub bytes_fit : stat.blocks * stat.bsize < 2 ^ 63
  pub inodes_fit : stat.ffree ≤ stat.files
  pub inodes_bound : stat.files < 2 ^ 63

-- For a file system of fewer than 2^63 bytes and inodes, with no more available than there is, the
-- arithmetic on int64 does not wrap: the figures are the products and the differences of the fields.
pub stats_exact :
    (stat : Statfs)
    → IsSound stat
    → stats_of stat ≡ record {
      bytes = record {
        available = pos (stat.bavail * stat.bsize);
        total = pos (stat.blocks * stat.bsize);
        used = pos (stat.blocks * stat.bsize - stat.bavail * stat.bsize);
      };
      inodes = record {
        available = pos stat.ffree;
        total = pos stat.files;
        used = pos (stat.files - stat.ffree);
      };
    }
unfolding stats_of
stats_exact stat h = rw (
  usage_exact (stat.blocks * stat.bsize) (stat.bavail * stat.bsize)
      (mul_le stat.bavail stat.blocks stat.bsize h.blocks_fit) h.bytes_fit,
  usage_exact stat.files stat.ffree h.inodes_fit h.inodes_bound,
)
