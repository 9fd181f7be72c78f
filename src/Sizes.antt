-- ===== src/Sizes.antt =====
-- `RoundUpBytes` and the conversions between bytes and GiB of pkg/vcloud/utils.go, on int64.
use csi_driver_bs.Base.{
  ℕ, zero, suc, ◌+◌, ◌-◌, ◌*◌, ◌/◌, ◌%◌, ◌^◌, ◌≤◌, ◌<◌, ◌≡◌, refl, arith, if◌then◌else◌,
}
use csi_driver_bs.Base.Int.{ℤ, pos, negsuc, pos_part, neg_part, eqb_ℤ, int64}

-- The 64 bits of a number, and more above them.
abbrev bits : ℤ → ℕ
bits a = pos_part a + (2 ^ 64 - neg_part a)

unfoldable pub add_64 : ℤ → ℤ → ℤ
add_64 a b = int64 (bits a + bits b)

unfoldable pub sub_64 : ℤ → ℤ → ℤ
sub_64 a b = int64 (bits a + (2 ^ 64 - bits b % 2 ^ 64))

unfoldable pub mul_64 : ℤ → ℤ → ℤ
mul_64 a b = int64 (bits a % 2 ^ 64 * (bits b % 2 ^ 64))

abbrev pub minus_ℕ : ℕ → ℤ
minus_ℕ zero = pos 0
minus_ℕ (suc n) = negsuc n

-- Go's division, which cuts the fraction off; b is not 0.
unfoldable pub quot_64 : ℤ → ℤ → ℤ
quot_64 (pos a) (pos b) = pos (a / b)
quot_64 (pos a) (negsuc b) = minus_ℕ (a / suc b)
quot_64 (negsuc a) (pos b) = minus_ℕ (suc a / b)
quot_64 (negsuc a) (negsuc b) = int64 (suc a / suc b)

unfoldable pub round_up_bytes : ℤ → ℤ → ℤ
round_up_bytes volume_size_bytes block_size =
    if eqb_ℤ block_size (pos 0)
    then volume_size_bytes
    else mul_64 (quot_64 (sub_64 (add_64 volume_size_bytes block_size) (pos 1)) block_size)
        block_size

abbrev pub gib : ℤ
gib = pos 1073741824

unfoldable pub round_up_gib : ℤ → ℤ
round_up_gib volume_size_bytes = round_up_bytes volume_size_bytes gib

unfoldable pub bytes_to_gib : ℤ → ℤ
bytes_to_gib bytes = quot_64 bytes gib

unfoldable pub gib_to_bytes : ℤ → ℤ
gib_to_bytes n = mul_64 n gib

sum_exact :
    (n m : ℕ) → n + m < 2 ^ 63 → 0 < m → sub_64 (add_64 (pos n) (pos m)) (pos 1) ≡ pos (n + m - 1)
unfolding add_64 sub_64
sum_exact n m h k = ground arith

int64_exact : (n : ℕ) → n < 2 ^ 63 → int64 n ≡ pos n
int64_exact n h = ground arith

mul_exact :
    (a b : ℕ) → a < 2 ^ 63 → b < 2 ^ 63 → a * b < 2 ^ 63 → mul_64 (pos a) (pos b) ≡ pos (a * b)
unfolding mul_64
mul_exact a b ha hb h =
    let ea : bits (pos a) % 2 ^ 64 ≡ a = omega arith in
    let eb : bits (pos b) % 2 ^ 64 ≡ b = omega arith in rw ea (rw eb (int64_exact (a * b) h))

div_mul_bounds : (n m : ℕ) → 0 < m → (n ≤ (n + m - 1) / m * m) × ((n + m - 1) / m * m < n + m)
div_mul_bounds n m h = grind arith

quot-le : (a m : ℕ) → 0 < m → a / m ≤ a
quot-le a m h = grind arith

quot_pos : (a m : ℕ) → quot_64 (pos a) (pos m) ≡ pos (a / m)
unfolding quot_64
quot_pos a m = refl

-- The least multiple of m from n on.
pub record IsRoundedUp (n m : ℕ) (r : ℤ) : Type 0 where
  pub blocks : ℕ
  pub whole : r ≡ pos (blocks * m)
  pub enough : n ≤ blocks * m
  pub least : blocks * m < n + m

-- The size rounded up to whole blocks is a multiple of the block, at least the size, and less than a
-- block more, so it is the least such multiple. The block size is not 0, and their sum is below 2^63.
pub round_up_bytes-IsRoundedUp :
    (n m : ℕ) → 0 < m → n + m < 2 ^ 63 → IsRoundedUp n m (round_up_bytes (pos n) (pos m))
unfolding round_up_bytes
round_up_bytes-IsRoundedUp n m k h =
    let b = div_mul_bounds n m k in
    record {
      blocks = (n + m - 1) / m;
      whole = rw (sum_exact n m h k) (
          rw (quot_pos (n + m - 1) m)
            (ground (arith, quot-le (n + m - 1) m k, mul_exact ((n + m - 1) / m) m, b)));
      enough = b.0;
      least = b.1;
    }
