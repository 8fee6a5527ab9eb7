-- ===== src/IpSet/Range.antt =====
-- ip_set/src/lib.rs: `Range`, and the trait `IpRange` with its two implementations.
use npm.Common.{ℕ, ◌-◌, ◌*◌, ◌%◌, ◌^◌, Bool, ◌&&◌, ◌==◌, leb, if◌then◌else◌}
use Prim.Native.Nat.{bit_and, bit_or}

-- Both ends belong to the range.
pub record Range : Type 0 where
  pub start : ℕ
  pub end : ℕ

abbrev pub v4_bits : ℕ
v4_bits = 32

abbrev pub v6_bits : ℕ
v6_bits = 128

-- `val >= &self.start && val <= &self.end`
unfoldable pub contains : Range → ℕ → Bool
contains r val = leb r.start val && leb val r.end

-- `!0 << k`, in a word of `bits` bits.
unfoldable pub mask : ℕ → ℕ → ℕ
mask bits k = (2 ^ bits - 1) * 2 ^ k % 2 ^ bits

-- `!m`
unfoldable pub complement : ℕ → ℕ → ℕ
complement bits m = 2 ^ bits - 1 - m

unfoldable pub from_cidr : ℕ → ℕ → ℕ → Range
from_cidr bits ip prefix =
    if prefix == 0
    then record { start = 0; end = 2 ^ bits - 1 }
    else if leb bits prefix
    then record { start = ip; end = ip }
    else let m = mask bits (bits - prefix) in
      record { start = bit_and ip m; end = bit_or (bit_and ip m) (complement bits m) }

unfoldable pub in_cidr : ℕ → ℕ → ℕ → ℕ → Bool
unfolding contains from_cidr
in_cidr bits net prefix addr = contains (from_cidr bits net prefix) addr
