-- ===== src/IpSet.antt =====
-- ip_set/src/lib.rs: CIDR ranges, and the sorted map and set of ranges. An address is the number
-- that `u32::from` or `u128::from` gives; the two implementations of the trait `IpRange` differ
-- only in the number of bits, 32 or 128, which is an argument here.
pub mod Range
pub mod Cidr
pub mod IpMap
pub mod Set
mod Tests
