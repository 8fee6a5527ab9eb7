-- ===== src/IpSet/Set.antt =====
-- ip_set/src/lib.rs: `IpSet`, a map to `()`.
use npm.Common.{ℕ, Bool, List, map}
use npm.IpSet.Range.{Range}
use npm.IpSet.IpMap
use npm.IpSet.IpMap.{IpMap}

abbrev pub IpSet : Type 0
IpSet = IpMap (Unit {0})

unfoldable pub new : IpSet
new = IpMap.new

unfoldable pub add : ℕ → IpSet → IpSet
add ip s = IpMap.add ip tt s

unfoldable pub add_cidr : ℕ → ℕ → ℕ → IpSet → IpSet
add_cidr bits addr prefix s = IpMap.add_cidr bits addr prefix tt s

unfoldable pub contains : ℕ → IpSet → Bool
contains addr s = IpMap.contains addr s

unfoldable pub is_empty : IpSet → Bool
is_empty s = IpMap.is_empty s

unfoldable pub len : IpSet → ℕ
len s = IpMap.len s

-- `iter` and `into_iter`.
unfoldable pub ranges : IpSet → List Range
ranges s = map (λ x. x.0) s.li
