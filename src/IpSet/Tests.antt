-- ===== src/IpSet/Tests.antt =====
-- Runs of the map, and the theorems at concrete inputs.
use npm.Common.{
  ℕ, ◌-◌, ◌/◌, ◌^◌, ◌≡◌, ◌↔◌, refl, arith, true, ◌&&◌, [], ◌∷◌, none, some, not, leb, if◌then◌else◌,
}
use npm.IpSet.Range.{Range, from_cidr, in_cidr, mask, complement, v4_bits}
use npm.IpSet.Cidr.{in_cidr_iff}
use npm.IpSet.IpMap.{IpMap, insert, get}
use npm.IpSet.IpMap.Lookup.{starts_between, Answers, Any, get-insert, get_iff}

-- 10.0.0.0/8 and 10.1.0.0/16
abbrev net8 : Range
net8 = record { start = 167772160; end = 184549375 }

abbrev net16 : Range
net16 = record { start = 167837696; end = 167903231 }

abbrev apart_map : IpMap ℕ
apart_map = record {
  li = (record { start = 5; end = 9 }, 1) ∷ (record { start = 20; end = 30 }, 2) ∷ [];
}

cidr_of_net16 : from_cidr 32 167837697 16 ≡ net16
unfolding from_cidr mask complement
cidr_of_net16 = refl

in_cidr_iff_example :
    (in_cidr v4_bits 167837696 16 167837700 ≡ true)
    ↔ (167837700 / 2 ^ (v4_bits - 16) ≡ 167837696 / 2 ^ (v4_bits - 16))
in_cidr_iff_example = in_cidr_iff v4_bits 167837696 16 167837700 (omega arith) (omega arith)

get-insert_example : get 8 (insert (record { start = 7; end = 12 }) 3 apart_map) ≡ (
    if leb 7 8 && not (starts_between 7 8 apart_map.li)
    then (if leb 8 12 then some 3 else none)
    else get 8 apart_map)
get-insert_example = get-insert 8 (record { start = 7; end = 12 }) 3 apart_map (omega arith)

get_iff_example : (get 25 apart_map ≡ some 2) ↔ Any (Answers 25 2) apart_map.li
get_iff_example = get_iff 25 2 apart_map (omega arith)
