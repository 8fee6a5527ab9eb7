-- ===== src/Idns/Spf/Policy.antt =====
-- Two places where the evaluation of idns/src/parse/spf.rs departs from RFC 7208.
use npm.Common.{
  ℕ, ◌-◌, ◌/◌, ◌^◌, ◌<◌, ◌≡◌, ◌↔◌, refl, arith, Bool, true, false, ◌||◌, Option, none, [], ◌∷◌,
  if◌then◌else◌,
}
use npm.Text.{Text}
use npm.IpSet.Range.{in_cidr, v6_bits, v4_bits}
use npm.IpSet.Cidr.{in_cidr_iff}
use npm.IpSet.IpMap.{IpMap}
use npm.Idns.Address.{IpAddr, v6}
use npm.Idns.Records
use npm.Idns.Records.{records}
use npm.Idns.Spf.{Status, Act, HostKind, Spf}
use npm.Idns.Spf.Parse.{parse_domain_bits}
use npm.Idns.Spf.Check.{
  Counting, ◌>>=◌, return, matched, no_match, Resolver, cidr_result, host_match, ranged_act,
  fallback_act, or_act, check, eval, eval_hosts, host_step, finish, redirect_status,
}

matched_iff : (b : Bool) → ((if b || false then matched else no_match) ≡ matched) ↔ (b ≡ true)
matched_iff true = (λ h. refl, λ h. refl)
matched_iff false = (λ h. ground arith, λ h. ground arith)

-- The mechanism `a` with no prefix length, for a host with one AAAA record: an address of version 6
-- matches exactly when it agrees with the record in its first 32 bits, not in all 128.
pub a_default_v6 :
    (q : Resolver) (host : Text) (r : Records.Host) (t : ℕ)
    → q.aaaa host ≡ records (r ∷ [])
    → r.ip < 2 ^ v6_bits
    → t < 2 ^ v6_bits
    → (host_match q host (parse_domain_bits []).1 (v6 t) ≡ matched)
      ↔ (t / 2 ^ (v6_bits - v4_bits) ≡ r.ip / 2 ^ (v6_bits - v4_bits))
unfolding host_match cidr_result parse_domain_bits
a_default_v6 q host r t e hr ht = rw e (
    let (there, back) = matched_iff (in_cidr v6_bits r.ip v4_bits t) in
    let (fwd, bwd) = in_cidr_iff v6_bits r.ip v4_bits t hr ht in
    (λ h. fwd (there h), λ h. back (bwd h)))

-- A record whose only mechanism is a redirect.
abbrev pub redirecting : IpMap Act → IpMap Act → Option Act → Act → Text → ℕ → Spf
redirecting ip4 ip6 all act d ttl = record {
  ip4 = ip4;
  ip6 = ip6;
  all = all;
  host = record { act = act; kind = HostKind.redirect d } ∷ [];
  ttl = ttl;
}

-- A record with `redirect` and no other mechanism, whose ranges do not hold the address: the
-- redirect decides, whatever the record's `all` says.
pub redirect_over_all :
    (q : Resolver) (rec : Text → Counting Status) (ip4 ip6 : IpMap Act) (all : Option Act)
    (act : Act) (d : Text) (ttl : ℕ) (domain : Text) (ip : IpAddr)
    → ranged_act (redirecting ip4 ip6 all act d ttl) ip ≡ none
    → eval q rec (redirecting ip4 ip6 all act d ttl) domain ip
      ≡ (rec d >>= (λ r. return (redirect_status r)))
unfolding eval check or_act fallback_act eval_hosts host_step finish
redirect_over_all q rec ip4 ip6 all act d ttl domain ip e = rw (e, eval) refl
