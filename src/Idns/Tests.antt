-- ===== src/Idns/Tests.antt =====
-- Runs of the parser and of the evaluation, and the theorems at concrete inputs.
use npm.Common.{ℕ, ◌≤◌, ◌≡◌, refl, none, some, List, [], ◌∷◌}
use npm.Text.{
  Text, codes, to_lower, text_eq, eq_ignore_ascii_case, trim, trim_matches, trim_start_matches,
  is_white, split_whitespace, strip_prefix, starts_with,
}
use npm.IpSet.IpMap
use npm.Idns.Address.{v4}
use npm.Idns.Records.{records, nothing}
use npm.Idns.Spf.{Status, Act, HostKind, Spf}
use npm.Idns.Spf.Macro.{ip_reverse, expand_macro}
use npm.Idns.Spf.Parse.{parse_spf}
use npm.Idns.Spf.Check.{Resolver, verify, check, inc_lookup, is_settled, host_step, include_verdict}
use npm.Idns.Spf.Lookups.{verify_total}
use npm.Idns.Spf.Printed.{Term, directive, a, ip4, all}

abbrev empty_record : Spf
empty_record = record { ip4 = IpMap.new; ip6 = IpMap.new; all = none; host = []; ttl = 60 }

-- Every domain has this one record, no mail server, and the address 1.
abbrev everywhere : Spf → Resolver
everywhere s = record {
  spf = λ d. records (s ∷ []);
  a = λ d. records (record { ip = 1; ttl = 60 } ∷ []);
  aaaa = λ d. records (record { ip = 1; ttl = 60 } ∷ []);
  mx = λ d. nothing;
  display = λ ip. [];
}

-- A record that includes its own domain.
abbrev circular : Spf
circular = record empty_record {
  host = record { act = Act.pass; kind = HostKind.include (codes "a.b") } ∷ [];
}

abbrev open_record : Spf
open_record = record empty_record { all = some Act.pass }

verify_total_example :
    (s : Status) × (k : ℕ) × (verify (everywhere circular) (codes "a.b") (v4 7) ≡ some (s, k))
    × (k ≤ 17)
verify_total_example = verify_total (everywhere circular) (codes "a.b") (v4 7)

circular_run : verify (everywhere circular) (codes "a.b") (v4 7) ≡ some (Status.perm_error, 17)
unfolding verify check inc_lookup is_settled IpMap.get IpMap.new host_step include_verdict
circular_run = refl

macro_run : expand_macro (λ ip. []) (codes "%{ir}.x") (v4 1) (codes "a.b") ≡ codes "1.0.0.0.x"
unfolding expand_macro ip_reverse
macro_run = refl

-- "-A:X.y/24", "ip4:1.2.3.4" and "~all"
abbrev terms : List Term
terms =
    directive (some Act.fail) (a (some (codes "x.y")) (some 24))
    ∷ directive none (ip4 (codes "1.2.3.4") none)
    ∷ directive (some Act.soft_fail) all
    ∷ []

abbrev parts : List Text
parts = codes "-A:X.y/24" ∷ codes "IP4:1.2.3.4" ∷ codes "~all" ∷ []

parse_run :
    parse_spf (λ t. none) (λ t. none) (codes "\"v=spf1 include:X.y -all\"") 60
    ≡ some (record empty_record {
      all = some Act.fail;
      host = record { act = Act.pass; kind = HostKind.include (codes "x.y") } ∷ [];
    })
unfolding parse_spf trim trim_matches trim_start_matches is_white eq_ignore_ascii_case to_lower
    text_eq split_whitespace strip_prefix starts_with IpMap.new
parse_run = refl
