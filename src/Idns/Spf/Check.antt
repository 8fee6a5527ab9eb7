-- ===== src/Idns/Spf/Check.antt =====
-- The evaluation of idns/src/parse/spf.rs. The counter of the lookups is the state; `none` means
-- that the fuel, which counts nested records, ran out.
use npm.Common.{
  ℕ, zero, suc, ◌+◌, ◌%◌, ◌^◌, Bool, true, false, ◌||◌, Option, none, some, List, [], ◌∷◌, take,
  ltb, if◌then◌else◌,
}
use npm.Text.{Text}
use npm.IpSet.IpMap
use npm.IpSet.Range.{in_cidr, v4_bits, v6_bits}
use npm.Idns.Address.{IpAddr, v4, v6}
use npm.Idns.Records
use npm.Idns.Records.{Lookup, records, nothing, error, Mx}
use npm.Idns.Spf.{Status, Act, Host, HostKind, Spf, status_of}
use npm.Idns.Spf.Macro.{expand_macro}

abbrev pub Counting : Type 0 → Type 0
Counting A = ℕ → Option (A × ℕ)

infixl 5 ◌>>=◌
abbrev pub ◌>>=◌ : {A B : Type 0} → Counting A → (A → Counting B) → Counting B
m >>= f = λ n. elim (m n) [ none ↦ none | some (a, k) ↦ f a k ]

abbrev pub return : {A : Type 0} → A → Counting A
return a n = some (a, n)

abbrev pub max_lookups : ℕ
max_lookups = 16

abbrev pub max_mx : ℕ
max_mx = 10

-- The counter is a byte.
unfoldable pub inc_lookup : Counting Bool
inc_lookup n = some (ltb max_lookups ((n + 1) % 2 ^ 8), (n + 1) % 2 ^ 8)

pub data DnsResult : Type 0 where
  matched : DnsResult
  no_match : DnsResult
  failed : DnsResult

-- What is known of a name, by kind of record, and `IpAddr::to_string`.
pub record Resolver : Type 0 where
  pub spf : Text → Lookup Spf
  pub a : Text → Lookup Records.Host
  pub aaaa : Text → Lookup Records.Host
  pub mx : Text → Lookup Mx
  pub display : IpAddr → Text

unfoldable pub any_in_cidr : ℕ → ℕ → ℕ → List Records.Host → Bool
any_in_cidr width bits target [] = false
any_in_cidr width bits target (h ∷ hs) =
    in_cidr width h.ip bits target || any_in_cidr width bits target hs

unfoldable pub cidr_result : ℕ → ℕ → ℕ → Lookup Records.Host → DnsResult
unfolding any_in_cidr
cidr_result width bits target (records li) =
    if any_in_cidr width bits target li then matched else no_match
cidr_result width bits target nothing = no_match
cidr_result width bits target error = failed

unfoldable pub exists_result : Lookup Records.Host → Bool
exists_result (records []) = false
exists_result (records (h ∷ hs)) = true
exists_result nothing = false
exists_result error = false

-- What a mechanism does to the loop of `eval`: it returns, goes on, or sets the redirect.
pub data Verdict : Type 0 where
  stop : Status → Verdict
  go_on : Verdict
  redirect_to : Text → Verdict

unfoldable pub include_verdict : Act → Status → Verdict
include_verdict act Status.pass = stop (status_of act)
include_verdict act Status.none = stop Status.perm_error
include_verdict act Status.perm_error = stop Status.perm_error
include_verdict act Status.temp_error = stop Status.temp_error
include_verdict act _ = go_on

-- The error differs: `a` gives a temporary error, `mx` a permanent one.
unfoldable pub dns_verdict : Act → Status → DnsResult → Verdict
dns_verdict act on_error matched = stop (status_of act)
dns_verdict act on_error no_match = go_on
dns_verdict act on_error failed = stop on_error

unfoldable pub or_domain : Option Text → Text → Text
or_domain none domain = domain
or_domain (some d) domain = d

unfoldable pub redirect_status : Status → Status
redirect_status Status.none = Status.perm_error
redirect_status s = s

unfoldable pub all_status : Option Act → Status
all_status none = Status.neutral
all_status (some act) = status_of act

unfoldable pub is_settled : Status → Bool
is_settled Status.pass = true
is_settled Status.perm_error = true
is_settled Status.temp_error = true
is_settled _ = false

unfoldable pub ranged_act : Spf → IpAddr → Option Act
ranged_act spf (v4 addr) = IpMap.get addr spf.ip4
ranged_act spf (v6 addr) = IpMap.get addr spf.ip6

unfoldable pub fallback_act : Option Act → List Host → Option Act
fallback_act all [] = all
fallback_act all (h ∷ hs) = none

unfoldable pub or_act : Option Act → Option Act → Option Act
or_act none b = b
or_act (some a) b = some a

unfoldable pub check : Spf → IpAddr → Option Act
unfolding ranged_act fallback_act or_act
check spf ip = or_act (ranged_act spf ip) (fallback_act spf.all spf.host)

module _ (q : Resolver) where
  unfoldable pub host_match : Text → ℕ → IpAddr → DnsResult
  unfolding cidr_result
  host_match host bits (v4 target) = cidr_result v4_bits bits target (q.a host)
  host_match host bits (v6 target) = cidr_result v6_bits bits target (q.aaaa host)

  unfoldable pub mx_loop : ℕ → IpAddr → List Mx → Counting DnsResult
  unfolding host_match
  mx_loop bits ip [] = return no_match
  mx_loop bits ip (m ∷ ms) = do
    over ← inc_lookup
    if over then return failed else elim (host_match m.server bits ip) [
      | matched ↦ return matched
      | failed ↦ return failed
      | no_match ↦ mx_loop bits ip ms
    ]

  unfoldable pub mx_records : ℕ → IpAddr → Lookup Mx → Counting DnsResult
  unfolding mx_loop
  mx_records bits ip (records li) = mx_loop bits ip (take max_mx li)
  mx_records bits ip nothing = return no_match
  mx_records bits ip error = return failed

  unfoldable pub mx_match : Text → ℕ → IpAddr → Counting DnsResult
  unfolding mx_records
  mx_match domain bits ip = mx_records bits ip (q.mx domain)

  unfoldable pub host_exists : Text → Bool
  unfolding exists_result
  host_exists host = exists_result (q.a host)

  -- A mechanism that is counted before its lookup.
  unfoldable pub counted : Counting Verdict → Counting Verdict
  counted m = do over ← inc_lookup; if over then return (stop Status.perm_error) else m

  -- `check_host` on a further domain is an argument.
  module _ (rec : Text → Counting Status) where
    unfoldable pub host_step : Text → IpAddr → Act → HostKind → Counting Verdict
    unfolding counted
    host_step domain ip act (HostKind.include d) = do r ← rec d; return (include_verdict act r)
    host_step domain ip act (HostKind.redirect d) = return (redirect_to d)
    host_step domain ip act (HostKind.a d bits) =
        counted
          (return (dns_verdict act Status.temp_error (host_match (or_domain d domain) bits ip)))
    host_step domain ip act (HostKind.mx d bits) =
        counted (do
          r ← mx_match (or_domain d domain) bits ip
          return (dns_verdict act Status.perm_error r))
    host_step domain ip act (HostKind.exists d) = counted (
        return (
          if host_exists (expand_macro q.display d ip domain) then stop (status_of act) else go_on))

    unfoldable pub finish : Option Act → Option Text → Counting Status
    finish all (some d) = do r ← rec d; return (redirect_status r)
    finish all none = return (all_status all)

    unfoldable pub eval_hosts :
        Text → IpAddr → Option Act → Option Text → List Host → Counting Status
    unfolding finish
    eval_hosts domain ip all redirect [] = finish all redirect
    eval_hosts domain ip all redirect (h ∷ hs) = do
      v ← host_step domain ip h.act h.kind
      elim v [
        | stop status ↦ return status
        | go_on ↦ eval_hosts domain ip all redirect hs
        | redirect_to d ↦ eval_hosts domain ip all (some d) hs
      ]

    unfoldable pub eval : Spf → Text → IpAddr → Counting Status
    unfolding eval_hosts
    eval spf domain ip = elim (check spf ip) [
      | some act ↦ return (status_of act)
      | none ↦ eval_hosts domain ip spf.all none spf.host
    ]

    unfoldable pub eval_records : Text → IpAddr → Lookup Spf → Counting Status
    unfolding eval
    eval_records domain ip (records []) = return Status.none
    eval_records domain ip (records (spf ∷ [])) = eval spf domain ip
    eval_records domain ip (records (spf ∷ other ∷ li)) = return Status.perm_error
    eval_records domain ip nothing = return Status.none
    eval_records domain ip error = return Status.temp_error

  unfoldable pub check_host : ℕ → IpAddr → Text → Counting Status
  unfolding eval_records
  check_host zero ip domain = λ n. none
  check_host (suc fuel) ip domain = do
    over ← inc_lookup
    if over
        then return Status.perm_error
        else eval_records (check_host fuel ip) domain ip (q.spf domain)

  unfoldable pub width : IpAddr → ℕ
  width (v4 addr) = v4_bits
  width (v6 addr) = v6_bits

  unfoldable pub or_pass : Status → DnsResult → Status
  or_pass r matched = Status.pass
  or_pass r _ = r

  unfoldable pub verify_counting : Text → IpAddr → Counting Status
  unfolding check_host mx_match width or_pass
  verify_counting domain ip = do
    r ← check_host 17 ip domain
    if is_settled r then return r else (do m ← mx_match domain (width ip) ip; return (or_pass r m))

  -- With the counter at its end, which the caller drops.
  unfoldable pub verify : Text → IpAddr → Option (Status × ℕ)
  unfolding verify_counting
  verify domain ip = verify_counting domain ip 0
