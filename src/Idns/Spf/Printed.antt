-- ===== src/Idns/Spf/Printed.antt =====
-- The terms of a record as RFC 7208 writes them, and what one adds to the record that is read.
pub mod Pieces
pub mod Terms
use npm.Common.{
  ℕ, ◌<◌, Bool, true, false, Option, none, some, List, [], ◌∷◌, ◌++◌, map, All, ◌==◌, ◌≡◌,
}
use npm.Text.{Text, codes, to_lower}
use npm.IpSet.IpMap
use npm.IpSet.Range.{v4_bits, v6_bits}
use npm.Idns.Spf.{Act, HostKind, Spf}
use npm.Idns.Spf.Macro.{decimal}

-- A mechanism with its domain or address as it is written, and the prefix length, if it has one.
pub data Mechanism : Type 0 where
  all : Mechanism
  ip4 : Text → Option ℕ → Mechanism
  ip6 : Text → Option ℕ → Mechanism
  a : Option Text → Option ℕ → Mechanism
  mx : Option Text → Option ℕ → Mechanism
  include : Text → Mechanism
  exists : Text → Mechanism

-- A directive has a qualifier or not.
pub data Term : Type 0 where
  directive : Option Act → Mechanism → Term
  redirect : Text → Term
  exp : Text → Term

abbrev pub print_act : Option Act → Text
print_act none = []
print_act (some Act.pass) = codes "+"
print_act (some Act.fail) = codes "-"
print_act (some Act.soft_fail) = codes "~"
print_act (some Act.neutral) = codes "?"

abbrev pub print_domain : Option Text → Text
print_domain none = []
print_domain (some d) = b':' ∷ d

abbrev pub print_prefix : Option ℕ → Text
print_prefix none = []
print_prefix (some n) = b'/' ∷ decimal n

abbrev pub print_mechanism : Mechanism → Text
print_mechanism all = codes "all"
print_mechanism (ip4 addr n) = codes "ip4:" ++ (addr ++ print_prefix n)
print_mechanism (ip6 addr n) = codes "ip6:" ++ (addr ++ print_prefix n)
print_mechanism (a d n) = codes "a" ++ (print_domain d ++ print_prefix n)
print_mechanism (mx d n) = codes "mx" ++ (print_domain d ++ print_prefix n)
print_mechanism (include d) = codes "include:" ++ d
print_mechanism (exists d) = codes "exists:" ++ d

abbrev pub print_term : Term → Text
print_term (directive act m) = print_act act ++ print_mechanism m
print_term (redirect d) = codes "redirect=" ++ d
print_term (exp d) = codes "exp=" ++ d

abbrev pub HasNoSlash : Text → Type 0
HasNoSlash = All (λ c. (c == b'/') ≡ false)

abbrev pub IsPrefix : Option ℕ → Type 0
IsPrefix none = Unit {0}
IsPrefix (some n) = n < 256

abbrev pub IsDomain : Option Text → Type 0
IsDomain none = Unit {0}
IsDomain (some d) = HasNoSlash d

-- A prefix length fits in a byte, and what may stand before one has no slash.
abbrev pub IsMechanism : Mechanism → Type 0
IsMechanism (ip4 addr n) = HasNoSlash addr × IsPrefix n
IsMechanism (ip6 addr n) = HasNoSlash addr × IsPrefix n
IsMechanism (a d n) = IsDomain d × IsPrefix n
IsMechanism (mx d n) = IsDomain d × IsPrefix n
IsMechanism _ = Unit {0}

abbrev pub IsPrintable : Term → Type 0
IsPrintable (directive act m) = IsMechanism m
IsPrintable _ = Unit {0}

abbrev pub or_default : {A : Type 0} → A → Option A → A
or_default default none = default
or_default default (some x) = x

abbrev pub lower : Text → Text
lower s = map to_lower s

abbrev pub lower_domain : Option Text → Option Text
lower_domain none = none
lower_domain (some d) = some (lower d)

abbrev pub with_host : Act → HostKind → Spf → Spf
with_host act kind spf = record spf { host = spf.host ++ (record { act = act; kind = kind } ∷ []) }

abbrev pub with_ip4 : Act → ℕ → Option ℕ → Spf → Spf
with_ip4 act n none spf = spf
with_ip4 act n (some addr) spf = record spf { ip4 = IpMap.add_cidr v4_bits addr n act spf.ip4 }

abbrev pub with_ip6 : Act → ℕ → Option ℕ → Spf → Spf
with_ip6 act n none spf = spf
with_ip6 act n (some addr) spf = record spf { ip6 = IpMap.add_cidr v6_bits addr n act spf.ip6 }

module _ (parse_v4 parse_v6 : Text → Option ℕ) where
  abbrev pub with_mechanism : Act → Mechanism → Spf → Spf
  with_mechanism act all spf = record spf { all = some act }
  with_mechanism act (ip4 addr n) spf =
      with_ip4 act (or_default v4_bits n) (parse_v4 (lower addr)) spf
  with_mechanism act (ip6 addr n) spf =
      with_ip6 act (or_default v6_bits n) (parse_v6 (lower addr)) spf
  with_mechanism act (a d n) spf =
      with_host act (HostKind.a (lower_domain d) (or_default v4_bits n)) spf
  with_mechanism act (mx d n) spf =
      with_host act (HostKind.mx (lower_domain d) (or_default v4_bits n)) spf
  with_mechanism act (include d) spf = with_host act (HostKind.include (lower d)) spf
  with_mechanism act (exists d) spf = with_host act (HostKind.exists (lower d)) spf

  -- An address that cannot be read and an explanation add nothing.
  abbrev pub with_term : Term → Spf → Spf
  with_term (directive act m) spf = with_mechanism (or_default Act.pass act) m spf
  with_term (redirect d) spf = with_host Act.pass (HostKind.redirect (lower d)) spf
  with_term (exp d) spf = spf

  abbrev pub with_terms : List Term → Spf → Spf
  with_terms [] spf = spf
  with_terms (t ∷ ts) spf = with_terms ts (with_term t spf)
