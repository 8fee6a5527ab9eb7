-- ===== src/Idns/Spf/Parse.antt =====
-- The parser of idns/src/parse/spf.rs.
use npm.Common.{
  ℕ, Bool, Option, none, some, List, [], ◌∷◌, ◌++◌, map, drop, take, ◌==◌, if◌then◌else◌,
}
use npm.Text.{
  Text, codes, to_lower, text_eq, eq_ignore_ascii_case, trim, trim_matches, split_once, starts_with,
  strip_prefix, split_whitespace,
}
use npm.IpSet.IpMap
use npm.IpSet.Range.{v4_bits, v6_bits}
use npm.Idns.Records.{Answer, txt_type, parse_li, parse_uint}
use npm.Idns.Spf.{Act, HostKind, Spf}

unfoldable pub parse_act : Text → Act × Text
parse_act [] = (Act.pass, [])
parse_act (c ∷ s) =
    if c == b'+'
    then (Act.pass, s)
    else if c == b'-'
    then (Act.fail, s)
    else if c == b'~'
    then (Act.soft_fail, s)
    else if c == b'?'
    then (Act.neutral, s)
    else (Act.pass, c ∷ s)

unfoldable pub parse_prefix : Text → ℕ → ℕ
parse_prefix s default = elim (parse_uint 255 s) [ none ↦ default | some n ↦ n ]

unfoldable pub parse_domain_bits : Text → Option Text × ℕ
unfolding parse_prefix
parse_domain_bits [] = (none, v4_bits)
parse_domain_bits (c ∷ s) =
    if c == b'/'
    then (none, parse_prefix s v4_bits)
    else let rest : Text = if c == b':' then s else c ∷ s in
      elim (split_once b'/' rest) [
        | none ↦ (some rest, v4_bits)
        | some (domain, p) ↦ (some domain, parse_prefix p v4_bits)
      ]

unfoldable pub mech_rest : Option Text → Option Text
mech_rest none = none
mech_rest (some r) =
    if starts_with (codes ":") r then some r else if starts_with (codes "/") r then some r else none

unfoldable pub strip_mech : Text → Text → Option Text
unfolding mech_rest
strip_mech s mech = if text_eq s mech then some [] else mech_rest (strip_prefix mech s)

-- The addresses' `FromStr`.
module _ (parse_v4 parse_v6 : Text → Option ℕ) where
  unfoldable pub with_bits : ℕ → Option ℕ → Option (ℕ × ℕ)
  with_bits bits none = none
  with_bits bits (some addr) = some (addr, bits)

  unfoldable pub parse_ip : (Text → Option ℕ) → Text → ℕ → Option (ℕ × ℕ)
  unfolding with_bits parse_prefix
  parse_ip parse s default = elim (split_once b'/' s) [
    | none ↦ with_bits default (parse s)
    | some (a, p) ↦ with_bits (parse_prefix p default) (parse a)
  ]

  unfoldable pub push : Act → HostKind → Spf → Spf
  push act kind spf = record spf { host = spf.host ++ (record { act = act; kind = kind } ∷ []) }

  unfoldable pub add_ip4 : Act → Option (ℕ × ℕ) → Spf → Spf
  add_ip4 act none spf = spf
  add_ip4 act (some (addr, bits)) spf = record spf {
    ip4 = IpMap.add_cidr v4_bits addr bits act spf.ip4;
  }

  unfoldable pub add_ip6 : Act → Option (ℕ × ℕ) → Spf → Spf
  add_ip6 act none spf = spf
  add_ip6 act (some (addr, bits)) spf = record spf {
    ip6 = IpMap.add_cidr v6_bits addr bits act spf.ip6;
  }

  unfoldable pub add_mx : Act → Text → Spf → Spf
  unfolding push strip_mech parse_domain_bits
  add_mx act rest spf = elim (strip_mech rest (codes "mx")) [
    | none ↦ spf
    | some s ↦ push act (HostKind.mx (parse_domain_bits s).0 (parse_domain_bits s).1) spf
  ]

  unfoldable pub add_a : Act → Text → Spf → Spf
  unfolding add_mx push strip_mech parse_domain_bits
  add_a act rest spf = elim (strip_mech rest (codes "a")) [
    | none ↦ add_mx act rest spf
    | some s ↦ push act (HostKind.a (parse_domain_bits s).0 (parse_domain_bits s).1) spf
  ]

  unfoldable pub add_exists : Act → Text → Spf → Spf
  unfolding add_a push
  add_exists act rest spf = elim (strip_prefix (codes "exists:") rest) [
    | none ↦ add_a act rest spf
    | some domain ↦ push act (HostKind.exists domain) spf
  ]

  unfoldable pub add_include : Act → Text → Spf → Spf
  unfolding add_exists push
  add_include act rest spf = elim (strip_prefix (codes "include:") rest) [
    | none ↦ add_exists act rest spf
    | some domain ↦ push act (HostKind.include domain) spf
  ]

  unfoldable pub add_term : Act → Text → Spf → Spf
  unfolding add_include add_ip4 add_ip6 parse_ip
  add_term act rest spf =
      if text_eq rest (codes "all")
      then record spf { all = some act }
      else elim (strip_prefix (codes "ip4:") rest) [
        | some s ↦ add_ip4 act (parse_ip parse_v4 s v4_bits) spf
        | none ↦ elim (strip_prefix (codes "ip6:") rest) [
          | some s ↦ add_ip6 act (parse_ip parse_v6 s v6_bits) spf
          | none ↦ add_include act rest spf
        ]
      ]

  -- The body of the loop of `parse_spf`, on a part in lower case.
  unfoldable pub add_part : Text → Spf → Spf
  unfolding add_term parse_act push
  add_part part spf = elim (strip_prefix (codes "redirect=") part) [
    | some domain ↦ push Act.pass (HostKind.redirect domain) spf
    | none ↦
        if starts_with (codes "exp=") part
        then spf
        else add_term (parse_act part).0 (parse_act part).1 spf
  ]

  unfoldable pub add_parts : List Text → Spf → Spf
  unfolding add_part
  add_parts [] spf = spf
  add_parts (part ∷ parts) spf = add_parts parts (add_part (map to_lower part) spf)

  unfoldable pub is_quote : ℕ → Bool
  is_quote c = c == b'"'

  unfoldable pub empty_spf : ℕ → Spf
  empty_spf ttl = record { ip4 = IpMap.new; ip6 = IpMap.new; all = none; host = []; ttl = ttl }

  unfoldable pub parse_spf : Text → ℕ → Option Spf
  unfolding add_parts is_quote empty_spf
  parse_spf raw ttl =
      let val = trim_matches is_quote (trim raw) in
      if eq_ignore_ascii_case (take 6 val) (codes "v=spf1")
      then some (add_parts (drop 1 (split_whitespace val)) (empty_spf ttl))
      else none

  -- `Spf::li`
  unfoldable pub spf_li : List Answer → List Spf
  unfolding parse_spf parse_li
  spf_li answers = parse_li txt_type (λ a. parse_spf a.val a.ttl) answers
