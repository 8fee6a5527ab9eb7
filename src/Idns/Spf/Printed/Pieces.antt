-- ===== src/Idns/Spf/Printed/Pieces.antt =====
-- The parts of a term in lower case: a domain or an address, and a prefix length.
use npm.Common.{
  holds_under, holds_under-at, ℕ, ◌<◌, ◌≡◌, refl, ap, arith, Bool, true, false, Option, none, some,
  [], ◌∷◌, ◌++◌, ◌==◌, ==_iff, append-nil, ◌∙◌,
}
use npm.Text.{Text, to_lower, split_once}
use npm.Text.Cut.{split_once-append}
use npm.IpSet.Range.{v4_bits}
use npm.Idns.Records.{parse_uint}
use npm.Idns.Spf.Macro.{decimal}
use npm.Idns.Spf.Parse.{parse_prefix, parse_domain_bits, parse_ip, with_bits}
use npm.Idns.Spf.Printed.{
  HasNoSlash, IsPrefix, IsDomain, print_domain, print_prefix, lower, lower_domain, or_default,
}
use mathlib.Core.List.{map-append}

lower-HasNoSlash : (d : Text) → HasNoSlash d → HasNoSlash (lower d)
unfolding to_lower
lower-HasNoSlash [] h = tt
lower-HasNoSlash (c ∷ d) h = (ground (arith, h.0), lower-HasNoSlash d h.1)

no_slash : (d : Text) → HasNoSlash d → split_once b'/' d ≡ none
unfolding split_once
no_slash [] h = refl
no_slash (c ∷ d) h = rw (h.0, no_slash d h.1) refl

-- Every byte is tried.
abbrev reads_back : ℕ → Bool
reads_back n = elim (parse_uint 255 (lower (decimal n))) [ none ↦ false | some m ↦ m == n ]

bytes_read_back : holds_under reads_back 256 ≡ true
unfolding holds_under parse_uint decimal to_lower
bytes_read_back = refl

parse_uint-decimal : (n : ℕ) → n < 256 → parse_uint 255 (lower (decimal n)) ≡ some n
parse_uint-decimal n h =
    by_result (parse_uint 255 (lower (decimal n)))
      (holds_under-at reads_back 256 n h bytes_read_back)
  where
    by_result :
        (o : Option ℕ)
        → (elim o as (λ x. Bool) [ none ↦ false | some m ↦ m == n ]) ≡ true
        → o ≡ some n
    by_result none e = cc
    by_result (some m) e = ap some ((==_iff m n).0 e)

parse_prefix-decimal : (n default : ℕ) → n < 256 → parse_prefix (lower (decimal n)) default ≡ n
unfolding parse_prefix
parse_prefix-decimal n default h = rw (parse_prefix, parse_uint-decimal n h) refl

pub domain_bits_lem :
    (d : Option Text) (n : Option ℕ)
    → IsDomain d
    → IsPrefix n
    → parse_domain_bits (lower (print_domain d ++ print_prefix n))
      ≡ (lower_domain d, or_default v4_bits n)
unfolding parse_domain_bits to_lower
domain_bits_lem none none hd hn = refl
domain_bits_lem none (some n) hd hn = ap (λ k. (none, k)) (parse_prefix-decimal n v4_bits hn)
domain_bits_lem (some d) none hd hn =
    ap (λ t. parse_domain_bits (lower (b':' ∷ t))) (append-nil {A = ℕ} d)
    ∙ rw (no_slash (lower d) (lower-HasNoSlash d hd)) refl
domain_bits_lem (some d) (some n) hd hn =
    rw
      (
        map-append to_lower d (b'/' ∷ decimal n),
        split_once-append b'/' (lower d) (lower (decimal n)) (lower-HasNoSlash d hd),
        parse_prefix-decimal n v4_bits hn,
      )
      refl

module _ (parse_v4 parse_v6 parse : Text → Option ℕ) where
  pub parse_ip_lem :
      (addr : Text) (n : Option ℕ) (default : ℕ)
      → HasNoSlash addr
      → IsPrefix n
      → parse_ip parse_v4 parse_v6 parse (lower (addr ++ print_prefix n)) default
        ≡ with_bits parse_v4 parse_v6 (or_default default n) (parse (lower addr))
  unfolding parse_ip to_lower
  parse_ip_lem addr none default ha hn =
      ap (λ t. parse_ip parse_v4 parse_v6 parse (lower t) default) (append-nil {A = ℕ} addr)
      ∙ rw (parse_ip, no_slash (lower addr) (lower-HasNoSlash addr ha)) refl
  parse_ip_lem addr (some n) default ha hn =
      rw
        (
          parse_ip,
          map-append to_lower addr (b'/' ∷ decimal n),
          split_once-append b'/' (lower addr) (lower (decimal n)) (lower-HasNoSlash addr ha),
          parse_prefix-decimal n default hn,
        )
        refl
