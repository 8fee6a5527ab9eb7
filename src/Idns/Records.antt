-- ===== src/Idns/Records.antt =====
-- idns/src/lib.rs, the types of idns/src/qtype.rs that are asked for, and the records of
-- idns/src/parse/a.rs, aaaa.rs and mx.rs.
use npm.Common.{
  ℕ, ◌+◌, ◌*◌, ◌-◌, Bool, ◌&&◌, Option, none, some, List, [], ◌∷◌, leb, ltb, ◌==◌, if◌then◌else◌,
}
use npm.Text.{Text, split_once, trim_start_matches, is_dot}
use mathlib.Core.List.{reverse}

pub record Answer : Type 0 where
  pub name : Text
  pub val : Text
  pub type_id : ℕ
  pub ttl : ℕ

abbrev pub a_type : ℕ
a_type = 1

abbrev pub mx_type : ℕ
mx_type = 15

abbrev pub txt_type : ℕ
txt_type = 16

abbrev pub aaaa_type : ℕ
aaaa_type = 28

-- What `query` returns for a name: records, no answer, or the error of the resolver.
pub data Lookup (A : Type 0) : Type 0 where
  records : List A → Lookup A
  nothing : Lookup A
  error : Lookup A

-- An A or an AAAA record.
pub record Host : Type 0 where
  pub ip : ℕ
  pub ttl : ℕ

pub record Mx : Type 0 where
  pub priority : ℕ
  pub server : Text
  pub ttl : ℕ

unfoldable pub keep_some : {A : Type 0} → Option A → List A → List A
keep_some none rest = rest
keep_some (some a) rest = a ∷ rest

-- `filter` on the type, then `filter_map`.
unfoldable pub parse_li : {A : Type 0} → ℕ → (Answer → Option A) → List Answer → List A
unfolding keep_some
parse_li qtype parse [] = []
parse_li qtype parse (a ∷ answers) =
    let rest = parse_li qtype parse answers in
    if a.type_id == qtype then keep_some (parse a) rest else rest

-- The addresses' `FromStr`.
unfoldable pub parse_host : (Text → Option ℕ) → Answer → Option Host
parse_host parse_ip a = elim (parse_ip a.val) [
  | none ↦ none
  | some ip ↦ some (record { ip = ip; ttl = a.ttl })
]

unfoldable pub a_li : (Text → Option ℕ) → List Answer → List Host
unfolding parse_li parse_host
a_li parse_ip answers = parse_li a_type (parse_host parse_ip) answers

unfoldable pub aaaa_li : (Text → Option ℕ) → List Answer → List Host
unfolding parse_li parse_host
aaaa_li parse_ip answers = parse_li aaaa_type (parse_host parse_ip) answers

unfoldable pub is_digit : ℕ → Bool
is_digit c = leb b'0' c && leb c b'9'

unfoldable pub parse_digits : ℕ → ℕ → Text → Option ℕ
unfolding is_digit
parse_digits max acc [] = some acc
parse_digits max acc (c ∷ s) =
    let value = acc * 10 + (c - b'0') in
    let rest = parse_digits max value s in
    if is_digit c then (if ltb max value then none else rest) else none

unfoldable pub parse_nonempty : ℕ → Text → Option ℕ
unfolding parse_digits
parse_nonempty max [] = none
parse_nonempty max (c ∷ s) = parse_digits max 0 (c ∷ s)

-- `str::parse` into an unsigned integer with this largest value. One `+` may stand in front.
unfoldable pub parse_uint : ℕ → Text → Option ℕ
unfolding parse_nonempty
parse_uint max [] = none
parse_uint max (c ∷ s) = if c == b'+' then parse_nonempty max s else parse_nonempty max (c ∷ s)

unfoldable pub trim_end_dots : Text → Text
unfolding trim_start_matches is_dot
trim_end_dots s = reverse (trim_start_matches is_dot (reverse s))

unfoldable pub parse_mx : Answer → Option Mx
unfolding parse_uint trim_end_dots
parse_mx a = elim (split_once 32 a.val) [
  | none ↦ none
  | some (p, s) ↦ elim (parse_uint 65535 p) [
    | none ↦ none
    | some priority ↦ some (record { priority = priority; server = trim_end_dots s; ttl = a.ttl })
  ]
]

unfoldable pub insert_by_priority : Mx → List Mx → List Mx
insert_by_priority m [] = m ∷ []
insert_by_priority m (n ∷ ms) =
    let rest = insert_by_priority m ms in if leb m.priority n.priority then m ∷ n ∷ ms else n ∷ rest

-- `sort_unstable_by_key` leaves the order of equal keys open; here they keep theirs.
unfoldable pub sort_by_priority : List Mx → List Mx
unfolding insert_by_priority
sort_by_priority [] = []
sort_by_priority (m ∷ ms) = insert_by_priority m (sort_by_priority ms)

unfoldable pub mx_li : List Answer → List Mx
unfolding parse_li parse_mx sort_by_priority
mx_li answers = sort_by_priority (parse_li mx_type parse_mx answers)
