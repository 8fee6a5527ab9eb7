-- ===== src/Idns/Spf/Macro.antt =====
-- `expand_macro` and `ip_reverse` of idns/src/parse/spf.rs.
use npm.Common.{
  ℕ, zero, suc, ◌+◌, ◌/◌, ◌%◌, ◌^◌, ◌≡◌, refl, sym, ap, arith, Bool, true, false, ◌||◌, Option,
  none, some, [], ◌∷◌, ◌++◌, ltb, ◌==◌, if◌then◌else◌, Bool-cases, inl, inr,
}
use npm.Text.{Text, codes}
use npm.Idns.Address.{IpAddr, v4, v6}

-- A byte in decimal digits.
unfoldable pub decimal : ℕ → Text
decimal n =
    if ltb n 10
    then (48 + n) ∷ []
    else if ltb n 100
    then (48 + n / 10) ∷ (48 + n % 10) ∷ []
    else (48 + n / 100) ∷ (48 + n / 10 % 10) ∷ (48 + n % 10) ∷ []

unfoldable pub hex_digit : ℕ → ℕ
hex_digit n = if ltb n 10 then 48 + n else 87 + n

-- The bytes from the last on; of each the low half first.
unfoldable pub hex_bytes : ℕ → ℕ → Text
unfolding hex_digit
hex_bytes zero n = []
hex_bytes (suc zero) n = hex_digit (n % 16) ∷ b'.' ∷ hex_digit (n / 16 % 16) ∷ []
hex_bytes (suc (suc k)) n =
    hex_digit (n % 16) ∷ b'.' ∷ hex_digit (n / 16 % 16) ∷ b'.' ∷ hex_bytes (suc k) (n / 256)

unfoldable pub ip_reverse : IpAddr → Text
unfolding decimal hex_bytes
ip_reverse (v4 n) =
    decimal (n % 256)
    ++ (b'.'
        ∷ (decimal (n / 2 ^ 8 % 256)
            ++ (b'.' ∷ (decimal (n / 2 ^ 16 % 256) ++ (b'.' ∷ decimal (n / 2 ^ 24 % 256))))))
ip_reverse (v6 n) = hex_bytes 16 n

pub data Letter : Type 0 where
  ip : Letter
  domain : Letter

-- Where the loop stands: in plain text, behind a `%`, or inside `%{…}`.
pub data Mode : Type 0 where
  plain : Mode
  percent : Mode
  brace : Option Letter → Bool → Mode

-- `IpAddr::to_string`
module _ (display : IpAddr → Text) where
  unfoldable pub macro_text : IpAddr → Text → Option Letter → Bool → Text
  macro_text addr name none reverse = []
  macro_text addr name (some Letter.ip) true = ip_reverse addr
  macro_text addr name (some Letter.ip) false = display addr
  macro_text addr name (some Letter.domain) reverse = name

  unfoldable pub brace_step : ℕ → Option Letter → Bool → Mode
  brace_step c letter reverse =
      if (c == b'i') || (c == b'I')
      then brace (some Letter.ip) reverse
      else if (c == b'd') || (c == b'D')
      then brace (some Letter.domain) reverse
      else if (c == b'r') || (c == b'R')
      then brace letter true
      else brace letter reverse

  -- What a character adds to the output, and where the loop stands after it.
  unfoldable pub macro_step : IpAddr → Text → Mode → ℕ → Text × Mode
  unfolding macro_text brace_step
  macro_step addr name plain c = if c == b'%' then ([], percent) else (c ∷ [], plain)
  macro_step addr name percent c =
      if c == b'%'
      then (b'%' ∷ [], plain)
      else if c == b'_'
      then (32 ∷ [], plain)
      else if c == b'-'
      then (codes "%20", plain)
      else if c == b'{'
      then ([], brace none false)
      else (b'%' ∷ c ∷ [], plain)
  macro_step addr name (brace letter reverse) c =
      if c == b'}'
      then (macro_text addr name letter reverse, plain)
      else ([], brace_step c letter reverse)

  unfoldable pub macro_end : IpAddr → Text → Mode → Text
  unfolding macro_text
  macro_end addr name plain = []
  macro_end addr name percent = b'%' ∷ []
  macro_end addr name (brace letter reverse) = macro_text addr name letter reverse

  unfoldable pub expand : IpAddr → Text → Mode → Text → Text
  unfolding macro_step macro_end
  expand addr name mode [] = macro_end addr name mode
  expand addr name mode (c ∷ s) =
      (macro_step addr name mode c).0 ++ expand addr name (macro_step addr name mode c).1 s

  unfoldable pub has_percent : Text → Bool
  has_percent [] = false
  has_percent (c ∷ s) = (c == b'%') || has_percent s

  unfoldable pub expand_macro : Text → IpAddr → Text → Text
  unfolding has_percent expand
  expand_macro s addr name = if has_percent s then expand addr name plain s else s

  expand-plain :
      (s : Text) (addr : IpAddr) (name : Text)
      → has_percent s ≡ false
      → expand addr name plain s ≡ s
  unfolding expand has_percent
  expand-plain [] addr name h = refl
  expand-plain (c ∷ s) addr name h = elim (Bool-cases (c == b'%')) [
    | inl e ↦ absurd (ground arith)
    | inr e ↦ rw e (ap (λ t. c ∷ t) (expand-plain s addr name (ground arith)))
  ]

  -- The short cut for a text without `%` gives what the loop over its characters gives.
  pub expand_macro-expand :
      (s : Text) (addr : IpAddr) (name : Text) → expand_macro s addr name ≡ expand addr name plain s
  unfolding expand_macro
  expand_macro-expand s addr name = elim (Bool-cases (has_percent s)) [
    | inl e ↦ rw e refl
    | inr e ↦ rw e (sym (expand-plain s addr name e))
  ]
