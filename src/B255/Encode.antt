-- ===== src/B255/Encode.antt =====
-- b255/src/encode.rs.
pub mod Digits
use npm.Common.{
  ℕ, zero, suc, ◌*◌, Bool, true, false, not, List, [], ◌∷◌, ◌++◌, Option, none, some, ◌==◌,
  if◌then◌else◌, length, drop, replicate,
}
use npm.B255.Util.{forbidden_byte, from_bytes_be, div_rem255, count_zeros}

-- `match rem { FORBIDDEN_BYTE => 255, r => r }`
unfoldable pub map_digit : ℕ → ℕ
map_digit r = if r == forbidden_byte then 255 else r

-- The test of the loop of `encode`: `num.len() > 1 || num[0] != 0`.
unfoldable pub goes_on : List ℕ → Bool
goes_on [] = false
goes_on (d ∷ []) = not (d == 0)
goes_on (d ∷ e ∷ ds) = true

-- `none` means that the fuel ran out. `Codec` shows that the fuel which `encode` gives is enough.
unfoldable pub encode_loop : ℕ → List ℕ → Option (List ℕ)
unfolding goes_on div_rem255 map_digit
encode_loop zero num = if goes_on num then none else some []
encode_loop (suc fuel) num =
    let (num', rem) = div_rem255 num in
    let rest = encode_loop fuel num' in
    if goes_on num
    then elim rest [ none ↦ none | some out ↦ some (map_digit rem ∷ out) ]
    else some []

unfoldable pub encode_core : ℕ → List ℕ → Option (List ℕ)
encode_core leading_zeros [] = some (replicate leading_zeros 0)
encode_core leading_zeros (b ∷ bs) =
    elim (encode_loop (2 * length (b ∷ bs)) (from_bytes_be (b ∷ bs))) [
      | none ↦ none
      | some encoded ↦ some (encoded ++ replicate leading_zeros 0)
    ]

unfoldable pub encode : List ℕ → Option (List ℕ)
encode input =
    let leading_zeros = count_zeros input in encode_core leading_zeros (drop leading_zeros input)
