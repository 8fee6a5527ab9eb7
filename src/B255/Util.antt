-- ===== src/B255/Util.antt =====
-- b255/src/util.rs: big numbers as lists of 64-bit digits, the lowest first.
pub mod Division
pub mod Bytes
use npm.Common.{
  ℕ, zero, suc, ◌+◌, ◌-◌, ◌*◌, ◌/◌, ◌%◌, ◌^◌, Bool, false, List, [], ◌∷◌, map, ltb, leb, ◌==◌,
  if◌then◌else◌, length, take, drop,
}
use Prim.Native.Nat.{bit_or}
use mathlib.Core.List.{foldl}

-- `util.rs`: a `Digit` is a u64, a `DoubleDigit` a u128.
abbrev pub digit_mod : ℕ
digit_mod = 2 ^ 64

abbrev pub double_mod : ℕ
double_mod = 2 ^ 128

abbrev pub forbidden_byte : ℕ
forbidden_byte = b':'

-- `bytes.rchunks(8)`: chunks of eight from the end; the last chunk, the front, may be shorter.
unfoldable pub rchunks : ℕ → List ℕ → List (List ℕ)
rchunks zero bytes = []
rchunks (suc fuel) [] = []
rchunks (suc fuel) (b ∷ bs) =
    let n = length (b ∷ bs) in
    let rest = rchunks fuel (take (n - 8) (b ∷ bs)) in
    if leb n 8 then (b ∷ bs) ∷ [] else drop (n - 8) (b ∷ bs) ∷ rest

-- `Digit::from_be_bytes`.
unfoldable pub from_be_bytes : List ℕ → ℕ
from_be_bytes = foldl (λ acc b. acc * 256 + b) 0

-- One round of the loop over a short chunk, `val = (val << 8) | b as Digit`.
unfoldable pub push_byte : ℕ → ℕ → ℕ
push_byte val b = bit_or (val * 2 ^ 8 % digit_mod) b

unfoldable pub digit_of_chunk : List ℕ → ℕ
unfolding push_byte from_be_bytes
digit_of_chunk chunk = if length chunk == 8 then from_be_bytes chunk else foldl push_byte 0 chunk

-- Each chunk has a byte, so `length bytes` rounds are enough.
unfoldable pub from_bytes_be : List ℕ → List ℕ
unfolding rchunks digit_of_chunk
from_bytes_be bytes = map digit_of_chunk (rchunks (length bytes) bytes)

-- The body of the loop of `div_rem255`: the new digit and the new remainder.
unfoldable pub div_step : ℕ → ℕ → ℕ × ℕ
div_step d rem =
    let sum_low = (d + rem) % digit_mod in
    if ltb (d + rem) digit_mod
    then ((rem * 0x0101010101010101 + sum_low / 255) % digit_mod, sum_low % 255)
    else ((rem + 1) * 0x0101010101010101 % digit_mod, (sum_low + 1) % digit_mod)

-- The loop goes over the digits from the highest, the end of the list, to the lowest.
unfoldable pub div_digits : List ℕ → List ℕ × ℕ
unfolding div_step
div_digits [] = ([], 0)
div_digits (d ∷ ds) =
    let (qs, rem) = div_digits ds in let (q, rem') = div_step d rem in (q ∷ qs, rem')

unfoldable pub is_single_zero : List ℕ → Bool
is_single_zero [] = false
is_single_zero (d ∷ []) = d == 0
is_single_zero (d ∷ e ∷ ds) = false

-- `while num.len() > 1 && num[num.len() - 1] == 0 { num.pop(); }`
unfoldable pub pop_zeros : List ℕ → List ℕ
unfolding is_single_zero
pop_zeros [] = []
pop_zeros (d ∷ []) = d ∷ []
pop_zeros (d ∷ e ∷ ds) =
    let high = pop_zeros (e ∷ ds) in if is_single_zero high then d ∷ [] else d ∷ high

-- Returns the quotient, left in `num` by the source, and the remainder as a byte.
unfoldable pub div_rem255 : List ℕ → List ℕ × ℕ
unfolding div_digits pop_zeros
div_rem255 num = let (qs, rem) = div_digits num in (pop_zeros qs, rem % 256)

-- `iter().take_while(|&&b| b == 0).count()`
unfoldable pub count_zeros : List ℕ → ℕ
count_zeros [] = 0
count_zeros (b ∷ bs) = let n = count_zeros bs in if b == 0 then suc n else 0
