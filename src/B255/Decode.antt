-- ===== src/B255/Decode.antt =====
-- b255/src/decode.rs, and the error type of b255/src/error.rs.
pub mod Multiply
pub mod Write
pub mod Tail
use npm.Common.{
  ℕ, zero, suc, ◌+◌, ◌-◌, ◌*◌, ◌/◌, ◌%◌, ◌^◌, List, [], ◌∷◌, ◌++◌, reverse, ◌==◌, if◌then◌else◌,
  length, take, drop, set, replicate,
}
use npm.B255.Util.{digit_mod, double_mod, forbidden_byte, is_single_zero, count_zeros}

pub data DecodeError : Type 0 where
  invalid_byte : ℕ → DecodeError

pub data Result {ℓ} (A : Type ℓ) : Type ℓ where
  ok : A → Result A
  err : DecodeError → Result A

infixl 5 ◌>>=◌
abbrev pub ◌>>=◌ {ℓ κ} : {A : Type ℓ} {B : Type κ} → Result A → (A → Result B) → Result B
ok a >>= f = f a
err e >>= f = err e

-- The loop of `mul_add255`, with the carry that is pushed at the end.
unfoldable pub mul_loop : List ℕ → ℕ → List ℕ
mul_loop [] carry = if carry == 0 then [] else (carry % digit_mod) ∷ []
mul_loop (d ∷ ds) carry =
    let sum = (carry + d * 255) % double_mod in (sum % digit_mod) ∷ mul_loop ds (sum / 2 ^ 64)

unfoldable pub mul_add255 : List ℕ → ℕ → List ℕ
unfolding mul_loop
mul_add255 num add_val = mul_loop num add_val

-- `match byte { FORBIDDEN_BYTE => return Err(..), 255 => FORBIDDEN_BYTE, b => b }`
unfoldable pub unmap_byte : ℕ → Result ℕ
unmap_byte b =
    if b == forbidden_byte
    then err (invalid_byte forbidden_byte)
    else if b == 255
    then ok forbidden_byte
    else ok b

unfoldable pub decode_loop : List ℕ → List ℕ → Result (List ℕ)
unfolding unmap_byte mul_add255
decode_loop [] num = ok num
decode_loop (b ∷ bs) num = do digit ← unmap_byte b; decode_loop bs (mul_add255 num digit)

-- `u64::leading_zeros`, by the number of bits in use.
unfoldable pub bit_count : ℕ → ℕ → ℕ
bit_count zero x = 0
bit_count (suc fuel) x = let rest = bit_count fuel (x / 2) in if x == 0 then 0 else suc rest

unfoldable pub leading_zeros : ℕ → ℕ
unfolding bit_count
leading_zeros x = 64 - bit_count 64 x

unfoldable pub last_digit : List ℕ → ℕ
last_digit [] = 0
last_digit (d ∷ []) = d
last_digit (d ∷ e ∷ ds) = last_digit (e ∷ ds)

unfoldable pub last_bytes : List ℕ → ℕ
unfolding leading_zeros last_digit
last_bytes num = 8 - leading_zeros (last_digit num) / 8

-- The loop over `j` for the highest digit: `out[len - 1 - (i * 8 + j)] = val as u8; val >>= 8`,
-- with `pos` for `i * 8 + j` and `n` for the rounds left.
unfoldable pub write_last : ℕ → ℕ → ℕ → List ℕ → List ℕ
write_last zero pos val out = out
write_last (suc n) pos val out =
    write_last n (pos + 1) (val / 2 ^ 8) (set out (length out - 1 - pos) (val % 256))

-- `val.to_be_bytes()`
unfoldable pub to_be_bytes : ℕ → List ℕ
to_be_bytes val =
    (val / 2 ^ 56 % 256)
    ∷ (val / 2 ^ 48 % 256)
    ∷ (val / 2 ^ 40 % 256)
    ∷ (val / 2 ^ 32 % 256)
    ∷ (val / 2 ^ 24 % 256)
    ∷ (val / 2 ^ 16 % 256)
    ∷ (val / 2 ^ 8 % 256)
    ∷ (val % 256)
    ∷ []

-- `out[start..start + bytes.len()].copy_from_slice(&bytes)`
unfoldable pub copy_at : List ℕ → ℕ → List ℕ → List ℕ
copy_at out start bytes = take start out ++ (bytes ++ drop (start + length bytes) out)

-- The loop over the digits; `i` counts those that are done.
unfoldable pub write_digits : ℕ → List ℕ → ℕ → List ℕ → List ℕ
write_digits last_len [] i out = out
write_digits last_len (d ∷ []) i out = write_last last_len (i * 8) d out
write_digits last_len (d ∷ e ∷ ds) i out =
    write_digits last_len (e ∷ ds) (i + 1) (copy_at out (length out - (i + 1) * 8) (to_be_bytes d))

unfoldable pub write_bytes_be : List ℕ → List ℕ → List ℕ
write_bytes_be [] out = out
write_bytes_be (d ∷ ds) out =
    if is_single_zero (d ∷ ds) then out else write_digits (last_bytes (d ∷ ds)) (d ∷ ds) 0 out

-- `result` is `trailing_zeros` zeros and the slice that `write_bytes_be` fills.
unfoldable pub decode_tail : ℕ → List ℕ → List ℕ
decode_tail trailing_zeros num =
    let len = (length num - 1) * 8 + last_bytes num in
    replicate trailing_zeros 0 ++ write_bytes_be num (replicate len 0)

unfoldable pub decode_core : ℕ → List ℕ → Result (List ℕ)
decode_core trailing_zeros [] = ok (replicate trailing_zeros 0)
decode_core trailing_zeros (b ∷ bs) = do
  num ← decode_loop (reverse (b ∷ bs)) (0 ∷ [])
  ok (decode_tail trailing_zeros num)

unfoldable pub decode : List ℕ → Result (List ℕ)
decode input =
    let trailing_zeros = count_zeros (reverse input) in
    decode_core trailing_zeros (take (length input - trailing_zeros) input)
