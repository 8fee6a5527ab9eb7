-- ===== src/B255/Tests.antt =====
-- Runs of the b255 codec, and the theorems at concrete inputs.
use npm.Common.{arith, ℕ, ◌≡◌, refl, List, [], ◌∷◌, none, some}
use npm.B255.Codec.{decode-encode}
use npm.B255.Texts.{encode-decode}
use npm.B255.Encode.{encode, encode_core, encode_loop}
use npm.B255.Decode.{
  Result, ok, decode, decode_core, decode_loop, decode_tail, write_bytes_be, write_digits,
  write_last, to_be_bytes, copy_at, last_bytes,
}
use npm.B255.Util.{count_zeros, from_bytes_be, is_single_zero}

-- The bytes of "hello", and a number that takes more than one digit.
hello : encode (104 ∷ 101 ∷ 108 ∷ 108 ∷ 111 ∷ []) ≡ some (22 ∷ 25 ∷ 19 ∷ 11 ∷ 106 ∷ [])
unfolding encode count_zeros encode_core from_bytes_be encode_loop
hello = refl

abbrev long_input : List ℕ
long_input = 0 ∷ 0 ∷ 1 ∷ 58 ∷ 255 ∷ 3 ∷ 4 ∷ 5 ∷ 6 ∷ 7 ∷ 8 ∷ 9 ∷ 10 ∷ 58 ∷ []

abbrev round_trip : List ℕ → Result (List ℕ)
unfolding encode decode count_zeros encode_core from_bytes_be encode_loop decode_core decode_loop
    decode_tail write_bytes_be write_digits write_last to_be_bytes copy_at is_single_zero last_bytes
round_trip xs = elim (encode xs) [ none ↦ ok [] | some e ↦ decode e ]

long_round_trip : round_trip long_input ≡ ok long_input
unfolding round_trip
long_round_trip = refl

abbrev text_input : List ℕ
text_input = 22 ∷ 255 ∷ 19 ∷ 11 ∷ 106 ∷ 0 ∷ []

decode-encode_example :
    (encoded : List ℕ) × (encode long_input ≡ some encoded) × (decode encoded ≡ ok long_input)
decode-encode_example = decode-encode long_input (omega arith)

encode-decode_example :
    (bytes : List ℕ) × (decode text_input ≡ ok bytes) × (encode bytes ≡ some text_input)
encode-decode_example = encode-decode text_input (omega arith)
