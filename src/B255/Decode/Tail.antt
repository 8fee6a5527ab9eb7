-- ===== src/B255/Decode/Tail.antt =====
-- The last part of `decode`: the size of the output, and the bytes in it.
use npm.Common.{
  ℕ, zero, suc, ◌+◌, ◌-◌, ◌*◌, ◌/◌, ◌^◌, ◌≤◌, ◌<◌, ◌≡◌, refl, ap, ◌∙◌, arith, List, [], ◌∷◌, ◌++◌,
  All, length, reverse, replicate, ◌==◌, append-nil, false,
}
use npm.B255.Radix.{value, IsBelow, IsCanonical}
use npm.B255.Util.{digit_mod, is_single_zero}
use npm.B255.Util.Division.{IsNormal}
use npm.B255.Decode.{
  bit_count, leading_zeros, last_digit, last_bytes, write_digits, write_bytes_be, decode_tail,
}
use npm.B255.Decode.Write.{num_bytes, room, write_digits_lem, num_bytes_lem}
use native.Mathlib.Decide.{dec_lt}
use native.Mathlib.Nat.{pow-zero, pow-succ', pow-suc, pow-le-pow_right}
use native.Mathlib.Numerals.{towards_suc}

bit_count-zero : (fuel : ℕ) → bit_count fuel 0 ≡ 0
unfolding bit_count
bit_count-zero zero = refl
bit_count-zero (suc fuel) = refl

bit_count_step : (fuel x : ℕ) → 0 < x → bit_count (suc fuel) x ≡ suc (bit_count fuel (x / 2))
unfolding bit_count
bit_count_step fuel x p = ground arith

bit_count_lem :
    (fuel x : ℕ)
    → 0 < x
    → x < 2 ^ fuel
    → (m : ℕ) × (bit_count fuel x ≡ suc m) × (2 ^ m ≤ x) × (x < 2 ^ suc m) × (m < fuel)
bit_count_lem zero x p h = absurd (omega (arith, pow-zero 2))
bit_count_lem (suc fuel) x p h = elim (dec_lt 1 x) [
  | yes big ↦
      let half : x / 2 < 2 ^ fuel = omega (arith, pow-suc 2 fuel) in
      let (m, e, lo, hi, lt) = bit_count_lem fuel (x / 2) (omega arith) half in
      (
        suc m,
        bit_count_step fuel x p ∙ ap suc e,
        omega (arith, pow-suc 2 m),
        omega (arith, pow-suc 2 (suc m)),
        omega arith,
      )
  | no small ↦
      let none_left : x / 2 ≡ 0 = omega arith in
      (
        0,
        bit_count_step fuel x p ∙ ap suc (rw none_left (bit_count-zero fuel)),
        omega arith,
        omega arith,
        omega arith,
      )
]

byte_power : (n : ℕ) → 256 ^ n ≡ 2 ^ (8 * n)
byte_power zero = refl
byte_power (suc n) =
    let e : 8 * suc n ≡ 8 * n + 8 = omega arith in
    rw (e, pow-succ' 256 n, byte_power n) (simp towards_suc (omega arith))

last_bytes_lem :
    (num : List ℕ)
    → 0 < last_digit num
    → last_digit num < digit_mod
    → (n : ℕ) × (last_bytes num ≡ suc n)
      × (256 ^ n ≤ last_digit num)
      × (last_digit num < 256 ^ suc n)
last_bytes_lem num p h =
    let (m, e, lo, hi, lt) = bit_count_lem 64 (last_digit num) p h in
    let n : ℕ = m / 8 in
    let below : 2 ^ (8 * n) ≤ 2 ^ m = pow-le-pow_right (omega arith) {j = m} (omega arith) in
    let above : 2 ^ suc m ≤ 2 ^ (8 * suc n) =
      pow-le-pow_right (omega arith) {i = suc m} (omega arith) in
    (
      n,
      unfold last_bytes leading_zeros in rw (e, last_bytes, leading_zeros) (omega arith),
      omega (arith, byte_power n),
      omega (arith, byte_power (suc n)),
    )

last_digit-pos : (num : List ℕ) → IsNormal num → 0 < value digit_mod num → 0 < last_digit num
unfolding last_digit
last_digit-pos [] n p = absurd n
last_digit-pos (d ∷ []) n p = omega arith
last_digit-pos (d ∷ e ∷ ds) n p = last_digit-pos (e ∷ ds) n.1 n.0

last_digit-lt :
    (d : ℕ) (ds : List ℕ) → All (IsBelow digit_mod) (d ∷ ds) → last_digit (d ∷ ds) < digit_mod
unfolding last_digit
last_digit-lt d [] h = h.0
last_digit-lt d (e ∷ ds) h = last_digit-lt e ds h.1

room-length : (n d : ℕ) (ds : List ℕ) → length ds * 8 + n ≡ room n (d ∷ ds)
room-length n d [] = omega arith
room-length n d (e ∷ ds) = omega (arith, room-length n e ds)

write_bytes_be_lem :
    (d : ℕ) (ds out : List ℕ)
    → 0 < value digit_mod (d ∷ ds)
    → write_bytes_be (d ∷ ds) out ≡ write_digits (last_bytes (d ∷ ds)) (d ∷ ds) 0 out
unfolding write_bytes_be is_single_zero
write_bytes_be_lem d [] out p = let e : (d == 0) ≡ false = ground arith in rw e
write_bytes_be_lem d (x ∷ ds) out p = refl

decode_tail_bytes :
    (lead k d : ℕ) (ds : List ℕ) {bytes : List ℕ}
    → 0 < value digit_mod (d ∷ ds)
    → last_bytes (d ∷ ds) ≡ k
    → write_digits k (d ∷ ds) 0 (replicate (length ds * 8 + k) 0) ≡ bytes
    → decode_tail lead (d ∷ ds) ≡ replicate lead 0 ++ bytes
unfolding decode_tail
decode_tail_bytes lead k d ds p e w =
    let one_less : suc (length ds) - 1 ≡ length ds = omega arith in
    rw (
      one_less,
      write_bytes_be_lem d ds (replicate (length ds * 8 + last_bytes (d ∷ ds)) 0) p,
      e,
      w,
    )

-- A positive number with no zero digit on top becomes its bytes behind the given zeros.
pub decode_tail_lem :
    (lead : ℕ) (num : List ℕ)
    → All (IsBelow digit_mod) num
    → IsNormal num
    → 0 < value digit_mod num
    → (bytes : List ℕ) × (decode_tail lead num ≡ replicate lead 0 ++ reverse bytes)
      × (value 256 bytes ≡ value digit_mod num)
      × All (IsBelow 256) bytes
      × IsCanonical 256 bytes
decode_tail_lem lead [] h n p = absurd n
decode_tail_lem lead (d ∷ ds) h n p =
    let (k, e, lo, hi) =
      last_bytes_lem (d ∷ ds) (last_digit-pos (d ∷ ds) n p) (last_digit-lt d ds h) in
    let (v, b, c, q) = num_bytes_lem k d ds h lo hi in
    let bytes : List ℕ = num_bytes (suc k) (d ∷ ds) in
    let len : length ds * 8 + suc k ≡ room (suc k) (d ∷ ds) = room-length (suc k) d ds in
    let write : write_digits (suc k) (d ∷ ds) 0 (replicate (room (suc k) (d ∷ ds)) 0)
        ≡ reverse bytes =
      rw (← append-nil {A = ℕ} (replicate (room (suc k) (d ∷ ds)) 0))
        (write_digits_lem (suc k) d ds 0 [] refl ∙ append-nil (reverse bytes)) in
    (bytes, decode_tail_bytes lead (suc k) d ds p e (rw len write), v, b, c)
