-- ===== src/B255/Decode/Multiply.antt =====
-- The base conversion of `decode`: Horner's rule over the digits, the highest first.
use npm.Common.{
  ℕ, ◌+◌, ◌*◌, ◌%◌, ◌/◌, ◌^◌, ◌<◌, ◌≡◌, refl, ◌∙◌, arith, List, [], ◌∷◌, All, length, Bool-cases,
  inl, inr, ◌==◌, reverse, map, length-reverse,
}
use npm.B255.Radix.{value, value-append, IsBelow}
use npm.B255.Util.{digit_mod, double_mod}
use npm.B255.Util.Division.{IsNormal}
use npm.B255.Encode.{map_digit}
use npm.B255.Decode.{ok, mul_loop, mul_add255, unmap_byte, decode_loop}
use mathlib.Core.List.{reverse-append}
use native.Mathlib.Nat.{pow-zero, pow-succ'}

abbrev IsScaled : List ℕ → ℕ → List ℕ → Type 0
IsScaled ds carry r =
    (value digit_mod r ≡ value digit_mod ds * 255 + carry) × All (IsBelow digit_mod) r

mul_loop_lem :
    (ds : List ℕ) (carry : ℕ)
    → carry < 256
    → All (IsBelow digit_mod) ds
    → IsScaled ds carry (mul_loop ds carry)
unfolding mul_loop
mul_loop_lem [] carry hc h = elim (Bool-cases (carry == 0)) [
  | inl none_left ↦ rw none_left (ground arith, tt)
  | inr more ↦ rw more (omega arith, (omega arith, tt))
]
mul_loop_lem (d ∷ ds) carry hc h =
    let sum : ℕ = (carry + d * 255) % double_mod in
    let (v, b) = mul_loop_lem ds (sum / 2 ^ 64) (omega (arith, h.0)) h.1 in
    (omega (arith, h.0), (omega arith, b))

mul_loop-IsNormal :
    (d : ℕ) (ds : List ℕ) (carry : ℕ)
    → carry < 256
    → All (IsBelow digit_mod) (d ∷ ds)
    → IsNormal (d ∷ ds)
    → IsNormal (mul_loop (d ∷ ds) carry)
unfolding mul_loop
mul_loop-IsNormal d [] carry hc h n = ground arith
mul_loop-IsNormal d (e ∷ ds) carry hc h n =
    let c : ℕ = (carry + d * 255) % double_mod / 2 ^ 64 in
    let small : c < 256 = omega (arith, h.0) in
    let (v, b) = mul_loop_lem (e ∷ ds) c small h.1 in
    (omega (arith, n.0), mul_loop-IsNormal e ds c small h.1 n.1)

-- `num = num * 255 + digit`.
mul_add255_lem :
    (num : List ℕ) (digit : ℕ)
    → digit < 256
    → All (IsBelow digit_mod) num
    → IsNormal num
    → IsScaled num digit (mul_add255 num digit) × IsNormal (mul_add255 num digit)
unfolding mul_add255
mul_add255_lem [] digit hd h n = absurd n
mul_add255_lem (d ∷ ds) digit hd h n =
    (mul_loop_lem (d ∷ ds) digit hd h, mul_loop-IsNormal d ds digit hd h n)

pub unmap_byte-map_digit : (d : ℕ) → d < 255 → unmap_byte (map_digit d) ≡ ok d
unfolding unmap_byte map_digit
unmap_byte-map_digit d h = ground arith

decode_loop_step :
    (d : ℕ) (hs num r : List ℕ)
    → d < 255
    → decode_loop (map map_digit hs) (mul_add255 num d) ≡ ok r
    → decode_loop (map map_digit (d ∷ hs)) num ≡ ok r
unfolding decode_loop
decode_loop_step d hs num r hd e = rw (unmap_byte-map_digit d hd) e

pub decode_loop_lem :
    (hs num : List ℕ)
    → All (IsBelow 255) hs
    → All (IsBelow digit_mod) num
    → IsNormal num
    → (r : List ℕ) × (decode_loop (map map_digit hs) num ≡ ok r)
      × (value digit_mod r ≡ value digit_mod num * 255 ^ length hs + value 255 (reverse hs))
      × All (IsBelow digit_mod) r
      × IsNormal r
decode_loop_lem [] num hh h n = (num, unfold decode_loop in refl, rw pow-zero (omega arith), h, n)
decode_loop_lem (d ∷ hs) num hh h n =
    let ((v, b), n') = mul_add255_lem num d (omega (arith, hh.0)) h n in
    let (r, e, v', b', n'') = decode_loop_lem hs (mul_add255 num d) hh.1 b n' in
    let p : 255 ^ length (d ∷ hs) ≡ 255 * 255 ^ length hs = pow-succ' 255 (length hs) in
    (
      r,
      decode_loop_step d hs num r hh.0 e,
      v'
          ∙ rw
              (
                reverse-append (d ∷ []) hs,
                value-append 255 (reverse hs) (d ∷ []),
                length-reverse hs,
                v,
                p,
              )
              (omega arith),
      b',
      n'',
    )
