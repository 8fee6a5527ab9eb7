-- ===== src/B255/Encode/Digits.antt =====
-- `encode` writes the base-255 digits of the number that its input stands for.
use npm.Common.{
  ℕ, zero, suc, ◌*◌, ◌^◌, ◌≤◌, ◌<◌, ◌≡◌, sym, ap, ◌∙◌, arith, List, [], ◌∷◌, ◌++◌, All, length,
  Bool-cases, inl, inr, reverse, map, some, true, false, replicate, length-reverse, All-reverse,
}
use npm.B255.Radix.{value, value-lt, IsBelow, IsCanonical}
use npm.B255.Util.{digit_mod, div_rem255, from_bytes_be}
use npm.B255.Util.Division.{IsNormal, div_rem255_lem}
use npm.B255.Util.Bytes.{from_bytes_be_lem}
use npm.B255.Encode.{goes_on, encode_loop, map_digit, encode_core}
use native.Mathlib.Nat.{pow-zero, pow-succ'}

goes_on-false : (ds : List ℕ) → IsNormal ds → goes_on ds ≡ false → value digit_mod ds ≡ 0
unfolding goes_on
goes_on-false [] n e = absurd n
goes_on-false (d ∷ []) n e = ground arith
goes_on-false (d ∷ x ∷ ds) n e = cc

goes_on-true : (ds : List ℕ) → IsNormal ds → goes_on ds ≡ true → 0 < value digit_mod ds
unfolding goes_on
goes_on-true [] n e = absurd n
goes_on-true (d ∷ []) n e = ground arith
goes_on-true (d ∷ x ∷ ds) n e = omega (arith, n.0)

-- The canonical base-255 digits of `v`.
abbrev pub IsDigits : ℕ → List ℕ → Type 0
IsDigits v ds = (value 255 ds ≡ v) × All (IsBelow 255) ds × IsCanonical 255 ds

encode_loop_off : (fuel : ℕ) (num : List ℕ) → goes_on num ≡ false → encode_loop fuel num ≡ some []
unfolding encode_loop
encode_loop_off zero num off = rw off
encode_loop_off (suc fuel) num off = rw off

encode_loop_on :
    (fuel : ℕ) (num out : List ℕ)
    → goes_on num ≡ true
    → encode_loop fuel (div_rem255 num).0 ≡ some out
    → encode_loop (suc fuel) num ≡ some (map_digit (div_rem255 num).1 ∷ out)
unfolding encode_loop
encode_loop_on fuel num out on e = rw (on, e)

encode_loop_lem :
    (fuel : ℕ) (num : List ℕ)
    → All (IsBelow digit_mod) num
    → IsNormal num
    → value digit_mod num < 255 ^ fuel
    → (ds : List ℕ) × (encode_loop fuel num ≡ some (map map_digit ds))
      × IsDigits (value digit_mod num) ds
encode_loop_lem zero num h n lt =
    let none_left : value digit_mod num ≡ 0 = omega (arith, pow-zero 255) in
    elim (Bool-cases (goes_on num)) [
      | inl on ↦ absurd (omega (arith, goes_on-true num n on))
      | inr off ↦ ([], encode_loop_off zero num off, (sym none_left, tt, tt))
    ]
encode_loop_lem (suc fuel) num h n lt =
    let (v, r, b, n') = div_rem255_lem num h n in
    let rem : ℕ = (div_rem255 num).1 in
    let less : value digit_mod (div_rem255 num).0 < 255 ^ fuel =
      omega (arith, pow-succ' 255 fuel) in
    let (ds, e, (vd, bd, cd)) = encode_loop_lem fuel (div_rem255 num).0 b n' less in
    elim (Bool-cases (goes_on num)) [
      | inl on ↦ (
        rem ∷ ds,
        encode_loop_on fuel num (map map_digit ds) on e,
        (omega arith, (r, bd), (omega (arith, goes_on-true num n on), cd)),
      )
      | inr off ↦ ([], encode_loop_off (suc fuel) num off, (sym (goes_on-false num n off), tt, tt))
    ]

-- Two base-255 digits hold a byte, so `2 * length` rounds are enough.
pow-le-pow_double : (n : ℕ) → 256 ^ n ≤ 255 ^ (2 * n)
pow-le-pow_double zero = omega arith
pow-le-pow_double (suc n) =
    let e : 2 * suc n ≡ suc (suc (2 * n)) = omega arith in
    let p : 255 ^ suc (suc (2 * n)) ≡ 255 * (255 * 255 ^ (2 * n)) =
      pow-succ' 255 (suc (2 * n)) ∙ ap (λ t. 255 * t) (pow-succ' 255 (2 * n)) in
    rw (e, p, pow-succ' 256 n) (omega (arith, pow-le-pow_double n))

encode_core-some :
    (lead b : ℕ) (bs out : List ℕ)
    → encode_loop (2 * length (b ∷ bs)) (from_bytes_be (b ∷ bs)) ≡ some out
    → encode_core lead (b ∷ bs) ≡ some (out ++ replicate lead 0)
unfolding encode_core
encode_core-some lead b bs out e = rw (e, encode_core)

-- On bytes that begin with no zero, `encode` writes the mapped digits and then the zeros.
pub encode_core_lem :
    (lead b : ℕ) (bs : List ℕ)
    → 0 < b
    → All (IsBelow 256) (b ∷ bs)
    → (ds : List ℕ) × (encode_core lead (b ∷ bs) ≡ some (map map_digit ds ++ replicate lead 0))
      × IsDigits (value 256 (reverse (b ∷ bs))) ds
encode_core_lem lead b bs hb h =
    let num : List ℕ = from_bytes_be (b ∷ bs) in
    let (v, below, normal) = from_bytes_be_lem b bs hb h in
    let small : value 256 (reverse (b ∷ bs)) < 256 ^ length (b ∷ bs) =
      rw (length-reverse (b ∷ bs)) at
        (value-lt 256 (reverse (b ∷ bs)) (All-reverse (IsBelow 256) (b ∷ bs) h)) in
    let enough : value digit_mod num < 255 ^ (2 * length (b ∷ bs)) =
      omega (arith, pow-le-pow_double (length (b ∷ bs))) in
    let (ds, e, (vd, bd, cd)) = encode_loop_lem (2 * length (b ∷ bs)) num below normal enough in
    (ds, encode_core-some lead b bs (map map_digit ds) e, (vd ∙ v, bd, cd))
