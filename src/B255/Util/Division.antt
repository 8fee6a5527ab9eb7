-- ===== src/B255/Util/Division.antt =====
-- `div_rem255` divides by 255, and leaves no zero digit on top.
use npm.Common.{
  ℕ, ◌+◌, ◌*◌, ◌<◌, ◌≡◌, refl, ap, arith, List, [], ◌∷◌, All, length, Bool-cases, inl, inr, ◌==◌,
  if◌then◌else◌, ◌∙◌,
}
use npm.B255.Radix.{value, IsBelow}
use npm.B255.Util.{digit_mod, div_step, div_digits, is_single_zero, pop_zeros, div_rem255}

-- One round divides the two-digit number `rem * 2^64 + d`, in either branch of the overflow test.
div_step_lem :
    (d rem : ℕ)
    → d < digit_mod
    → rem < 255
    → ((div_step d rem).0 * 255 + (div_step d rem).1 ≡ rem * digit_mod + d)
      × ((div_step d rem).1 < 255)
      × ((div_step d rem).0 < digit_mod)
unfolding div_step
div_step_lem d rem hd hr = ground arith

abbrev Divides : List ℕ → List ℕ × ℕ → Type 0
Divides ds r =
    (value digit_mod r.0 * 255 + r.1 ≡ value digit_mod ds)
    × (r.1 < 255)
    × All (IsBelow digit_mod) r.0
    × (length r.0 ≡ length ds)

div_digits_lem : (ds : List ℕ) → All (IsBelow digit_mod) ds → Divides ds (div_digits ds)
unfolding div_digits
div_digits_lem [] h = (refl, omega arith, tt, refl)
div_digits_lem (d ∷ ds) h =
    let (v, r, b, l) = div_digits_lem ds h.1 in
    let (v', r', b') = div_step_lem d (div_digits ds).1 h.0 r in
    (omega arith, r', (b', b), omega arith)

-- `num.len() > 1` says that the digits above the lowest are not all zero.
abbrev pub IsNormal : List ℕ → Type 0
IsNormal [] = ⊥
IsNormal (d ∷ []) = Unit
IsNormal (d ∷ e ∷ ds) = (0 < value digit_mod (e ∷ ds)) × IsNormal (e ∷ ds)

abbrev Normalises : List ℕ → List ℕ → Type 0
Normalises ds r = (value digit_mod r ≡ value digit_mod ds) × All (IsBelow digit_mod) r × IsNormal r

add_low :
    (d : ℕ) (high : List ℕ)
    → d < digit_mod
    → All (IsBelow digit_mod) high
    → IsNormal high
    → Normalises (d ∷ high) (if is_single_zero high then d ∷ [] else d ∷ high)
unfolding is_single_zero
add_low d [] hd h n = absurd n
add_low d (x ∷ []) hd h n = elim (Bool-cases (x == 0)) [
  | inl zero_top ↦ rw zero_top (ground arith, (hd, tt), tt)
  | inr kept ↦ rw kept (refl, (hd, h), (ground arith, tt))
]
add_low d (x ∷ y ∷ ds) hd h n = (refl, (hd, h), (omega arith, n))

pop_zeros_lem :
    (d : ℕ) (ds : List ℕ)
    → All (IsBelow digit_mod) (d ∷ ds)
    → Normalises (d ∷ ds) (pop_zeros (d ∷ ds))
unfolding pop_zeros
pop_zeros_lem d [] h = (refl, h, tt)
pop_zeros_lem d (e ∷ ds) h =
    let (v, b, n) = pop_zeros_lem e ds h.1 in
    let (v', b', n') = add_low d (pop_zeros (e ∷ ds)) h.0 b n in
    (v' ∙ ap (λ t. d + digit_mod * t) v, b', n')

-- The whole routine, on a number with no zero digit on top: quotient and remainder by 255.
pub div_rem255_lem :
    (ds : List ℕ)
    → All (IsBelow digit_mod) ds
    → IsNormal ds
    → (value digit_mod (div_rem255 ds).0 * 255 + (div_rem255 ds).1 ≡ value digit_mod ds)
      × ((div_rem255 ds).1 < 255)
      × All (IsBelow digit_mod) (div_rem255 ds).0
      × IsNormal (div_rem255 ds).0
unfolding div_rem255 div_digits
div_rem255_lem [] h n = absurd n
div_rem255_lem (d ∷ ds) h n =
    let (v, r, b, l) = div_digits_lem (d ∷ ds) h in
    let (v', b', n') = pop_zeros_lem (div_step d (div_digits ds).1).0 (div_digits ds).0 b in
    (omega arith, omega arith, b', n')
