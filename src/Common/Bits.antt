-- ===== src/Common/Bits.antt =====
-- Masks and shifts of machine words as arithmetic, for words of any width.
use Prim.Native.Nat.{ℕ, zero, suc, ◌+◌, ◌-◌, ◌*◌, ◌/◌, ◌%◌, ◌^◌, ◌≤◌, ◌<◌, min, max}
use Prim.Native.Nat.{bit_and, bit_or, digits, bitwise, bit_and-bitwise, bit_or-bitwise}
use mathlib.Core.Path.{◌≡◌, refl, sym}
use native.Mathlib.Omega.{arith}
use native.Mathlib.Nat.{pow-suc, pow-succ', one-le-pow, add-zero, add-suc, div-div-eq-div-mul}

-- The digit recursion that both operations stand for: `base` is the value at a left side of 0.
module _ (base : ℕ → ℕ) (join : ℕ → ℕ → ℕ) where
  -- Two amounts of fuel that both reach the left side give the same number.
  digits_enough :
      (fuel spare x y : ℕ)
      → x ≤ fuel
      → x ≤ spare
      → digits base join fuel x y ≡ digits base join spare x y
  digits_enough zero zero x y hf hs = refl
  digits_enough (suc fuel) zero zero y hf hs = refl
  digits_enough zero (suc spare) zero y hf hs = refl
  digits_enough (suc fuel) (suc spare) zero y hf hs = refl
  digits_enough zero (suc spare) (suc x) y hf hs = absurd (omega arith)
  digits_enough (suc fuel) zero (suc x) y hf hs = absurd (omega arith)
  digits_enough (suc fuel) (suc spare) (suc x) y hf hs =
      let half : suc x / 2 ≤ x = omega arith in
      omega (arith, digits_enough fuel spare (suc x / 2) (y / 2) (omega arith) (omega arith))

  bitwise_step :
      (x y : ℕ)
      → base y ≡ base (y / 2) * 2 + join 0 (y % 2)
      → bitwise base join x y ≡ bitwise base join (x / 2) (y / 2) * 2 + join (x % 2) (y % 2)
  bitwise_step zero y h = h
  bitwise_step (suc x) y h =
      omega (arith, digits_enough x (suc x / 2) (suc x / 2) (y / 2) (omega arith) (omega arith))

pub bit_and_step : (x y : ℕ) → bit_and x y ≡ bit_and (x / 2) (y / 2) * 2 + min (x % 2) (y % 2)
bit_and_step x y = omega (
  arith,
  bitwise_step (λ t. zero) min x y (omega arith),
  bit_and-bitwise (x / 2) (y / 2),
  bit_and-bitwise x y,
)

pub bit_or_step : (x y : ℕ) → bit_or x y ≡ bit_or (x / 2) (y / 2) * 2 + max (x % 2) (y % 2)
bit_or_step x y = omega (
  arith,
  bitwise_step (λ t. t) max x y (omega arith),
  bit_or-bitwise (x / 2) (y / 2),
  bit_or-bitwise x y,
)

pub zero-bit_or : (b : ℕ) → bit_or 0 b ≡ b
zero-bit_or b = bit_or-bitwise 0 b

zero-bit_and : (b : ℕ) → bit_and 0 b ≡ 0
zero-bit_and b = bit_and-bitwise 0 b

bit_and-zero_below : (bound x : ℕ) → x ≤ bound → bit_and x 0 ≡ 0
bit_and-zero_below bound zero h = zero-bit_and 0
bit_and-zero_below zero (suc x) h = absurd (omega arith)
bit_and-zero_below (suc bound) (suc x) h =
    omega (arith, bit_and-zero_below bound (suc x / 2) (omega arith), bit_and_step (suc x) 0)

pub bit_and-zero : (a : ℕ) → bit_and a 0 ≡ 0
bit_and-zero a = bit_and-zero_below a a (omega arith)

bit_or-zero_below : (n a : ℕ) → a ≤ n → bit_or a 0 ≡ a
bit_or-zero_below n zero h = zero-bit_or 0
bit_or-zero_below zero (suc a) h = absurd (omega arith)
bit_or-zero_below (suc n) (suc a) h =
    omega (arith, bit_or_step (suc a) 0, bit_or-zero_below n (suc a / 2) (omega arith))

pub bit_or-zero : (a : ℕ) → bit_or a 0 ≡ a
bit_or-zero a = bit_or-zero_below a a (omega arith)

two-mul-half : (n : ℕ) → n * 2 / 2 ≡ n
two-mul-half n = omega arith

two-mul-mod : (n : ℕ) → n * 2 % 2 ≡ 0
two-mul-mod n = omega arith

-- A number with its `k` low bits clear, and a number of `k` bits: `|` is `+`.
pub bit_or_disjoint : (k a b : ℕ) → b < 2 ^ k → bit_or (a * 2 ^ k) b ≡ a * 2 ^ k + b
bit_or_disjoint zero a zero h = rw bit_or-zero (omega arith)
bit_or_disjoint zero a (suc b) h = absurd (omega arith)
bit_or_disjoint (suc k) a b h =
    let n : ℕ = a * 2 ^ k in
    let e : a * 2 ^ suc k ≡ n * 2 = rw (pow-suc 2 k) (omega arith) in
    let small : b < 2 ^ k * 2 = rw (← pow-suc 2 k) h in
    let half : bit_or n (b / 2) ≡ n + b / 2 = bit_or_disjoint k a (b / 2) (omega arith) in
    rw e (rw (bit_or_step (n * 2) b, two-mul-half n, two-mul-mod n, half) (omega arith))

-- `j` ones keep a `j`-bit word.
pub bit_and_ones : (j x : ℕ) → x < 2 ^ j → bit_and x (2 ^ j - 1) ≡ x
bit_and_ones zero x h = rw (bit_and-zero x) (omega arith)
bit_and_ones (suc j) x h =
    let p : 2 ^ suc j ≡ 2 ^ j * 2 = pow-suc 2 j in
    let pos : 1 ≤ 2 ^ j = one-le-pow j 2 (omega arith) in
    let half : (2 ^ suc j - 1) / 2 ≡ 2 ^ j - 1 = omega arith in
    let low : (2 ^ suc j - 1) % 2 ≡ 1 = omega arith in
    rw (bit_and_step x (2 ^ suc j - 1), half, low, bit_and_ones j (x / 2) (omega arith))
      (omega arith)

-- `x & mask`, for a mask of `j` ones over `k` zeros, clears the `k` low bits of a `j + k`-bit word.
pub bit_and_high :
    (k j x : ℕ) → x < 2 ^ (j + k) → bit_and x ((2 ^ j - 1) * 2 ^ k) ≡ x / 2 ^ k * 2 ^ k
bit_and_high zero j x h =
    let e : (2 ^ j - 1) * 2 ^ zero ≡ 2 ^ j - 1 = omega arith in
    rw (e, bit_and_ones j x (rw add-zero at h)) (omega arith)
bit_and_high (suc k) j x h =
    let n : ℕ = (2 ^ j - 1) * 2 ^ k in
    let e : (2 ^ j - 1) * 2 ^ suc k ≡ n * 2 = rw (pow-suc 2 k) (omega arith) in
    let small : x < 2 ^ (j + k) * 2 = rw (← pow-suc 2 (j + k), ← add-suc) h in
    let half : bit_and (x / 2) n ≡ x / 2 / 2 ^ k * 2 ^ k = bit_and_high k j (x / 2) (omega arith) in
    let split : x / 2 ^ suc k ≡ x / 2 / 2 ^ k =
      rw (pow-succ' 2 k) (sym (div-div-eq-div-mul x 2 (2 ^ k))) in
    let q : ℕ = x / 2 / 2 ^ k in
    let back : q * 2 ^ suc k ≡ q * 2 ^ k * 2 = rw (pow-suc 2 k) (omega arith) in
    rw (e, bit_and_step x (n * 2), two-mul-half n, two-mul-mod n, half, split) (omega (arith, back))
