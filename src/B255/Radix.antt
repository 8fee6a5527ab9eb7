-- ===== src/B255/Radix.antt =====
-- What a list of digits stands for, and when two lists that stand for one number are equal.
use npm.Common.{
  ℕ, zero, suc, ◌+◌, ◌*◌, ◌/◌, ◌%◌, ◌^◌, ◌<◌, ◌≡◌, refl, sym, ap, ap₂, ◌∙◌, arith, List, [], ◌∷◌,
  ◌++◌, reverse, length, length-reverse, All, replicate,
}
use mathlib.Core.List.{foldl, reverse-append}
use mathlib.Core.Path.{subst}
use native.Mathlib.Nat.{
  pow-zero, pow-succ', mul_assoc, add-mul-mod_self_left, mod-eq_of_lt, add-mul-div_left,
  div-eq_of_lt, mul-pos,
}

-- The number that digits in base `base` stand for, the lowest digit first.
abbrev pub value : ℕ → List ℕ → ℕ
value base [] = 0
value base (d ∷ ds) = d + base * value base ds

-- No zeros at the high end.
abbrev pub IsCanonical : ℕ → List ℕ → Type 0
IsCanonical base [] = Unit
IsCanonical base (d ∷ ds) = (0 < value base (d ∷ ds)) × IsCanonical base ds

abbrev pub IsBelow : ℕ → ℕ → Type 0
IsBelow base d = d < base

pub value-append :
    (base : ℕ) (xs ys : List ℕ)
    → value base (xs ++ ys) ≡ value base xs + base ^ length xs * value base ys
value-append base [] ys = rw pow-zero (omega arith)
value-append base (x ∷ xs) ys =
    let p : base ^ length (x ∷ xs) ≡ base * base ^ length xs = pow-succ' base (length xs) in
    rw (value-append base xs ys, p)
      (omega (arith, mul_assoc base (base ^ length xs) (value base ys)))

pub value-lt : (base : ℕ) (xs : List ℕ) → All (IsBelow base) xs → value base xs < base ^ length xs
value-lt base [] h = rw pow-zero (omega arith)
value-lt base (x ∷ xs) h =
    let p : base ^ length (x ∷ xs) ≡ base * base ^ length xs = pow-succ' base (length xs) in
    rw p (grind (arith, value-lt base xs h.1))

pub value-replicate_zero : (base n : ℕ) → value base (replicate n 0) ≡ 0
value-replicate_zero base zero = refl
value-replicate_zero base (suc n) = rw (value-replicate_zero base n) (omega arith)

-- The lowest digit and the rest are determined.
low_digit : (base d v : ℕ) → d < base → (d + base * v) % base ≡ d
low_digit base d v h = add-mul-mod_self_left d base v ∙ mod-eq_of_lt h

high_digits : (base d v : ℕ) → d < base → (d + base * v) / base ≡ v
high_digits base d v h =
    add-mul-div_left d v {y = base} (omega arith) ∙ rw (div-eq_of_lt h) (omega arith)

-- Digit lists with no zeros at the high end are equal when they stand for the same number.
pub value-injective :
    (base : ℕ) (xs ys : List ℕ)
    → All (IsBelow base) xs
    → All (IsBelow base) ys
    → IsCanonical base xs
    → IsCanonical base ys
    → value base xs ≡ value base ys
    → xs ≡ ys
value-injective base [] [] hx hy cx cy e = refl
value-injective base [] (y ∷ ys) hx hy cx cy e = absurd (omega arith)
value-injective base (x ∷ xs) [] hx hy cx cy e = absurd (omega arith)
value-injective base (x ∷ xs) (y ∷ ys) hx hy cx cy e =
    ap₂ ◌∷◌
      (sym (low_digit base x (value base xs) hx.0)
        ∙ ap (λ t. t % base) e
        ∙ low_digit base y (value base ys) hy.0)
      (value-injective base xs ys hx.1 hy.1 cx.1 cy.1 (
        sym (high_digits base x (value base xs) hx.0)
        ∙ ap (λ t. t / base) e
        ∙ high_digits base y (value base ys) hy.0))

-- Low digits in front of digits that stand for a positive number.
value-append_pos :
    (base : ℕ) (xs ys : List ℕ) → 0 < base → 0 < value base ys → 0 < value base (xs ++ ys)
value-append_pos base [] ys b p = p
value-append_pos base (x ∷ xs) ys b p =
    omega (arith, mul-pos {m = base} b (value-append_pos base xs ys b p))

pub IsCanonical-append :
    (base : ℕ) (xs ys : List ℕ)
    → 0 < base
    → 0 < value base ys
    → IsCanonical base ys
    → IsCanonical base (xs ++ ys)
IsCanonical-append base [] ys b p c = c
IsCanonical-append base (x ∷ xs) ys b p c =
    (value-append_pos base (x ∷ xs) ys b p, IsCanonical-append base xs ys b p c)

IsCanonical-append_right :
    (base : ℕ) (xs ys : List ℕ) → IsCanonical base (xs ++ ys) → IsCanonical base ys
IsCanonical-append_right base [] ys c = c
IsCanonical-append_right base (x ∷ xs) ys c = IsCanonical-append_right base xs ys c.1

-- With the highest digit first: the number is positive, and the digits are canonical, when the
-- first digit is not zero.
pub value-leading :
    (base b : ℕ) (bs : List ℕ) → 0 < base → 0 < b → 0 < value base (reverse (b ∷ bs))
value-leading base b bs hb h =
    rw (reverse-append (b ∷ []) bs) (value-append_pos base (reverse bs) (b ∷ []) hb (omega arith))

pub leading-IsCanonical :
    (base b : ℕ) (bs : List ℕ) → 0 < base → 0 < b → IsCanonical base (reverse (b ∷ bs))
leading-IsCanonical base b bs hb h =
    rw (reverse-append (b ∷ []) bs)
      (IsCanonical-append base (reverse bs) (b ∷ []) hb (omega arith) (omega arith, tt))

pub IsCanonical-leading : (base b : ℕ) (bs : List ℕ) → IsCanonical base (reverse (b ∷ bs)) → 0 < b
IsCanonical-leading base b bs c =
    let (p, u) =
      IsCanonical-append_right base (reverse bs) (b ∷ [])
        (subst (IsCanonical base) (reverse-append (b ∷ []) bs) c) in
    omega arith

-- The fold that `u64::from_be_bytes` is, on any number of bytes.
pub foldl-value :
    (acc : ℕ) (xs : List ℕ)
    → foldl (λ a b. a * 256 + b) acc xs ≡ acc * 256 ^ length xs + value 256 (reverse xs)
foldl-value acc [] = rw pow-zero (omega arith)
foldl-value acc (x ∷ xs) =
    let p : 256 ^ length (x ∷ xs) ≡ 256 * 256 ^ length xs = pow-succ' 256 (length xs) in
    let r : reverse (x ∷ xs) ≡ reverse xs ++ (x ∷ []) = reverse-append (x ∷ []) xs in
    rw
      (
        foldl-value (acc * 256 + x) xs,
        r,
        value-append 256 (reverse xs) (x ∷ []),
        p,
        length-reverse xs,
      )
      (omega arith)
