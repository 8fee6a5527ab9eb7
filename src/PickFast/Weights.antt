-- ===== src/PickFast/Weights.antt =====
-- The weights stay in range, and the cached total is their sum.
use npm.Common.{
  ℕ, zero, suc, ◌+◌, ◌*◌, ◌≤◌, ◌<◌, ◌≡◌, refl, ap, arith, List, [], ◌∷◌, some, length, get_elem?,
  set, All,
}
use Prim.Native.Nat.{max}
use npm.PickFast.{u32_mod, u32_max, Node, PickFast}
use native.Mathlib.Nat.{mul-le-mul_left}

-- The weights of so many nodes fit a u32, with five bits to spare for each.
cap_bounds :
    (base n : ℕ)
    → 0 < n
    → n < u32_mod
    → base * n * 32 ≤ u32_max
    → (n * max base 1 < u32_mod) × (max base 1 * 32 ≤ u32_max)
cap_bounds zero n h₀ h₁ h₂ = omega arith
cap_bounds (suc b) n h₀ h₁ h₂ =
    let e : max (suc b) 1 ≡ suc b = omega arith in
    let one : suc b * 1 ≤ suc b * n = mul-le-mul_left (suc b) h₀ in rw e (omega arith, omega arith)

module _ {T : Type 0} where
  abbrev pub sum_weights : List (Node T) → ℕ
  sum_weights [] = 0
  sum_weights (x ∷ xs) = x.weight + sum_weights xs

  abbrev pub IsWeight : ℕ → Node T → Type 0
  IsWeight cap x = (1 ≤ x.weight) × (x.weight ≤ cap)

  -- The largest weight: `base`, or 1 where that is 0.
  abbrev pub cap : PickFast T → ℕ
  cap p = max p.base 1

  pub record IsValid (p : PickFast T) : Type 0 where
    pub some_node : 0 < length p.li
    pub few_nodes : length p.li < u32_mod
    pub small_base : p.base * length p.li * 32 ≤ u32_max
    pub weights : All (IsWeight (cap p)) p.li
    pub exact : p.total ≡ sum_weights p.li

  sum_weights-le :
      (c : ℕ) (xs : List (Node T)) → All (IsWeight c) xs → sum_weights xs ≤ length xs * c
  sum_weights-le c [] h = omega arith
  sum_weights-le c (x ∷ xs) h = omega (arith, sum_weights-le c xs h.1, h.0)

  pub length-set : (xs : List (Node T)) (i : ℕ) (y : Node T) → length (set xs i y) ≡ length xs
  length-set [] i y = refl
  length-set (x ∷ xs) zero y = refl
  length-set (x ∷ xs) (suc i) y = ap suc (length-set xs i y)

  pub sum_weights-set :
      (xs : List (Node T)) (i : ℕ) (x y : Node T)
      → get_elem? xs i ≡ some x
      → sum_weights (set xs i y) + x.weight ≡ sum_weights xs + y.weight
  sum_weights-set [] i x y e = cc
  sum_weights-set (z ∷ xs) zero x y e = ground arith
  sum_weights-set (z ∷ xs) (suc i) x y e = omega (arith, sum_weights-set xs i x y e)

  pub All-set :
      (P : Node T → Type 0) (xs : List (Node T)) (i : ℕ) (y : Node T)
      → P y
      → All P xs
      → All P (set xs i y)
  All-set P [] i y hy h = h
  All-set P (x ∷ xs) zero y hy h = (hy, h.1)
  All-set P (x ∷ xs) (suc i) y hy h = (h.0, All-set P xs i y hy h.1)

  pub All-get_elem? :
      (c : ℕ) (xs : List (Node T)) (i : ℕ) (x : Node T)
      → All (IsWeight c) xs
      → get_elem? xs i ≡ some x
      → IsWeight c x
  All-get_elem? c [] i x h e = cc
  All-get_elem? c (y ∷ xs) zero x h e = ground (arith, h.0)
  All-get_elem? c (y ∷ xs) (suc i) x h e = All-get_elem? c xs i x h.1 e

  pub sum_weights-lt : (p : PickFast T) → IsValid p → sum_weights p.li < u32_mod
  sum_weights-lt p v =
      let (fits, spare) = cap_bounds p.base (length p.li) v.some_node v.few_nodes v.small_base in
      omega (arith, sum_weights-le (cap p) p.li v.weights)

  pub cap-spare : (p : PickFast T) → IsValid p → cap p * 32 ≤ u32_max
  cap-spare p v = (cap_bounds p.base (length p.li) v.some_node v.few_nodes v.small_base).1
