-- ===== src/PickFast/New.antt =====
-- `new` makes a valid picker.
use npm.Common.{
  ℕ, suc, ◌*◌, ◌/◌, ◌%◌, ◌≤◌, ◌<◌, ◌≡◌, refl, ap, arith, false, List, [], ◌∷◌, some, map, ◌==◌,
  length, All,
}
use Prim.Native.Nat.{max}
use npm.PickFast.{u32_mod, u32_max, Node, PickFast, with_weights, new}
use npm.PickFast.Weights.{sum_weights, IsWeight, cap, IsValid, sum_weights-lt}
use native.Mathlib.Nat.{mul-le-mul_right, div-mul-le_self, div-le_self}

base_bounds : (n : ℕ) → u32_max / n / 32 * n * 32 ≤ u32_max
base_bounds n =
    let q : ℕ = u32_max / n in
    let inner : q / 32 * 32 ≤ q = omega arith in
    let scaled : q / 32 * 32 * n ≤ q * n = mul-le-mul_right n inner in
    omega (arith, scaled, div-mul-le_self u32_max n)

init_bounds : (base n : ℕ) → (1 ≤ max (base / n) 1) × (max (base / n) 1 ≤ max base 1)
init_bounds base n = omega (arith, div-le_self base n)

module _ {T : Type 0} where
  sum_weights-map :
      (w : ℕ) (items : List T)
      → sum_weights (map (λ d. record { content = d; weight = w }) items) ≡ length items * w
  sum_weights-map w [] = omega arith
  sum_weights-map w (x ∷ xs) = omega (arith, sum_weights-map w xs)

  length-map_nodes :
      (w : ℕ) (items : List T)
      → length (map {B = Node T} (λ d. record { content = d; weight = w }) items) ≡ length items
  length-map_nodes w [] = refl
  length-map_nodes w (x ∷ xs) = ap suc (length-map_nodes w xs)

  All-map_nodes :
      (w c : ℕ) (items : List T)
      → 1 ≤ w
      → w ≤ c
      → All (IsWeight c) (map (λ d. record { content = d; weight = w }) items)
  All-map_nodes w c [] h₁ h₂ = tt
  All-map_nodes w c (x ∷ xs) h₁ h₂ = ((h₁, h₂), All-map_nodes w c xs h₁ h₂)

  contents-map_nodes :
      (w : ℕ) (items : List T)
      → map (λ x. x.content) (map {B = Node T} (λ d. record { content = d; weight = w }) items)
        ≡ items
  contents-map_nodes w [] = refl
  contents-map_nodes w (x ∷ xs) = ap (λ t. x ∷ t) (contents-map_nodes w xs)

  new_returns :
      (items : List T)
      → 0 < length items
      → length items < u32_mod
      → new items ≡ some (with_weights (u32_max / length items / 32) (length items) items)
  unfolding new
  new_returns items h₀ h₁ =
      let whole : length items % u32_mod ≡ length items = omega arith in
      let nonzero : (length items == 0) ≡ false = ground arith in rw (whole, nonzero)

  -- `new` returns on every nonempty list of fewer than 2^32 items, with the items in order, the
  -- same weight on each, and an exact total.
  pub new-IsValid :
      (items : List T)
      → 0 < length items
      → length items < u32_mod
      → (p : PickFast T) × (new items ≡ some p) × (map (λ x. x.content) p.li ≡ items) × IsValid p
  unfolding with_weights
  new-IsValid items h₀ h₁ =
      let n : ℕ = length items in
      let base : ℕ = u32_max / n / 32 in
      let init_val : ℕ = max (base / n) 1 in
      let li : List (Node T) = map (λ d. record { content = d; weight = init_val }) items in
      let (lo, hi) = init_bounds base n in
      let size : length li ≡ n = length-map_nodes init_val items in
      let q : PickFast T = record { li = li; total = sum_weights li; base = base } in
      let valid : IsValid q = record {
        some_node = rw size h₀;
        few_nodes = rw size h₁;
        small_base = rw size (base_bounds n);
        weights = All-map_nodes init_val (cap q) items lo hi;
        exact = refl;
      } in
      let total : init_val * n % u32_mod ≡ sum_weights li =
        omega (arith, sum_weights-map init_val items, sum_weights-lt q valid) in
      (
        record { li = li; total = init_val * n % u32_mod; base = base },
        new_returns items h₀ h₁,
        contents-map_nodes init_val items,
        record {
          some_node = valid.some_node;
          few_nodes = valid.few_nodes;
          small_base = valid.small_base;
          weights = valid.weights;
          exact = total;
        },
      )
