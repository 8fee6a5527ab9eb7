-- ===== src/PickFast.antt =====
-- pick_fast/src/lib.rs: the weighted picker. Its atomics are fields here: `Sequential` runs one
-- method at a time, `Concurrent` interleaves the atomic steps of many. What `fastrand::u32(0..n)`
-- draws is the argument `target`. `none` is a panic. A u32 wraps at 2^32, as in a release build.

pub mod Weights
pub mod Updates
pub mod New
pub mod Concurrent
mod Tests
pub mod Pick
use npm.Common.{
  ℕ, zero, suc, ◌+◌, ◌-◌, ◌*◌, ◌/◌, ◌%◌, ◌^◌, Bool, ◌||◌, List, [], ◌∷◌, Option, none, some, map,
  ltb, leb, ◌==◌, if◌then◌else◌, length, get_elem?, set,
}
use Prim.Native.Nat.{max}

abbrev pub u32_mod : ℕ
u32_mod = 2 ^ 32

abbrev pub u32_max : ℕ
u32_max = 2 ^ 32 - 1

-- `Inverse::calc`: `base / (1 + latency)`. The sum wraps to 0 at the largest latency, and then the
-- division panics (a debug build panics at the sum).
unfoldable pub calc : ℕ → ℕ → Option ℕ
calc base latency = let d = (1 + latency) % u32_mod in if d == 0 then none else some (base / d)

pub record Node {ℓ} (T : Type ℓ) : Type ℓ where
  pub content : T
  pub weight : ℕ

pub record PickFast {ℓ} (T : Type ℓ) : Type ℓ where
  pub li : List (Node T)
  pub total : ℕ
  pub base : ℕ

-- The new weight of the CAS loop of `set`, `((old * 31 + target_w) >> 5).max(1)`.
unfoldable pub smoothed : ℕ → ℕ → ℕ
smoothed old target_w = max ((old * 31 % u32_mod + target_w) % u32_mod / 2 ^ 5) 1

-- The new weight of `failed`, `(old >> 1).max(1)`.
unfoldable pub halved : ℕ → ℕ
halved old = max (old / 2) 1

-- `fetch_add(new_w - prev)` or `fetch_sub(prev - new_w)`; both wrap.
unfoldable pub adjust : ℕ → ℕ → ℕ → ℕ
adjust total prev new_w =
    if ltb prev new_w
    then (total + (new_w - prev)) % u32_mod
    else (total + u32_mod - (prev - new_w)) % u32_mod

module _ {ℓ} {T : Type ℓ} where
  unfoldable pub with_weights : ℕ → ℕ → List T → PickFast T
  with_weights base n items =
      let init_val = max (base / n) 1 in
      record {
        li = map (λ d. record { content = d; weight = init_val }) items;
        total = init_val * n % u32_mod;
        base = base;
      }

  -- `n as u32` keeps 32 bits, and a divisor of 0 panics.
  unfoldable pub new : List T → Option (PickFast T)
  unfolding with_weights
  new items =
      let n = length items % u32_mod in
      if length items == 0 || (n == 0) then none else some (with_weights (u32_max / n / 32) n items)

  unfoldable pub len : PickFast T → ℕ
  len p = length p.li

  unfoldable pub is_empty : PickFast T → Bool
  is_empty p = length p.li == 0

  -- The scan of `pick`: the index where the running sum passes the target.
  unfoldable pub scan : ℕ → ℕ → ℕ → List (Node T) → Option ℕ
  scan target sum i [] = none
  scan target sum i (x ∷ xs) =
      let sum' = (sum + x.weight) % u32_mod in
      let rest = scan target sum' (suc i) xs in if ltb target sum' then some i else rest

  -- The index of the handle that `pick` returns; its node is `li[index]`.
  unfoldable pub pick : ℕ → PickFast T → ℕ
  pick target p =
      if p.total == 0
      then 0
      else elim (scan target 0 0 p.li) [ none ↦ length p.li - 1 | some i ↦ i ]

  -- Where `iter` starts: as `pick`, but 0 if the scan finds nothing.
  unfoldable pub iter_start : ℕ → PickFast T → ℕ
  iter_start target p =
      if p.total == 0 then 0 else elim (scan target 0 0 p.li) [ none ↦ 0 | some i ↦ i ]

  -- The update of one node by `new_weight`, and of the total by the difference.
  unfoldable pub update : (ℕ → ℕ) → ℕ → PickFast T → PickFast T
  update new_weight index p = elim (get_elem? p.li index) [
    | none ↦ p
    | some x ↦
        let w : ℕ = new_weight x.weight in
        record p {
          li = set p.li index (record { content = x.content; weight = w });
          total = adjust p.total x.weight w;
        }
  ]

  unfoldable pub set_value : ℕ → ℕ → PickFast T → Option (PickFast T)
  unfolding update
  set_value index val p =
      if leb (length p.li) index then some p else elim (calc p.base (max val 1)) [
        | none ↦ none
        | some c ↦ some (update (λ old. smoothed old (max c 1)) index p)
      ]

  unfoldable pub failed : ℕ → PickFast T → PickFast T
  unfolding update
  failed index p = if leb (length p.li) index then p else update halved index p
