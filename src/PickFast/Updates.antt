-- ===== src/PickFast/Updates.antt =====
-- `new`, `set` and `failed` keep the picker valid, and move the weights the right way.
use npm.Common.{
  ℕ, ◌+◌, ◌*◌, ◌/◌, ◌%◌, ◌≤◌, ◌<◌, ◌≡◌, refl, arith, true, false, List, none, some, leb, ◌==◌,
  length, get_elem?, set, Bool-cases, inl, inr, Option-cases,
}
use Prim.Native.Nat.{max}
use npm.PickFast.{
  u32_mod, u32_max, calc, Node, PickFast, smoothed, halved, adjust, update, set_value, failed,
}
use npm.PickFast.Weights.{
  sum_weights, IsWeight, cap, IsValid, length-set, sum_weights-set, All-set, All-get_elem?,
  sum_weights-lt, cap-spare,
}
use native.Mathlib.Nat.{div-le_self}

-- The new weight lies between the old one and the target, and nothing wraps.
pub smoothed_between :
    (c old target : ℕ)
    → c * 32 ≤ u32_max
    → 1 ≤ old
    → old ≤ c
    → 1 ≤ target
    → target ≤ c
    → (smoothed old target ≡ (old * 31 + target) / 32)
      × (1 ≤ smoothed old target)
      × (smoothed old target ≤ c)
      × (target ≤ old → (target ≤ smoothed old target) × (smoothed old target ≤ old))
      × (old ≤ target → (old ≤ smoothed old target) × (smoothed old target ≤ target))
unfolding smoothed
smoothed_between c old target h o₁ o₂ t₁ t₂ = (
  omega arith,
  omega arith,
  omega arith,
  λ le. (omega arith, omega arith),
  λ le. (omega arith, omega arith),
)

halved_bounds : (c old : ℕ) → 1 ≤ old → old ≤ c → (1 ≤ halved old) × (halved old ≤ old)
unfolding halved
halved_bounds c old h₁ h₂ = (omega arith, omega arith)

adjust-exact :
    (total prev new_w total' : ℕ)
    → total < u32_mod
    → total' < u32_mod
    → total' + prev ≡ total + new_w
    → adjust total prev new_w ≡ total'
unfolding adjust
adjust-exact total prev new_w total' h h' e = ground arith

-- `calc` stays within `base`, and panics at the largest latency only.
pub calc_lem :
    (base latency : ℕ)
    → 1 ≤ latency
    → latency < u32_max
    → (w : ℕ) × (calc base latency ≡ some w) × (w ≤ base)
unfolding calc
calc_lem base latency h₁ h₂ =
    let small : (1 + latency) % u32_mod ≡ 1 + latency = omega arith in
    let nonzero : (1 + latency == 0) ≡ false = ground arith in
    (base / (1 + latency), rw (small, nonzero), div-le_self base (1 + latency))

calc_panics : (base : ℕ) → calc base u32_max ≡ none
unfolding calc
calc_panics base = refl

module _ {T : Type 0} where
  abbrev moved : (ℕ → ℕ) → ℕ → Node T → PickFast T → PickFast T
  moved f i x p = record p {
    li = set p.li i (record { content = x.content; weight = f x.weight });
    total = adjust p.total x.weight (f x.weight);
  }

  update_there :
      (f : ℕ → ℕ) (i : ℕ) (p : PickFast T) (x : Node T)
      → get_elem? p.li i ≡ some x
      → update f i p ≡ moved f i x p
  unfolding update
  update_there f i p x e = rw (e, update)

  update_nowhere : (f : ℕ → ℕ) (i : ℕ) (p : PickFast T) → get_elem? p.li i ≡ none → update f i p ≡ p
  unfolding update
  update_nowhere f i p e = rw (e, update)

  moved-IsValid :
      (f : ℕ → ℕ) (i : ℕ) (p : PickFast T) (x : Node T)
      → ((old : ℕ) → 1 ≤ old → old ≤ cap p → (1 ≤ f old) × (f old ≤ cap p))
      → get_elem? p.li i ≡ some x
      → IsValid p
      → IsValid (moved f i x p)
  moved-IsValid f i p x keep there v =
      let y : Node T = record { content = x.content; weight = f x.weight } in
      let li' : List (Node T) = set p.li i y in
      let (lo, hi) = All-get_elem? (cap p) p.li i x v.weights there in
      let n : length li' ≡ length p.li = length-set p.li i y in
      let q : PickFast T = record p { li = li'; total = sum_weights li' } in
      let valid : IsValid q = record {
        some_node = rw n v.some_node;
        few_nodes = rw n v.few_nodes;
        small_base = rw n v.small_base;
        weights = All-set (IsWeight (cap p)) p.li i y (keep x.weight lo hi) v.weights;
        exact = refl;
      } in
      let total' : adjust p.total x.weight (f x.weight) ≡ sum_weights li' =
        adjust-exact p.total x.weight (f x.weight) (sum_weights li')
          (omega (arith, sum_weights-lt p v, v.exact)) (sum_weights-lt q valid)
          (omega (arith, sum_weights-set p.li i x y there, v.exact)) in
      record {
        some_node = valid.some_node;
        few_nodes = valid.few_nodes;
        small_base = valid.small_base;
        weights = valid.weights;
        exact = total';
      }

  -- An update by a function that keeps weights in range keeps the picker valid.
  pub update-IsValid :
      (f : ℕ → ℕ) (i : ℕ) (p : PickFast T)
      → ((old : ℕ) → 1 ≤ old → old ≤ cap p → (1 ≤ f old) × (f old ≤ cap p))
      → IsValid p
      → IsValid (update f i p)
  update-IsValid f i p keep v = elim (Option-cases (get_elem? p.li i)) [
    | inl e ↦ rw (update_nowhere f i p e) v
    | inr (x, e) ↦ rw (update_there f i p x e) (moved-IsValid f i p x keep e v)
  ]

  -- `failed` keeps every weight positive and the total exact, on any index.
  pub failed-IsValid : (i : ℕ) (p : PickFast T) → IsValid p → IsValid (failed i p)
  failed-IsValid i p v = elim (Bool-cases (leb (length p.li) i)) [
    | inl beyond ↦ rw (failed_beyond i p beyond) v
    | inr inside ↦ rw (failed_inside i p inside) (
        update-IsValid halved i p
          (λ old lo hi. let (a, b) = halved_bounds (cap p) old lo hi in (a, omega arith)) v)
  ]
    where
      failed_beyond : (i : ℕ) (p : PickFast T) → leb (length p.li) i ≡ true → failed i p ≡ p
      failed_beyond i p e = unfold failed in rw e

      failed_inside :
          (i : ℕ) (p : PickFast T) → leb (length p.li) i ≡ false → failed i p ≡ update halved i p
      failed_inside i p e = unfold failed in rw e

  set_value_inside :
      (i val c : ℕ) (p : PickFast T)
      → i < length p.li
      → calc p.base (max val 1) ≡ some c
      → set_value i val p ≡ some (update (λ old. smoothed old (max c 1)) i p)
  unfolding set_value
  set_value_inside i val c p h e =
      let inside : leb (length p.li) i ≡ false = ground arith in rw (inside, e)

  -- `set` with any value but the largest u32 returns, and keeps the picker valid.
  pub set_value-IsValid :
      (i val : ℕ) (p : PickFast T)
      → val < u32_max
      → IsValid p
      → (q : PickFast T) × (set_value i val p ≡ some q) × IsValid q
  set_value-IsValid i val p h v = elim (Bool-cases (leb (length p.li) i)) [
    | inl beyond ↦ (p, unfold set_value in rw beyond, v)
    | inr inside ↦
        let (c, e, le) = calc_lem p.base (max val 1) (omega arith) (omega arith) in
        let target : ℕ = max c 1 in
        (
          update (λ old. smoothed old target) i p,
          set_value_inside i val c p (ground arith) e,
          update-IsValid (λ old. smoothed old target) i p
              (λ old lo hi.
                let (a, b, d, x, y) =
                  smoothed_between (cap p) old target (cap-spare p v) lo hi (omega arith)
                    (omega arith) in
                (b, d))
              v,
        )
  ]

  -- With the largest u32 `set` panics on every node, and does nothing beyond the last.
  pub set_value_panics : (i : ℕ) (p : PickFast T) → i < length p.li → set_value i u32_max p ≡ none
  unfolding set_value
  set_value_panics i p h =
      let inside : leb (length p.li) i ≡ false = ground arith in rw (inside, calc_panics p.base)
