-- ===== src/PickFast/Pick.antt =====
-- `pick` returns a node for exactly as many targets as its weight.
use npm.Common.{
  ℕ, zero, suc, ◌+◌, ◌-◌, ◌%◌, ◌≤◌, ◌<◌, ◌≡◌, ◌↔◌, refl, sym, ap, ◌∙◌, arith, true, false, List, [],
  ◌∷◌, some, ltb, ◌==◌, length, take, Bool-cases, inl, inr,
}
use mathlib.Core.Path.{subst}
use npm.PickFast.{u32_mod, Node, PickFast, scan, pick, iter_start}
use npm.PickFast.Weights.{sum_weights, IsValid, sum_weights-lt}

module _ {T : Type 0} where
  -- The target lies in the stretch of length `weight` that node `k` has of the total.
  abbrev pub Covers : ℕ → ℕ → List (Node T) → Type 0
  Covers k target xs = (sum_weights (take k xs) ≤ target) × (target < sum_weights (take (suc k) xs))

  scan_hit :
      (k target sum i : ℕ) (xs : List (Node T))
      → sum + sum_weights xs < u32_mod
      → sum + sum_weights (take k xs) ≤ target
      → target < sum + sum_weights (take (suc k) xs)
      → scan target sum i xs ≡ some (i + k)
  unfolding scan
  scan_hit k target sum i [] h lo hi = absurd (omega arith)
  scan_hit zero target sum i (x ∷ xs) h lo hi =
      let e : (sum + x.weight) % u32_mod ≡ sum + x.weight = omega arith in
      let passed : ltb target (sum + x.weight) ≡ true = ground arith in
      rw (e, passed) (ap some (omega arith))
  scan_hit (suc k) target sum i (x ∷ xs) h lo hi =
      let e : (sum + x.weight) % u32_mod ≡ sum + x.weight = omega arith in
      let not_yet : ltb target (sum + x.weight) ≡ false = ground arith in
      rw (e, not_yet)
        (scan_hit k target (sum + x.weight) (suc i) xs (omega arith) (omega arith) (omega arith)
          ∙ ap some (omega arith))

  covered :
      (target : ℕ) (xs : List (Node T))
      → target < sum_weights xs
      → (k : ℕ) × (k < length xs) × Covers k target xs
  covered target [] h = absurd (omega arith)
  covered target (x ∷ xs) h = elim (Bool-cases (ltb target x.weight)) [
    | inl here ↦ (0, omega arith, (omega arith, ground arith))
    | inr there ↦
        let (k, lt, (lo, hi)) = covered (target - x.weight) xs (ground arith) in
        let beyond : x.weight ≤ target = ground arith in
        (suc k, omega arith, (omega arith, omega arith))
  ]

  pick_scan :
      (target k : ℕ) (p : PickFast T)
      → IsValid p
      → target < p.total
      → Covers k target p.li
      → (pick target p ≡ k) × (iter_start target p ≡ k)
  unfolding pick iter_start
  pick_scan target k p v h c =
      let nonzero : (p.total == 0) ≡ false = ground arith in
      let found : scan target 0 0 p.li ≡ some k =
        scan_hit k target 0 0 p.li (omega (arith, sum_weights-lt p v)) (omega (arith, c.0))
          (omega (arith, c.1))
        ∙ ap some (omega arith) in
      rw (nonzero, found) (refl, refl)

  -- The node at `k` is picked exactly for the targets of its stretch, which are as many as its
  -- weight; and `iter` starts at the node that `pick` returns.
  pub pick_iff :
      (target k : ℕ) (p : PickFast T)
      → IsValid p
      → target < p.total
      → ((pick target p ≡ k)
          ↔ ((sum_weights (take k p.li) ≤ target) × (target < sum_weights (take (suc k) p.li))))
        × (iter_start target p ≡ pick target p)
        × (pick target p < length p.li)
  pick_iff target k p v h =
      let (j, lt, c) = covered target p.li (omega (arith, v.exact)) in
      let (e, e') = pick_scan target j p v h c in
      (
        (
          λ same. subst (λ n. Covers n target p.li) (sym e ∙ same) c,
          λ cover. (pick_scan target k p v h cover).0,
        ),
        e' ∙ sym e,
        omega arith,
      )
