-- ===== src/PickFast/Tests.antt =====
-- Runs of the picker, and the theorems at concrete inputs.
use npm.Common.{ℕ, ◌+◌, ◌≤◌, ◌<◌, ◌≡◌, ◌↔◌, refl, arith, [], ◌∷◌, some, length, take}
use npm.PickFast.{PickFast, set_value, pick, iter_start}
use npm.PickFast.Weights.{IsValid, sum_weights}
use npm.PickFast.Updates.{set_value-IsValid}
use npm.PickFast.Pick.{pick_iff}
use npm.PickFast.Concurrent.{Shared, Reach, cas, settle, swap, finish, here, next, Reach-exact}

abbrev two_nodes : PickFast ℕ
two_nodes = record {
  li = record { content = 7; weight = 30 } ∷ record { content = 8; weight = 12 } ∷ [];
  total = 42;
  base = 1000;
}

two_nodes-IsValid : IsValid two_nodes
two_nodes-IsValid = omega arith

set_value-IsValid_example : (q : PickFast ℕ) × (set_value 1 40 two_nodes ≡ some q) × IsValid q
set_value-IsValid_example = set_value-IsValid 1 40 two_nodes (omega arith) two_nodes-IsValid

pick_iff_example :
    ((pick 35 two_nodes ≡ 1)
      ↔ ((sum_weights (take 1 two_nodes.li) ≤ 35) × (35 < sum_weights (take 2 two_nodes.li))))
    × (iter_start 35 two_nodes ≡ pick 35 two_nodes)
    × (pick 35 two_nodes < length two_nodes.li)
pick_iff_example = pick_iff 35 1 two_nodes two_nodes-IsValid (omega arith)

abbrev idle : Shared ℕ
idle = record { picker = two_nodes; in_flight = [] }

abbrev one_flying : Shared ℕ
one_flying = cas (λ w. w + 4) 0 (record { content = 7; weight = 30 }) idle

abbrev landed : Shared ℕ
landed = settle [] (record { prev = 30; new_w = 34 }) [] one_flying

one_flying-Reach : Reach idle one_flying
one_flying-Reach =
    next here
      (swap (λ w. w + 4) 0 (record { content = 7; weight = 30 }) refl (omega arith) (omega arith))

Reach-exact_example : landed.picker.total ≡ sum_weights landed.picker.li
Reach-exact_example =
    Reach-exact idle landed refl (omega arith) (omega arith)
      (next one_flying-Reach (finish [] [] (record { prev = 30; new_w = 34 }) refl)) refl
      (omega arith)
