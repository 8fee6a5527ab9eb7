-- ===== src/KvId/Increasing.antt =====
-- The ids that calls hand out.
use npm.Common.{ℕ, ◌<◌, some, List, [], ◌∷◌, ◌≡◌, refl, arith}
use npm.KvId.{
  KvId, new, id, failed, out_of_fuel, Result, next, fill, Call, call_next, call_fill, Run, with_id,
  go_on, run_calls,
}
use npm.KvId.Steps.{IsValid, Gave, next-Gave, fill_empty-IsValid}

-- Each id is above the one before it, and the first is above `last`.
unfoldable pub Increases : ℕ → List ℕ → Type 0
Increases last [] = Unit {0}
Increases last (n ∷ ids) = (last < n) × Increases n ids

abbrev IsIncreasing : ℕ → Run → Type 0
IsIncreasing last run =
    (ids : List ℕ) × (s : KvId) × (top : ℕ) × (run ≡ some (ids, s, top)) × Increases last ids

go_on-IsIncreasing :
    (rest : KvId → ℕ → Run)
    → ((last : ℕ) (s : KvId) (top : ℕ) → IsValid last s top → IsIncreasing last (rest s top))
    → (last : ℕ) (r : Result) → Gave last r
    → IsIncreasing last (go_on rest r)
unfolding go_on with_id Increases
go_on-IsIncreasing rest h last (id n, s, top) g =
    let (ids, s', top', e, up) = h n s top g.1 in
    (n ∷ ids, s', top', rw (e, with_id) refl, (g.0, up))
go_on-IsIncreasing rest h last (failed, s, top) g = h last s top g
go_on-IsIncreasing rest h last (out_of_fuel, s, top) g = absurd (omega (arith, g))

run_calls-IsIncreasing :
    (calls : List Call) (last : ℕ) (s : KvId) (top : ℕ)
    → IsValid last s top
    → IsIncreasing last (run_calls calls s top)
unfolding run_calls fill Increases
run_calls-IsIncreasing [] last s top h = ([], s, top, refl, tt)
run_calls-IsIncreasing (call_next reply now ∷ calls) last s top h =
    go_on-IsIncreasing (run_calls calls) (run_calls-IsIncreasing calls) last
      (next 2 reply now s top) (next-Gave reply now last s top h)
run_calls-IsIncreasing (call_fill reply now ∷ calls) last s top h =
    run_calls-IsIncreasing calls last (fill reply now s top).0 (fill reply now s top).1
      (fill_empty-IsValid reply now last s top s.next h)

-- Calls one after the other, with segments filled between them, whatever the counter holds, replies
-- and counts for others and whatever the time is, all return, each after two rounds at most, and the
-- ids they return increase strictly from above 0.
pub run_calls_increase :
    (calls : List Call) (top : ℕ)
    → (ids : List ℕ) × (s : KvId) × (top' : ℕ) × (run_calls calls new top ≡ some (ids, s, top'))
      × Increases 0 ids
unfolding new
run_calls_increase calls top =
    run_calls-IsIncreasing calls 0 new top (omega arith, omega arith, omega arith, tt, omega arith)
