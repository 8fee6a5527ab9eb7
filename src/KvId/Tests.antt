-- ===== src/KvId/Tests.antt =====
-- Calls after one another, and the theorem at a concrete input.
use npm.Common.{ℕ, Option, none, some, List, [], ◌∷◌, ◌≡◌, refl}
use npm.KvId.{KvId, Call, call_next, call_fill, new, calc_step, run_calls}
use npm.KvId.Increasing.{Increases, run_calls_increase}

-- The counter fails once, and others take 7 ids between the segments.
abbrev calls : List Call
calls =
    call_next none 100
    ∷ call_next (some 0) 100
    ∷ call_next (some 7) 100
    ∷ call_fill (some 1) 100
    ∷ call_next none 101
    ∷ call_next none 101
    ∷ []

run_calls_increase_example :
    (ids : List ℕ) × (s : KvId) × (top : ℕ) × (run_calls calls new 40 ≡ some (ids, s, top))
    × Increases 0 ids
run_calls_increase_example = run_calls_increase calls 40

-- After a segment of one id that lasted no second, the next has 64.
grown_run : calc_step 1 100 100 ≡ 64
unfolding calc_step
grown_run = refl

ids_of : Option (List ℕ × KvId × ℕ) → List ℕ
ids_of none = []
ids_of (some (ids, s, top)) = ids

ids_run : ids_of (run_calls calls new 40) ≡ 41 ∷ 49 ∷ 50 ∷ 51 ∷ []
unfolding run_calls new ids_of
ids_run = refl
