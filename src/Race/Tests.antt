-- ===== src/Race/Tests.antt =====
-- Races of small tasks, and the theorems at concrete inputs.
use npm.Common.{ℕ, true, List, [], ◌∷◌, inl, inr, ◌≡◌, refl, leb, if◌then◌else◌}
use npm.Race.{Input, new, poll_next, poll_all}
use npm.Race.Removed.{args_of}
use npm.Race.Complete.{poll_all_complete}
use npm.Race.Progress.{IsSettled, poll_next-IsSettled}
use mathlib.Core.List.{Perm}

-- A task is the instant at which it ends, with the argument itself as the result.
abbrev at : ℕ → Input ℕ ℕ
at now = record {
  now = now;
  is_over = λ t. leb t now;
  poll = λ f. if leb f now then inr f else inl f;
}

abbrev polls : List (Input ℕ ℕ)
polls = at 0 ∷ at 5 ∷ at 20 ∷ at 40 ∷ at 90 ∷ at 95 ∷ []

abbrev tasks : ℕ → ℕ
tasks a = a

-- The second task is over before the first.
race_run : args_of (poll_all tasks polls (new 10 0 (80 ∷ 30 ∷ []))).0 ≡ 30 ∷ 80 ∷ []
unfolding poll_all new args_of
race_run = refl

poll_all_complete_example :
    Perm (args_of (poll_all tasks polls (new 10 0 (80 ∷ 30 ∷ []))).0) (80 ∷ 30 ∷ [])
unfolding poll_next poll_all new
poll_all_complete_example = poll_all_complete tasks 10 0 (80 ∷ 30 ∷ []) polls (at 99) refl

-- Every task is over.
abbrev all_over : Input ℕ ℕ
all_over = record { now = 50; is_over = λ t. true; poll = λ f. inr f }

poll_next-IsSettled_example : IsSettled (poll_next tasks all_over (new 10 0 (80 ∷ 30 ∷ []))).0
unfolding new
poll_next-IsSettled_example =
    poll_next-IsSettled tasks all_over (new 10 0 (80 ∷ 30 ∷ [])) (λ f. (f, refl)) refl
