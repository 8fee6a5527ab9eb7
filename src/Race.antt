-- ===== src/Race.antt =====
-- race/src/lib.rs: the stream that starts a task for each argument, one `step` after the other, and
-- yields the results as the tasks end. An instant is a number.
pub mod Removed
pub mod Polled
pub mod Complete
pub mod Progress
mod Tests
use npm.Common.{
  ℕ, zero, suc, ◌+◌, Bool, true, false, Option, none, some, List, [], ◌∷◌, ◌++◌, ◌⊎◌, inl, inr, leb,
  ltb, ◌&&◌, if◌then◌else◌,
}

-- A running task stands with its argument; the timer is the instant at which it ends.
pub record Race (A F : Type 0) : Type 0 where
  pub ing : List (A × F)
  pub step : ℕ
  pub args : List A
  pub next_run : ℕ
  pub timer : Option ℕ
  pub is_end : Bool

-- What a poll finds: the instant, whether a timer is over, and how far a task is.
pub record Input (F T : Type 0) : Type 0 where
  pub now : ℕ
  pub is_over : ℕ → Bool
  pub poll : F → F ⊎ T

pub data Poll (A T : Type 0) : Type 0 where
  item : A → T → Poll A T
  finished : Poll A T
  pending : Poll A T

unfoldable pub put_second : {A : Type 0} → A → List A → List A
put_second x [] = x ∷ []
put_second x (z ∷ zs) = z ∷ x ∷ zs

unfoldable pub last_first : {A : Type 0} → A → List A → List A
unfolding put_second
last_first x [] = x ∷ []
last_first x (y ∷ ys) = put_second x (last_first y ys)

-- `Vec::swap_remove`: the last element takes the place of the one that is removed.
unfoldable pub swap_remove : {A : Type 0} → ℕ → List A → List A
unfolding last_first
swap_remove i [] = []
swap_remove zero (x ∷ []) = []
swap_remove zero (x ∷ y ∷ ys) = last_first y ys
swap_remove (suc i) (x ∷ xs) = x ∷ swap_remove i xs

unfoldable pub is_nil : {A : Type 0} → List A → Bool
is_nil [] = true
is_nil (x ∷ xs) = false

unfoldable pub new : {A F : Type 0} → ℕ → ℕ → List A → Race A F
new step now args = record {
  ing = [];
  step = step;
  args = args;
  next_run = now;
  timer = none;
  is_end = false;
}

-- The loop that starts what is due, on `args`, `next_run` and `ing`, with `is_end` as it leaves it.
unfoldable pub start_due :
    {A F : Type 0} → (A → F) → ℕ → ℕ → List A → ℕ → List (A × F) → List A × ℕ × List (A × F) × Bool
start_due run step now [] next_run ing = ([], next_run, ing, leb next_run now)
start_due run step now (a ∷ args) next_run ing =
    let rest = start_due run step now args (next_run + step) (ing ++ ((a, run a) ∷ [])) in
    if leb next_run now then rest else (a ∷ args, next_run, ing, false)

-- A timer is set when there is none, unless the arguments are at their end.
unfoldable pub set_timer : ℕ → ℕ → Bool → Option ℕ → Option ℕ
set_timer now next_run true timer = none
set_timer now next_run false (some t) = some t
set_timer now next_run false none = some (if ltb now next_run then next_run else now)

unfoldable pub start : {A F : Type 0} → (A → F) → ℕ → Race A F → Race A F
unfolding start_due set_timer
start run now r =
    let (args, next_run, ing, is_end) = start_due run r.step now r.args r.next_run r.ing in
    if r.is_end then r else record {
      ing = ing;
      step = r.step;
      args = args;
      next_run = next_run;
      timer = set_timer now next_run is_end r.timer;
      is_end = is_end;
    }

unfoldable pub poll_timer : (ℕ → Bool) → Option ℕ → Option ℕ
poll_timer is_over none = none
poll_timer is_over (some t) = if is_over t then none else some t

-- What a task adds to what the tasks behind it gave.
unfoldable pub poll_task :
    {A F T : Type 0}
    → A
    → F
    → F ⊎ T
    → List (A × F) × Option (ℕ × A × T)
    → List (A × F) × Option (ℕ × A × T)
poll_task a f progress (rest, some (i, b, t)) = ((a, f) ∷ rest, some (suc i, b, t))
poll_task a f (inl g) (rest, none) = ((a, g) ∷ rest, none)
poll_task a f (inr t) (rest, none) = ((a, f) ∷ rest, some (zero, a, t))

-- From the last task to the first, up to one that is ready, which is named by its place.
unfoldable pub poll_ing :
    {A F T : Type 0} → (F → F ⊎ T) → List (A × F) → List (A × F) × Option (ℕ × A × T)
unfolding poll_task
poll_ing poll [] = ([], none)
poll_ing poll ((a, f) ∷ ing) = poll_task a f (poll f) (poll_ing poll ing)

unfoldable pub conclude :
    {A F T : Type 0} → Race A F → List (A × F) × Option (ℕ × A × T) → Poll A T × Race A F
unfolding swap_remove is_nil
conclude r (ing, some (i, a, t)) = (item a t, record r { ing = swap_remove i ing })
conclude r (ing, none) =
    (if is_nil ing && r.is_end then finished else pending, record r { ing = ing })

unfoldable pub poll_next : {A F T : Type 0} → (A → F) → Input F T → Race A F → Poll A T × Race A F
unfolding start poll_timer poll_ing conclude
poll_next run input r =
    let started = start run input.now r in
    conclude (record started { timer = poll_timer input.is_over started.timer })
      (poll_ing input.poll started.ing)

unfoldable pub add_item : {A T : Type 0} → Poll A T → List (A × T) → List (A × T)
add_item (item a t) items = (a, t) ∷ items
add_item finished items = items
add_item pending items = items

-- The items that a list of polls yields, and the state that it leaves.
unfoldable pub poll_all :
    {A F T : Type 0} → (A → F) → List (Input F T) → Race A F → List (A × T) × Race A F
unfolding poll_next add_item
poll_all run [] r = ([], r)
poll_all run (input ∷ inputs) r =
    let (polled, r₁) = poll_next run input r in
    let (items, r₂) = poll_all run inputs r₁ in (add_item polled items, r₂)
