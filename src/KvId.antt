-- ===== src/KvId.antt =====
-- kvid/src/lib.rs and kvid/src/impl.rs: ids from segments of a counter that other processes share.
-- The calls come one after the other, so that a compare-and-exchange succeeds at last, and the
-- counter's value is carried beside the state.
pub mod Steps
pub mod Increasing
mod Tests
use npm.Common.{
  ℕ, zero, suc, ◌+◌, ◌-◌, ◌*◌, ◌/◌, Bool, true, false, Option, none, some, List, [], ◌∷◌, ltb, leb,
  ◌==◌, if◌then◌else◌,
}

abbrev pub preload_sec : ℕ
preload_sec = 60

abbrev pub step_min : ℕ
step_min = 1

abbrev pub step_max : ℕ
step_max = 1000000

pub record Seg : Type 0 where
  pub id : ℕ
  pub max : ℕ

-- `fast` and `slow`.
pub record KvId : Type 0 where
  pub id : ℕ
  pub max : ℕ
  pub next : Option Seg
  pub step : ℕ
  pub ts : ℕ

unfoldable pub new : KvId
new = record { id = 0; max = 0; next = none; step = step_min; ts = 0 }

unfoldable pub clamp : ℕ → ℕ
clamp n = if ltb n step_min then step_min else if ltb step_max n then step_max else n

unfoldable pub calc_step : ℕ → ℕ → ℕ → ℕ
unfolding clamp
calc_step step ts now =
    if ts == 0
    then step_min
    else if now - ts == 0
    then (if ltb step 64 then 64 else if ltb step_max (step * 2) then step_max else step * 2)
    else clamp (step * preload_sec / (now - ts))

unfoldable pub try_next : KvId → Option ℕ × KvId
try_next s = if leb s.max s.id then (none, s) else (some (s.id + 1), record s { id = s.id + 1 })

unfoldable pub set_seg : Seg → KvId → KvId
set_seg seg s = record s { id = seg.id; max = seg.max }

unfoldable pub switch_to : Option Seg → KvId → Option ℕ × KvId
unfolding try_next set_seg
switch_to none s = try_next s
switch_to (some seg) s = try_next (set_seg seg s)

unfoldable pub try_switch_seg : KvId → Option ℕ × KvId
unfolding switch_to try_next
try_switch_seg s =
    if ltb s.id s.max then try_next s else switch_to s.next (record s { next = none })

-- The counter's `hincrby`: it fails, or `others` were added by others before.
unfoldable pub fetch : Option ℕ → ℕ → ℕ → Option (Seg × ℕ)
fetch none step top = none
fetch (some others) step top =
    let max = top + others + step in some (record { id = max - step; max = max }, max)

unfoldable pub max_of : ℕ → ℕ → ℕ
max_of a b = if ltb a b then b else a

-- What `next` returns; the fuel counts its rounds.
pub data Got : Type 0 where
  id : ℕ → Got
  failed : Got
  out_of_fuel : Got

abbrev pub Result : Type 0
Result = Got × KvId × ℕ

unfoldable pub fetched : (KvId → ℕ → Result) → ℕ → ℕ → KvId → ℕ → Option (Seg × ℕ) → Result
unfolding set_seg
fetched rest step now s top none = (failed, s, top)
fetched rest step now s top (some (seg, top')) =
    rest (record s { id = seg.id; max = seg.max; step = step; ts = now }) top'

unfoldable pub slow_next : (KvId → ℕ → Result) → Option ℕ → ℕ → ℕ → Option ℕ × KvId → Result
unfolding calc_step max_of fetch fetched
slow_next rest reply now top (some n, s) = (id n, s, top)
slow_next rest reply now top (none, s) =
    let step = max_of (calc_step s.step s.ts now) s.step in
    fetched rest step now s top (fetch reply step top)

unfoldable pub second_next : (KvId → ℕ → Result) → Option ℕ → ℕ → ℕ → Option ℕ × KvId → Result
unfolding slow_next try_switch_seg
second_next rest reply now top (some n, s) = (id n, s, top)
second_next rest reply now top (none, s) = slow_next rest reply now top (try_switch_seg s)

unfoldable pub first_next : (KvId → ℕ → Result) → Option ℕ → ℕ → ℕ → Option ℕ × KvId → Result
unfolding second_next try_switch_seg
first_next rest reply now top (some n, s) = (id n, s, top)
first_next rest reply now top (none, s) = second_next rest reply now top (try_switch_seg s)

unfoldable pub next : ℕ → Option ℕ → ℕ → KvId → ℕ → Result
unfolding first_next try_next
next zero reply now s top = (out_of_fuel, s, top)
next (suc fuel) reply now s top =
    first_next (λ s' top'. next fuel reply now s' top') reply now top (try_next s)

unfoldable pub filled : KvId → ℕ → Option (Seg × ℕ) → KvId × ℕ
filled s top none = (s, top)
filled s top (some (seg, top')) = (record s { next = some seg }, top')

unfoldable pub fill_empty : Option ℕ → ℕ → KvId → ℕ → Option Seg → KvId × ℕ
unfolding filled calc_step fetch
fill_empty reply now s top (some seg) = (s, top)
fill_empty reply now s top none = filled s top (fetch reply (calc_step s.step s.ts now) top)

unfoldable pub fill : Option ℕ → ℕ → KvId → ℕ → KvId × ℕ
unfolding fill_empty
fill reply now s top = fill_empty reply now s top s.next

-- A call of `next`, or the task that `spawn_fill` starts, with the counter's reply and the time.
pub data Call : Type 0 where
  call_next : Option ℕ → ℕ → Call
  call_fill : Option ℕ → ℕ → Call

abbrev pub Run : Type 0
Run = Option (List ℕ × KvId × ℕ)

unfoldable pub with_id : ℕ → Run → Run
with_id n none = none
with_id n (some (ids, s, top)) = some (n ∷ ids, s, top)

unfoldable pub go_on : (KvId → ℕ → Run) → Result → Run
unfolding with_id
go_on rest (id n, s, top) = with_id n (rest s top)
go_on rest (failed, s, top) = rest s top
go_on rest (out_of_fuel, s, top) = none

-- The ids that the calls return, with the state and the counter at the end.
unfoldable pub run_calls : List Call → KvId → ℕ → Run
unfolding go_on next fill
run_calls [] s top = some ([], s, top)
run_calls (call_next reply now ∷ calls) s top = go_on (run_calls calls) (next 2 reply now s top)
run_calls (call_fill reply now ∷ calls) s top =
    let (s', top') = fill reply now s top in run_calls calls s' top'
