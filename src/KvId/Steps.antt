-- ===== src/KvId/Steps.antt =====
-- What the steps of a call keep.
use npm.Common.{
  ℕ, ◌+◌, ◌-◌, ◌≤◌, ◌<◌, true, false, Option, none, some, ltb, leb, Bool-cases, inl, inr, ◌≡◌, refl,
  arith, ltb→lt, leb→le,
}
use npm.KvId.{
  Seg, KvId, clamp, calc_step, try_next, set_seg, switch_to, try_switch_seg, fetch, max_of, id,
  failed, out_of_fuel, Result, fetched, slow_next, second_next, first_next, next, filled,
  fill_empty,
}

-- A segment that is kept for later lies above the one in use.
abbrev pub IsNext : ℕ → ℕ → Option Seg → Type 0
IsNext max top none = Unit {0}
IsNext max top (some seg) = (max ≤ seg.id) × (seg.id < seg.max) × (seg.max ≤ top)

-- Every id that was handed out is at most `last`.
abbrev pub IsValid : ℕ → KvId → ℕ → Type 0
IsValid last s top =
    (last ≤ s.id) × (s.id ≤ s.max) × (s.max ≤ top) × IsNext s.max top s.next × (1 ≤ s.step)

-- What a try leaves.
abbrev Tried : ℕ → ℕ → Option ℕ × KvId → Type 0
Tried last top (none, s) = IsValid last s top × (s.max ≤ s.id)
Tried last top (some n, s) = (last < n) × IsValid n s top

abbrev Switched : ℕ → ℕ → Option ℕ × KvId → Type 0
Switched last top (none, s) = IsValid last s top × (s.next ≡ none)
Switched last top (some n, s) = (last < n) × IsValid n s top

abbrev pub Gave : ℕ → Result → Type 0
Gave last (id n, s, top) = (last < n) × IsValid n s top
Gave last (failed, s, top) = IsValid last s top
Gave last (out_of_fuel, s, top) = ◌≡◌ {A = ℕ} 0 1

above : (a b : ℕ) → leb a b ≡ false → b < a
above a b h = ground arith

not_above : (a b : ℕ) → b < a → leb a b ≡ false
not_above a b h = ground arith

advance :
    (last : ℕ) (s : KvId) (top : ℕ)
    → s.id < s.max
    → IsValid last s top
    → (last < s.id + 1) × IsValid (s.id + 1) (record s { id = s.id + 1 }) top
advance last s top free h = (omega (arith, h.0), (omega arith, omega arith, h.2, h.3, h.4))

leb_of : (a b : ℕ) → a ≤ b → leb a b ≡ true
leb_of a b h = ground arith

not_below : (a b : ℕ) → ltb a b ≡ false → b ≤ a
not_below a b h = ground arith

max_of_above : (a b : ℕ) → 1 ≤ b → 1 ≤ max_of a b
unfolding max_of
max_of_above a b h = ground arith

try_next-Tried : (last : ℕ) (s : KvId) (top : ℕ) → IsValid last s top → Tried last top (try_next s)
unfolding try_next
try_next-Tried last s top h = elim (Bool-cases (leb s.max s.id)) [
  | inl used ↦ rw (used, try_next) (h, leb→le s.max s.id used)
  | inr free ↦ rw (free, try_next) (advance last s top (above s.max s.id free) h)
]

calc_step_positive : (step ts now : ℕ) → 1 ≤ step → 1 ≤ calc_step step ts now
unfolding calc_step clamp
calc_step_positive step ts now h = ground arith

try_next_free :
    (last : ℕ) (s : KvId) (top : ℕ)
    → s.id < s.max
    → IsValid last s top
    → Switched last top (try_next s)
unfolding try_next
try_next_free last s top free h =
    rw (not_above s.max s.id free, try_next) (advance last s top free h)

switch_to-Switched :
    (last : ℕ) (kept : Option Seg) (s : KvId) (top : ℕ)
    → s.next ≡ none
    → s.max ≤ s.id
    → IsNext s.max top kept
    → IsValid last s top
    → Switched last top (switch_to kept s)
unfolding switch_to set_seg
switch_to-Switched last none s top no_next used kept h =
    rw (leb_of s.max s.id used, try_next) (h, no_next)
switch_to-Switched last (some seg) s top no_next used kept h =
    try_next_free last (record s { id = seg.id; max = seg.max }) top kept.1
      (omega (arith, h.0, kept.0), omega (arith, kept.1), kept.2, rw no_next tt, h.4)

try_switch_seg-Switched :
    (last : ℕ) (s : KvId) (top : ℕ) → IsValid last s top → Switched last top (try_switch_seg s)
unfolding try_switch_seg
try_switch_seg-Switched last s top h = elim (Bool-cases (ltb s.id s.max)) [
  | inl free ↦ rw (free, try_switch_seg) (try_next_free last s top (ltb→lt s.id s.max free) h)
  | inr used ↦
      rw (used, try_switch_seg)
        (switch_to-Switched last s.next (record s { next = none }) top refl
          (not_below s.id s.max used) h.3 (h.0, h.1, h.2, tt, h.4))
]

-- What the rest of a loop gives for a segment that is not used up.
module _ (rest : KvId → ℕ → Result) (last : ℕ)
    (gives : (s : KvId) (top : ℕ)
      → s.id < s.max
      → IsValid last s top
      → Gave last (rest s top)) where
  fetched-Gave :
      (reply : Option ℕ) (step now : ℕ) (s : KvId) (top : ℕ)
      → 1 ≤ step
      → s.next ≡ none
      → IsValid last s top
      → Gave last (fetched rest step now s top (fetch reply step top))
  unfolding fetched fetch
  fetched-Gave none step now s top positive no_next h = h
  fetched-Gave (some others) step now s top positive no_next h =
      gives
        (record s {
          id = top + others + step - step;
          max = top + others + step;
          step = step;
          ts = now;
        })
        (top + others + step) (omega arith)
        (omega (arith, h.0, h.1, h.2), omega arith, omega arith, rw no_next tt, positive)

  slow_next-Gave :
      (reply : Option ℕ) (now top : ℕ) (t : Option ℕ × KvId)
      → Switched last top t
      → Gave last (slow_next rest reply now top t)
  unfolding slow_next
  slow_next-Gave reply now top (some n, s) h = h
  slow_next-Gave reply now top (none, s) h =
      fetched-Gave reply (max_of (calc_step s.step s.ts now) s.step) now s top
        (max_of_above (calc_step s.step s.ts now) s.step h.0.4) h.1 h.0

  second_next-Gave :
      (reply : Option ℕ) (now top : ℕ) (t : Option ℕ × KvId)
      → Switched last top t
      → Gave last (second_next rest reply now top t)
  unfolding second_next
  second_next-Gave reply now top (some n, s) h = h
  second_next-Gave reply now top (none, s) h =
      slow_next-Gave reply now top (try_switch_seg s) (try_switch_seg-Switched last s top h.0)

  first_next-Gave :
      (reply : Option ℕ) (now top : ℕ) (t : Option ℕ × KvId)
      → Tried last top t
      → Gave last (first_next rest reply now top t)
  unfolding first_next
  first_next-Gave reply now top (some n, s) h = h
  first_next-Gave reply now top (none, s) h =
      second_next-Gave reply now top (try_switch_seg s) (try_switch_seg-Switched last s top h.0)

-- One round is enough where the segment is not used up, and two are always.
next-Gave_free :
    (reply : Option ℕ) (now last : ℕ) (s : KvId) (top : ℕ)
    → s.id < s.max
    → IsValid last s top
    → Gave last (next 1 reply now s top)
unfolding next first_next
next-Gave_free reply now last s top free h =
    rw (not_above s.max s.id free, next, try_next, first_next) (advance last s top free h)

pub next-Gave :
    (reply : Option ℕ) (now last : ℕ) (s : KvId) (top : ℕ)
    → IsValid last s top
    → Gave last (next 2 reply now s top)
unfolding next
next-Gave reply now last s top h =
    first_next-Gave (λ s' top'. next 1 reply now s' top') last
      (λ s' top' free v. next-Gave_free reply now last s' top' free v) reply now top (try_next s)
      (try_next-Tried last s top h)

filled-IsValid :
    (reply : Option ℕ) (step last : ℕ) (s : KvId) (top : ℕ)
    → 1 ≤ step
    → IsValid last s top
    → IsValid last (filled s top (fetch reply step top)).0 (filled s top (fetch reply step top)).1
unfolding filled fetch
filled-IsValid none step last s top positive h = h
filled-IsValid (some others) step last s top positive h =
    (h.0, h.1, omega (arith, h.2), (omega (arith, h.2), omega arith, omega arith), h.4)

pub fill_empty-IsValid :
    (reply : Option ℕ) (now last : ℕ) (s : KvId) (top : ℕ) (kept : Option Seg)
    → IsValid last s top
    → IsValid last (fill_empty reply now s top kept).0 (fill_empty reply now s top kept).1
unfolding fill_empty
fill_empty-IsValid reply now last s top (some seg) h = h
fill_empty-IsValid reply now last s top none h =
    filled-IsValid reply (calc_step s.step s.ts now) last s top
      (calc_step_positive s.step s.ts now h.4) h
