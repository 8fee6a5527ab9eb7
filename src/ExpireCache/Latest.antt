-- ===== src/ExpireCache/Latest.antt =====
-- What a cache returns, against the calls of `insert` that it had.
use npm.Common.{
  ℕ, ◌+◌, ◌*◌, Bool, true, false, not, Option, none, some, List, [], ◌∷◌, ◌⊎◌, inl, inr, ◌≡◌, refl,
  sym, ◌∙◌, leb, if◌then◌else◌, Bool-cases, Option-cases,
}
use npm.ExpireCache.{
  MapOps, MapLaws, Timer, idle, sleeping, clearing, Expire, set_cache, or_else, start_timer,
  ensure_timer, new, find, get, put, insert, wake, Event, on_get, on_insert, on_wake, step, run,
}

module _ {M : Type 0} where
  pub set_cache-same : (p : Bool) (m : M) (cache : Bool → M) → set_cache p m cache p ≡ m
  unfolding set_cache
  set_cache-same true m cache = refl
  set_cache-same false m cache = refl

  pub set_cache-not :
      (p : Bool) (m : M) (cache : Bool → M) → set_cache p m cache (not p) ≡ cache (not p)
  unfolding set_cache
  set_cache-not true m cache = refl
  set_cache-not false m cache = refl

  pub set_not-cache : (p : Bool) (m : M) (cache : Bool → M) → set_cache (not p) m cache p ≡ cache p
  unfolding set_cache
  set_not-cache true m cache = refl
  set_not-cache false m cache = refl

pub not-not : (p : Bool) → not (not p) ≡ p
not-not true = refl
not-not false = refl

module _ {M K V : Type 0} (ops : MapOps M K V) where
  abbrev pub updated : K → V → (K → Option V) → K → Option V
  updated k v last j = if ops.same k j then some v else last j

  -- The value that was inserted last for each key.
  unfoldable pub latest : List (ℕ × Event ops) → (K → Option V) → K → Option V
  latest [] last = last
  latest ((now, on_get k) ∷ events) last = latest events last
  latest ((now, on_insert k v) ∷ events) last = latest events (updated k v last)
  latest ((now, on_wake) ∷ events) last = latest events last

  abbrev Served : (K → Option V) → M → K → Type 0
  Served last m k = (ops.get m k ≡ none) ⊎ (ops.get m k ≡ last k)

  abbrev IsEmpty : M → Type 0
  IsEmpty m = (k : K) → ops.get m k ≡ none

  abbrev IsTimed : Timer → Bool → (Bool → M) → Type 0
  IsTimed idle pos cache = IsEmpty (cache (not pos))
  IsTimed (sleeping due) pos cache = IsEmpty (cache (not pos))
  IsTimed (clearing old due) pos cache = old ≡ not pos

  abbrev IsKept : (K → Option V) → Timer → Bool → (Bool → M) → Type 0
  IsKept last timer pos cache =
      ((k : K) → Served last (cache pos) k)
      × ((k : K) → ops.get (cache pos) k ≡ none → Served last (cache (not pos)) k)
      × IsTimed timer pos cache

  abbrev Keeps : (K → Option V) → Expire M → Type 0
  Keeps last s = IsKept last s.timer s.pos s.cache

  module _ (laws : MapLaws ops) where
    start_timer-IsTimed :
        (now expire : ℕ) (timer : Timer) (pos : Bool) (cache : Bool → M)
        → IsTimed timer pos cache
        → IsTimed (start_timer now expire timer) pos cache
    unfolding start_timer
    start_timer-IsTimed now expire idle pos cache h = h
    start_timer-IsTimed now expire (sleeping due) pos cache h = h
    start_timer-IsTimed now expire (clearing old due) pos cache h = h

    Served-insert :
        (last : K → Option V) (k : K) (v : V) (m : M) (j : K)
        → Served last m j
        → Served (updated k v last) (ops.insert k v m) j
    Served-insert last k v m j h = elim (Bool-cases (ops.same k j)) [
      | inl is ↦ inr (rw (laws.get-insert k v m j, is) refl)
      | inr other ↦ rw (laws.get-insert k v m j, other) h
    ]

    -- Where the active generation does not have a key, the insertion was for another.
    not_inserted :
        (last : K → Option V) (k : K) (v : V) (m : M) (j : K)
        → ops.get (ops.insert k v m) j ≡ none
        → (ops.same k j ≡ false) × (ops.get m j ≡ none)
    not_inserted last k v m j h = elim (Bool-cases (ops.same k j)) [
      | inl is ↦ absurd (cc (rw (laws.get-insert k v m j, is) at h))
      | inr other ↦ (other, rw (laws.get-insert k v m j, other) at h)
    ]

    IsTimed-put :
        (timer : Timer) (pos : Bool) (cache : Bool → M) (m : M)
        → IsTimed timer pos cache
        → IsTimed timer pos (set_cache pos m cache)
    IsTimed-put idle pos cache m h = rw (set_cache-not pos m cache) h
    IsTimed-put (sleeping due) pos cache m h = rw (set_cache-not pos m cache) h
    IsTimed-put (clearing old due) pos cache m h = h

    put-IsKept :
        (last : K → Option V) (k : K) (v : V) (s : Expire M)
        → Keeps last s
        → Keeps (updated k v last) (put ops k v s)
    unfolding put
    put-IsKept last k v s h =
        let m : M = ops.insert k v (s.cache s.pos) in
        (
          λ j.
              rw (set_cache-same s.pos m s.cache)
                (Served-insert last k v (s.cache s.pos) j (h.0 j)),
          λ j gone.
              let (other, absent) =
                not_inserted last k v (s.cache s.pos) j
                  (rw (set_cache-same s.pos m s.cache) at gone) in
              rw (set_cache-not s.pos m s.cache, other) (h.1 j absent),
          IsTimed-put s.timer s.pos s.cache m h.2,
        )

    ensure_timer-IsKept :
        (last : K → Option V) (now : ℕ) (s : Expire M)
        → Keeps last s
        → Keeps last (ensure_timer now s)
    unfolding ensure_timer
    ensure_timer-IsKept last now s h =
        (h.0, h.1, start_timer-IsTimed now s.expire s.timer s.pos s.cache h.2)

    swapped :
        (last : K → Option V) (now due : ℕ) (pos : Bool) (cache : Bool → M)
        → IsKept last (sleeping due) pos cache
        → IsKept last (clearing pos (now + 100)) (not pos) cache
    swapped last now due pos cache h =
        (λ j. inl (h.2 j), λ j gone. rw (not-not pos) (h.0 j), sym (not-not pos))

    cleared :
        (last : K → Option V) (next due : ℕ) (old pos : Bool) (cache : Bool → M)
        → IsKept last (clearing old due) pos cache
        → IsKept last (sleeping next) pos (set_cache old (ops.clear (cache old)) cache)
    cleared last next due old pos cache h =
        let m : M = ops.clear (cache (not pos)) in
        rw h.2 (
          λ j. rw (set_not-cache pos m cache) (h.0 j),
          λ j gone.
              inl (rw (set_cache-same (not pos) m cache) (laws.get-clear (cache (not pos)) j)),
          λ j. rw (set_cache-same (not pos) m cache) (laws.get-clear (cache (not pos)) j),
        )

    wake-IsKept :
        (last : K → Option V) (now : ℕ) (timer : Timer) (s : Expire M)
        → IsKept last timer s.pos s.cache
        → timer ≡ s.timer
        → Keeps last (wake ops now timer s)
    unfolding wake
    wake-IsKept last now idle s h same = rw (sym same) h
    wake-IsKept last now (sleeping due) s h same = elim (Bool-cases (leb due now)) [
      | inl over ↦ rw (over, wake) (swapped last now due s.pos s.cache h)
      | inr early ↦ rw (early, wake) (h.0, h.1, rw (sym same) h.2)
    ]
    wake-IsKept last now (clearing old due) s h same = elim (Bool-cases (leb due now)) [
      | inl over ↦ rw (over, wake) (cleared last (now + s.expire * 1000) due old s.pos s.cache h)
      | inr early ↦ rw (early, wake) (h.0, h.1, rw (sym same) h.2)
    ]

    step-IsKept :
        (events : List (ℕ × Event ops)) (last : K → Option V) (s : Expire M)
        → Keeps last s
        → Keeps (latest events last) (run ops events s)
    unfolding run step latest get insert
    step-IsKept [] last s h = h
    step-IsKept ((now, on_get k) ∷ events) last s h =
        step-IsKept events last (ensure_timer now s) (ensure_timer-IsKept last now s h)
    step-IsKept ((now, on_insert k v) ∷ events) last s h =
        step-IsKept events (updated k v last) (put ops k v (ensure_timer now s))
          (put-IsKept last k v (ensure_timer now s) (ensure_timer-IsKept last now s h))
    step-IsKept ((now, on_wake) ∷ events) last s h =
        step-IsKept events last (wake ops now s.timer s) (wake-IsKept last now s.timer s h refl)

    find_served :
        (last : K → Option V) (k : K) (s : Expire M)
        → Keeps last s
        → (find ops k s ≡ none) ⊎ (find ops k s ≡ last k)
    unfolding find or_else
    find_served last k s h = elim (Option-cases (ops.get (s.cache s.pos) k)) [
      | inl gone ↦ rw (gone, find, or_else) (h.1 k gone)
      | inr (v, found) ↦ elim (h.0 k) [
        | inl gone ↦ absurd (cc)
        | inr e ↦ rw (found, find, or_else) (inr (sym found ∙ e))
      ]
    ]

    -- Whatever calls of get and insert and turns of the timer a cache had, at whatever times, get
    -- returns nothing or the value that was inserted last for the key.
    pub get-latest :
        (expire now : ℕ) (events : List (ℕ × Event ops)) (k : K)
        → ((get ops now k (run ops events (new ops expire))).0 ≡ none)
          ⊎ ((get ops now k (run ops events (new ops expire))).0 ≡ latest events (λ j. none) k)
    unfolding get new
    get-latest expire now events k =
        let s : Expire M = record {
          pos = false;
          cache = λ g. ops.default;
          expire = expire;
          timer = idle;
        } in
        find_served (latest events (λ j. none)) k (run ops events s) (
          step-IsKept events (λ j. none) s
            (
              λ j. inl (laws.get-default j),
              λ j gone. inl (laws.get-default j),
              λ j. laws.get-default j,
            ))
