-- ===== src/ExpireCache/Lifetime.antt =====
-- How long an entry is served.
use npm.Common.{
  ℕ, ◌+◌, ◌*◌, true, none, some, List, [], ◌∷◌, ◌⊎◌, inl, inr, ◌≡◌, refl, sym, leb, arith,
  Bool-cases, Option-cases,
}
use npm.ExpireCache.{
  MapOps, MapLaws, Timer, idle, sleeping, clearing, Expire, set_cache, or_else, start_timer,
  ensure_timer, new, find, get, put, insert, wake, on_insert, on_wake, step, run, init_with,
  or_init, get_or_init, run_inits,
}
use npm.ExpireCache.Latest.{set_cache-same, set_cache-not}

-- When the first swap is due of a cache that was first used at `start`.
abbrev pub swap_at : ℕ → ℕ → ℕ
swap_at expire start = start + expire * 1000

leb_refl : (a : ℕ) → leb a a ≡ true
leb_refl a = ground arith

module _ {M K V : Type 0} (ops : MapOps M K V) (laws : MapLaws ops) where
  -- The first use of a cache, and a later insertion of `k`.
  abbrev filled : ℕ → ℕ → K → V → ℕ → K → V → Expire M
  filled expire start j u now k v = insert ops now k v (insert ops start j u (new ops expire))

  swapped : ℕ → ℕ → K → V → ℕ → K → V → Expire M
  swapped expire start j u now k v =
      let s = filled expire start j u now k v in wake ops (swap_at expire start) s.timer s

  swapped-find :
      (expire start : ℕ) (j : K) (u : V) (now : ℕ) (k : K) (v : V)
      → find ops k (swapped expire start j u now k v) ≡ some v
  unfolding swapped insert put ensure_timer start_timer new set_cache wake find or_else
  swapped-find expire start j u now k v =
      rw
        (
          leb_refl (swap_at expire start),
          wake,
          find,
          laws.get-default k,
          or_else,
          laws.get-insert k v (ops.insert j u ops.default) k,
          laws.same-refl k,
        )
        refl

  dropped : ℕ → ℕ → K → V → ℕ → K → V → Expire M
  dropped expire start j u now k v =
      let s = swapped expire start j u now k v in wake ops (swap_at expire start + 100) s.timer s

  dropped-find :
      (expire start : ℕ) (j : K) (u : V) (now : ℕ) (k : K) (v : V)
      → find ops k (dropped expire start j u now k v) ≡ none
  unfolding dropped swapped insert put ensure_timer start_timer new set_cache wake find or_else
  dropped-find expire start j u now k v =
      rw
        (
          leb_refl (swap_at expire start),
          wake,
          leb_refl (swap_at expire start + 100),
          wake,
          find,
          laws.get-default k,
          or_else,
          laws.get-clear (ops.insert k v (ops.insert j u ops.default)) k,
        )
        refl

  -- However long the period of a cache and whatever it is used with first, an entry that is inserted
  -- at any time before the first swap is served up to the swap, and 100 milliseconds later it is
  -- dropped.
  pub insert_dropped :
      (expire start : ℕ) (j : K) (u : V) (now : ℕ) (k : K) (v : V)
      → ((get ops (swap_at expire start) k (
            run ops
              ((start, on_insert j u) ∷ (now, on_insert k v) ∷ (swap_at expire start, on_wake) ∷ [])
              (new ops expire))).0
          ≡ some v)
        × ((get ops (swap_at expire start + 100) k (
              run ops
                ((start, on_insert j u)
                  ∷ (now, on_insert k v)
                  ∷ (swap_at expire start, on_wake)
                  ∷ (swap_at expire start + 100, on_wake)
                  ∷ [])
                (new ops expire))).0
            ≡ none)
  unfolding get run step swapped dropped
  insert_dropped expire start j u now k v =
      (swapped-find expire start j u now k v, dropped-find expire start j u now k v)

  IsServing : K → V → Expire M → Type 0
  IsServing k v s = (s.timer ≡ idle) × (find ops k s ≡ some v)

  idle_of : (k : K) (v : V) (s : Expire M) → IsServing k v s → s.timer ≡ idle
  unfolding IsServing
  idle_of k v s h = h.0

  found_of : (k : K) (v : V) (s : Expire M) → IsServing k v s → find ops k s ≡ some v
  unfolding IsServing
  found_of k v s h = h.1

  find-new : (expire : ℕ) (k : K) → find ops k (new ops expire) ≡ none
  unfolding find new or_else
  find-new expire k = rw (laws.get-default k) refl

  put_found : (expire : ℕ) (k : K) (v : V) → find ops k (put ops k v (new ops expire)) ≡ some v
  unfolding find new put set_cache or_else
  put_found expire k v = rw (laws.get-insert k v ops.default k, laws.same-refl k) refl

  idle-put : (expire : ℕ) (k : K) (v : V) → (put ops k v (new ops expire)).timer ≡ idle
  unfolding put new
  idle-put expire k v = refl

  first_serves :
      (E : Type 0) (expire : ℕ) (k : K) (v : V)
      → IsServing k v (get_or_init ops {E = E} k (λ j. inl v) (new ops expire)).1
  unfolding IsServing get_or_init or_init init_with
  first_serves E expire k v =
      rw (find-new expire k, get_or_init, or_init) (idle-put expire k v, put_found expire k v)

  wake-idle : (now : ℕ) (timer : Timer) (s : Expire M) → timer ≡ idle → wake ops now timer s ≡ s
  unfolding wake
  wake-idle now idle s h = refl
  wake-idle now (sleeping due) s h = cc
  wake-idle now (clearing old due) s h = cc

  put_serves :
      (k j : K) (v u : V) (s : Expire M)
      → find ops j s ≡ none
      → IsServing k v s
      → IsServing k v (put ops j u s)
  unfolding IsServing put find
  put_serves k j v u s absent h = elim (Bool-cases (ops.same j k)) [
    | inl is ↦ absurd (cc (rw (sym (laws.same-eq j k is), absent) at h.1))
    | inr other ↦ (
      h.0,
      rw
          (
            set_cache-same s.pos (ops.insert j u (s.cache s.pos)) s.cache,
            set_cache-not s.pos (ops.insert j u (s.cache s.pos)) s.cache,
            laws.get-insert j u (s.cache s.pos) k,
            other,
          )
          h.1,
    )
  ]

  init_with_serves :
      {E : Type 0} (k j : K) (v : V) (r : V ⊎ E) (s : Expire M)
      → find ops j s ≡ none
      → IsServing k v s
      → IsServing k v (init_with ops j r s).1
  unfolding init_with
  init_with_serves k j v (inl u) s absent h = put_serves k j v u s absent h
  init_with_serves k j v (inr e) s absent h = h

  init_serves :
      {E : Type 0} (k j : K) (v : V) (func : K → V ⊎ E) (s : Expire M)
      → IsServing k v s
      → IsServing k v (get_or_init ops j func s).1
  unfolding get_or_init or_init
  init_serves k j v func s h = elim (Option-cases (find ops j s)) [
    | inl absent ↦ rw (absent, get_or_init, or_init) (init_with_serves k j v (func j) s absent h)
    | inr (u, there) ↦ rw (there, get_or_init, or_init) h
  ]

  inits_serve :
      {E : Type 0} (calls : List (ℕ × K × (K → V ⊎ E))) (k : K) (v : V) (s : Expire M)
      → IsServing k v s
      → IsServing k v (run_inits ops calls s)
  unfolding run_inits
  inits_serve [] k v s h = h
  inits_serve ((now, j, func) ∷ calls) k v s h =
      let t : Expire M = (get_or_init ops j func s).1 in
      let served : IsServing k v t = init_serves k j v func s h in
      rw (wake-idle now t.timer t (idle_of k v t served)) (inits_serve calls k v t served)

  after_first :
      {E : Type 0} (expire now : ℕ) (k : K) (v : V) (calls : List (ℕ × K × (K → V ⊎ E)))
      → IsServing k v (run_inits ops ((now, k, λ j. inl v) ∷ calls) (new ops expire))
  unfolding run_inits
  after_first {E = E} expire now k v calls =
      let t : Expire M = (get_or_init ops {E = E} k (λ j. inl v) (new ops expire)).1 in
      let served : IsServing k v t = first_serves E expire k v in
      rw (wake-idle now t.timer t (idle_of k v t served)) (inits_serve calls k v t served)

  -- A cache that is used by get_or_init alone never drops an entry: what the first call made for its
  -- key is found after any number of further calls and turns of the timer task, at whatever times.
  pub get_or_init_keeps :
      {E : Type 0} (expire now : ℕ) (k : K) (v : V) (calls : List (ℕ × K × (K → V ⊎ E)))
      → find ops k (run_inits ops ((now, k, λ j. inl v) ∷ calls) (new ops expire)) ≡ some v
  get_or_init_keeps {E = E} expire now k v calls =
      found_of k v (run_inits ops ((now, k, λ j. inl v) ∷ calls) (new ops expire))
        (after_first {E = E} expire now k v calls)
