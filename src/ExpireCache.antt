-- ===== src/ExpireCache.antt =====
-- expire_cache/src/lib.rs, get_or_init.rs, get_or_init_async.rs, and expire_set/src/lib.rs: a cache
-- of two generations with a timer task that swaps them. Times are milliseconds. An operation is one
-- step: that a thread loses the processor within one is not modelled.
pub mod Latest
pub mod Lifetime
pub mod Sets
mod Tests
use npm.Common.{
  ℕ, ◌+◌, ◌*◌, Bool, true, false, not, Option, none, some, List, [], ◌∷◌, ◌⊎◌, inl, inr, ◌≡◌, leb,
  if◌then◌else◌,
}

-- The trait `Map`, for keys that `same` compares.
pub record MapOps (M K V : Type 0) : Type 0 where
  pub default : M
  pub clear : M → M
  pub insert : K → V → M → M
  pub get : M → K → Option V
  pub same : K → K → Bool

pub record MapLaws {M K V : Type 0} (ops : MapOps M K V) : Type 0 where
  pub get-default : (k : K) → ops.get ops.default k ≡ none
  pub get-clear : (m : M) (k : K) → ops.get (ops.clear m) k ≡ none
  pub get-insert :
      (k : K) (v : V) (m : M) (j : K)
      → ops.get (ops.insert k v m) j ≡ (if ops.same k j then some v else ops.get m j)
  pub same-refl : (k : K) → ops.same k k ≡ true
  pub same-eq : (k j : K) → ops.same k j ≡ true → k ≡ j

-- Where the timer task stands, with the time at which its sleep ends: it waits for the next swap, or
-- to clear the generation that was left.
pub data Timer : Type 0 where
  idle : Timer
  sleeping : ℕ → Timer
  clearing : Bool → ℕ → Timer

-- The generations are told apart by a Boolean, and `pos` is the active one.
pub record Expire (M : Type 0) : Type 0 where
  pub pos : Bool
  pub cache : Bool → M
  pub expire : ℕ
  pub timer : Timer

unfoldable pub set_cache : {M : Type 0} → Bool → M → (Bool → M) → Bool → M
set_cache true m cache true = m
set_cache true m cache false = cache false
set_cache false m cache true = cache true
set_cache false m cache false = m

unfoldable pub or_else : {V : Type 0} → Option V → Option V → Option V
or_else none b = b
or_else (some v) b = some v

-- The timer starts with the first use.
unfoldable pub start_timer : ℕ → ℕ → Timer → Timer
start_timer now expire idle = sleeping (now + expire * 1000)
start_timer now expire (sleeping due) = sleeping due
start_timer now expire (clearing old due) = clearing old due

module _ {M : Type 0} where
  unfoldable pub ensure_timer : ℕ → Expire M → Expire M
  unfolding start_timer
  ensure_timer now s = record s { timer = start_timer now s.expire s.timer }

module _ {M K V : Type 0} (ops : MapOps M K V) where
  unfoldable pub new : ℕ → Expire M
  new expire = record { pos = false; cache = λ g. ops.default; expire = expire; timer = idle }

  unfoldable pub find : K → Expire M → Option V
  unfolding or_else
  find k s = or_else (ops.get (s.cache s.pos) k) (ops.get (s.cache (not s.pos)) k)

  unfoldable pub get : ℕ → K → Expire M → Option V × Expire M
  unfolding find ensure_timer
  get now k s = (find k s, ensure_timer now s)

  unfoldable pub put : K → V → Expire M → Expire M
  unfolding set_cache
  put k v s = record s { cache = set_cache s.pos (ops.insert k v (s.cache s.pos)) s.cache }

  unfoldable pub insert : ℕ → K → V → Expire M → Expire M
  unfolding put ensure_timer
  insert now k v s = put k v (ensure_timer now s)

  -- The body of the timer task, up to its next sleep, when the sleep that it waits for is over.
  unfoldable pub wake : ℕ → Timer → Expire M → Expire M
  unfolding set_cache
  wake now idle s = s
  wake now (sleeping due) s =
      if leb due now then record s { pos = not s.pos; timer = clearing s.pos (now + 100) } else s
  wake now (clearing old due) s =
      if leb due now
      then record s {
        cache = set_cache old (ops.clear (s.cache old)) s.cache;
        timer = sleeping (now + s.expire * 1000);
      }
      else s

  -- `get_or_init`, on a result of `func`; it starts no timer.
  unfoldable pub init_with : {E : Type 0} → K → V ⊎ E → Expire M → (V ⊎ E) × Expire M
  unfolding put
  init_with k (inl v) s = (inl v, put k v s)
  init_with k (inr e) s = (inr e, s)

  unfoldable pub or_init : {E : Type 0} → Option V → K → (K → V ⊎ E) → Expire M → (V ⊎ E) × Expire M
  unfolding init_with
  or_init (some v) k func s = (inl v, s)
  or_init none k func s = init_with k (func k) s

  unfoldable pub get_or_init : {E : Type 0} → K → (K → V ⊎ E) → Expire M → (V ⊎ E) × Expire M
  unfolding or_init find
  get_or_init k func s = or_init (find k s) k func s

  -- What happens to a cache: a call, or a turn of the timer task.
  pub data Event : Type 0 where
    on_get : K → Event
    on_insert : K → V → Event
    on_wake : Event

  unfoldable pub step : ℕ → Event → Expire M → Expire M
  unfolding get insert wake
  step now (on_get k) s = (get now k s).1
  step now (on_insert k v) s = insert now k v s
  step now on_wake s = wake now s.timer s

  unfoldable pub run : List (ℕ × Event) → Expire M → Expire M
  unfolding step
  run [] s = s
  run ((now, e) ∷ events) s = run events (step now e s)

  -- Calls of `get_or_init`, with a turn of the timer task after each.
  unfoldable pub run_inits : {E : Type 0} → List (ℕ × K × (K → V ⊎ E)) → Expire M → Expire M
  unfolding get_or_init wake
  run_inits [] s = s
  run_inits ((now, j, func) ∷ calls) s =
      let t = (get_or_init j func s).1 in run_inits calls (wake now t.timer t)

-- `ExpireSet`: a cache whose values say nothing.
module _ {M K : Type 0} (ops : MapOps M K (Unit {0})) where
  unfoldable pub set_insert : ℕ → K → Expire M → Expire M
  unfolding insert
  set_insert now k s = insert ops now k tt s

  unfoldable pub is_some : Option (Unit {0}) → Bool
  is_some none = false
  is_some (some u) = true

  unfoldable pub set_contains : ℕ → K → Expire M → Bool × Expire M
  unfolding get is_some
  set_contains now k s = (is_some (get ops now k s).0, (get ops now k s).1)
