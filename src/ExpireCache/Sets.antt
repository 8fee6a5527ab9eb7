-- ===== src/ExpireCache/Sets.antt =====
-- expire_set/src/lib.rs: what a set contains after a key was inserted, or was looked for.
use npm.Common.{ℕ, true, ◌≡◌, refl}
use npm.ExpireCache.{
  MapOps, MapLaws, Expire, or_else, ensure_timer, find, get, put, insert, set_insert, is_some,
  set_contains,
}
use npm.ExpireCache.Latest.{set_cache-same}

module _ {M K : Type 0} (ops : MapOps M K (Unit {0})) where
  pub set_contains-insert :
      MapLaws ops
      → (now later : ℕ) (k : K) (s : Expire M)
      → (set_contains ops later k (set_insert ops now k s)).0 ≡ true
  unfolding set_contains set_insert insert put get find ensure_timer is_some or_else
  set_contains-insert laws now later k s =
      rw
        (
          set_cache-same s.pos (ops.insert k tt (s.cache s.pos)) s.cache,
          laws.get-insert k tt (s.cache s.pos) k,
          laws.same-refl k,
        )
        refl

  -- To look for a key changes no answer.
  pub set_contains-get :
      (now later : ℕ) (k : K) (s : Expire M)
      → (set_contains ops later k (set_contains ops now k s).1).0 ≡ (set_contains ops now k s).0
  unfolding set_contains get ensure_timer find
  set_contains-get now later k s = refl
