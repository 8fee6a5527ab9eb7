-- ===== src/ExpireCache/Tests.antt =====
-- A cache over association lists, and the theorems at concrete inputs.
use npm.Common.{
  ℕ, ◌==◌, ==_iff, true, Option, none, some, List, [], ◌∷◌, ◌⊎◌, inl, inr, ◌≡◌, refl, if◌then◌else◌,
}
use npm.ExpireCache.{MapOps, MapLaws, Event, on_insert, on_wake, new, get, run}
use npm.ExpireCache.Latest.{latest, get-latest}

lookup : List (ℕ × ℕ) → ℕ → Option ℕ
lookup [] k = none
lookup ((j, v) ∷ entries) k = let rest = lookup entries k in if j == k then some v else rest

abbrev lists : MapOps (List (ℕ × ℕ)) ℕ ℕ
lists = record {
  default = [];
  clear = λ m. [];
  insert = λ k v m. (k, v) ∷ m;
  get = lookup;
  same = λ j k. j == k;
}

lookup-nil : (k : ℕ) → lookup [] k ≡ none
unfolding lookup
lookup-nil k = refl

lookup-cons :
    (k v : ℕ) (m : List (ℕ × ℕ)) (j : ℕ)
    → lookup ((k, v) ∷ m) j ≡ (if k == j then some v else lookup m j)
unfolding lookup
lookup-cons k v m j = refl

same_key : (k : ℕ) → (k == k) ≡ true
same_key k = (==_iff k k).1 refl

equal_keys : (k j : ℕ) → (k == j) ≡ true → k ≡ j
equal_keys k j h = (==_iff k j).0 h

lists_MapLaws : MapLaws lists
lists_MapLaws = record {
  get-default = lookup-nil;
  get-clear = λ m. lookup-nil;
  get-insert = lookup-cons;
  same-refl = same_key;
  same-eq = equal_keys;
}

-- With a period of two seconds, the second value of 5 is found after the swap.
abbrev events : List (ℕ × Event lists)
events = (0, on_insert 5 1) ∷ (2000, on_wake) ∷ (2050, on_insert 5 2) ∷ (2100, on_wake) ∷ []

events-run : (get lists 2200 5 (run lists events (new lists 2))).0 ≡ some 2
unfolding run get new lookup
events-run = refl

get-latest_example :
    ((get lists 2200 5 (run lists events (new lists 2))).0 ≡ none)
    ⊎ ((get lists 2200 5 (run lists events (new lists 2))).0 ≡ latest lists events (λ j. none) 5)
get-latest_example = get-latest lists lists_MapLaws 2 2200 events 5

abbrev calls : List (ℕ × ℕ × (ℕ → ℕ ⊎ ℕ))
calls = (5000, 7, λ k. inr k) ∷ (9000, 3, λ k. inl 4) ∷ []
