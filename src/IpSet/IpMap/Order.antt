-- ===== src/IpSet/IpMap/Order.antt =====
-- The list of a map stays sorted, and a search finds the last range that starts at or below the
-- address.
use npm.Common.{
  ℕ, suc, ◌-◌, ◌≤◌, ◌≡◌, refl, ap, arith, Bool, true, false, List, [], ◌∷◌, Option, none, some, leb,
  ltb, if◌then◌else◌, get_elem?, All, Bool-cases, inl, inr,
}
use npm.IpSet.Range.{Range}
use npm.IpSet.IpMap.{
  Entry, IpMap, partition_point, insert_at, insert, hits, value_of, get, contains,
}

abbrev pub is_some {ℓ} : {A : Type ℓ} → Option A → Bool
is_some none = false
is_some (some a) = true

module _ {ℓ} {V : Type ℓ} where
  abbrev pub StartsFrom : ℕ → Entry V → Type 0
  StartsFrom n x = n ≤ x.0.start

  -- Every range starts at or below those behind it.
  abbrev pub IsSorted : List (Entry V) → Type 0
  IsSorted [] = Unit
  IsSorted (x ∷ xs) = All (StartsFrom x.0.start) xs × IsSorted xs

  abbrev before : Range → Entry V → Bool
  before range x = ltb x.0.start range.start

  -- `insert`, as one pass over the list.
  abbrev pub place : Entry V → List (Entry V) → List (Entry V)
  place x [] = x ∷ []
  place x (y ∷ ys) =
      let rest = place x ys in if ltb y.0.start x.0.start then y ∷ rest else x ∷ y ∷ ys

  insert_at-partition_point :
      (x : Entry V) (ys : List (Entry V))
      → insert_at (partition_point (before x.0) ys) x ys ≡ place x ys
  unfolding insert_at partition_point
  insert_at-partition_point x [] = refl
  insert_at-partition_point x (y ∷ ys) = elim (Bool-cases (ltb y.0.start x.0.start)) [
    | inl lower ↦ rw lower (ap (λ t. y ∷ t) (insert_at-partition_point x ys))
    | inr higher ↦ rw higher
  ]

  pub li-insert : (r : Range) (v : V) (m : IpMap V) → (insert r v m).li ≡ place (r, v) m.li
  unfolding insert
  li-insert r v m = insert_at-partition_point (r, v) m.li

  pub StartsFrom-place :
      (n : ℕ) (x : Entry V) (ys : List (Entry V))
      → n ≤ x.0.start
      → All (StartsFrom n) ys
      → All (StartsFrom n) (place x ys)
  StartsFrom-place n x [] hx h = (hx, tt)
  StartsFrom-place n x (y ∷ ys) hx h = elim (Bool-cases (ltb y.0.start x.0.start)) [
    | inl lower ↦ rw lower (h.0, StartsFrom-place n x ys hx h.1)
    | inr higher ↦ rw higher (hx, h)
  ]

  pub StartsFrom-mono :
      (n m : ℕ) (ys : List (Entry V)) → n ≤ m → All (StartsFrom m) ys → All (StartsFrom n) ys
  StartsFrom-mono n m [] h all = tt
  StartsFrom-mono n m (y ∷ ys) h all = (omega arith, StartsFrom-mono n m ys h all.1)

  pub place-IsSorted : (x : Entry V) (ys : List (Entry V)) → IsSorted ys → IsSorted (place x ys)
  place-IsSorted x [] h = (tt, tt)
  place-IsSorted x (y ∷ ys) h = elim (Bool-cases (ltb y.0.start x.0.start)) [
    | inl lower ↦
        rw lower (StartsFrom-place y.0.start x ys (ground arith) h.0, place-IsSorted x ys h.1)
    | inr higher ↦
        let le : x.0.start ≤ y.0.start = ground arith in
        rw higher ((le, StartsFrom-mono x.0.start y.0.start ys le h.0), h)
  ]

  -- Adding an address or a network keeps the order that the binary search relies on.
  pub insert-IsSorted :
      (r : Range) (v : V) (m : IpMap V) → IsSorted m.li → IsSorted (insert r v m).li
  insert-IsSorted r v m h = rw (li-insert r v m) (place-IsSorted (r, v) m.li h)

  -- The last entry of the front part that starts at or below the address.
  abbrev pub last_start : ℕ → List (Entry V) → Option (Entry V)
  last_start ip [] = none
  last_start ip (x ∷ xs) =
      let rest : Option (Entry V) = elim (last_start ip xs) [ none ↦ some x | some y ↦ some y ] in
      if leb x.0.start ip then rest else none

  abbrev pub hit : ℕ → Option (Entry V) → Option V
  hit ip none = none
  hit ip (some (r, v)) = if leb ip r.end then some v else none

  -- Where a search ends: nowhere, or just behind the entry that `last_start` gives.
  data SearchView (ip : ℕ) (xs : List (Entry V)) : Type ℓ where
    nowhere :
        partition_point (λ x. leb x.0.start ip) xs ≡ 0 → last_start ip xs ≡ none → SearchView ip xs
    behind :
        (n : ℕ) (x : Entry V)
        → partition_point (λ x. leb x.0.start ip) xs ≡ suc n
        → get_elem? xs n ≡ some x
        → last_start ip xs ≡ some x
        → SearchView ip xs

  SearchView-cons :
      (ip : ℕ) (x : Entry V) (xs : List (Entry V))
      → leb x.0.start ip ≡ true
      → SearchView ip xs
      → SearchView ip (x ∷ xs)
  unfolding partition_point
  SearchView-cons ip x xs low (nowhere e l) = behind 0 x (rw (low, e)) refl (rw (low, l))
  SearchView-cons ip x xs low (behind n y e g l) = behind (suc n) y (rw (low, e)) g (rw (low, l))

  search_view : (ip : ℕ) (xs : List (Entry V)) → SearchView ip xs
  unfolding partition_point
  search_view ip [] = nowhere refl refl
  search_view ip (x ∷ xs) = elim (Bool-cases (leb x.0.start ip)) [
    | inl low ↦ SearchView-cons ip x xs low (search_view ip xs)
    | inr high ↦ nowhere (rw high) (rw high)
  ]

  pub get-last_start : (ip : ℕ) (m : IpMap V) → get ip m ≡ hit ip (last_start ip m.li)
  unfolding get
  get-last_start ip m = elim (search_view ip m.li) [
    | nowhere e l ↦ rw (e, l) (no_hit (get_elem? m.li (0 - 1)))
    | behind n x e g l ↦ let back : suc n - 1 ≡ n = omega arith in rw (e, back, g, l) (one_hit n x)
  ]
    where
      no_hit : (o : Option (Entry V)) → (if hits 0 ip o then value_of o else none) ≡ none
      no_hit none = refl
      no_hit (some x) = refl

      one_hit :
          (n : ℕ) (x : Entry V)
          → (if hits (suc n) ip (some x) then value_of (some x) else none) ≡ hit ip (some x)
      one_hit n x = ground arith

  pub contains-get : (ip : ℕ) (m : IpMap V) → contains ip m ≡ is_some (get ip m)
  unfolding contains get
  contains-get ip m =
      go (partition_point (λ x. leb x.0.start ip) m.li)
        (get_elem? m.li (partition_point (λ x. leb x.0.start ip) m.li - 1))
    where
      go :
          (n : ℕ) (o : Option (Entry V))
          → hits n ip o ≡ is_some (if hits n ip o then value_of o else none)
      go n none = refl
      go n (some x) = ground arith
