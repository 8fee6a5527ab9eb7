-- ===== src/IpSet/IpMap/Lookup.antt =====
-- What `get` and `contains` answer, after an insertion and for any sorted map.
use npm.Common.{
  ℕ, suc, ◌≤◌, ◌<◌, ◌≡◌, ◌↔◌, ◌⊎◌, refl, sym, ◌∙◌, arith, Bool, true, false, ◌&&◌, ◌||◌, List, [],
  ◌∷◌, Option, none, some, leb, ltb, if◌then◌else◌, All, Bool-cases, inl, inr, not, Option-cases,
}
use npm.IpSet.Range.{Range}
use npm.IpSet.IpMap.{Entry, IpMap, new, insert, get}
use npm.IpSet.IpMap.Order.{
  StartsFrom, StartsFrom-place, StartsFrom-mono, IsSorted, place, li-insert, last_start, hit,
  get-last_start,
}

module _ {V : Type 0} where
  -- Some range starts between `low` and the address, both included.
  abbrev pub starts_between : ℕ → ℕ → List (Entry V) → Bool
  starts_between low ip [] = false
  starts_between low ip (y ∷ ys) =
      (leb low y.0.start && leb y.0.start ip) || starts_between low ip ys

  starts_between-beyond :
      (low n ip : ℕ) (ys : List (Entry V))
      → All (StartsFrom n) ys
      → ip < n
      → starts_between low ip ys ≡ false
  starts_between-beyond low n ip [] h lt = refl
  starts_between-beyond low n ip (y ∷ ys) h lt =
      ground (arith, h.0, starts_between-beyond low n ip ys h.1 lt)

  last_start-place :
      (ip : ℕ) (x : Entry V) (ys : List (Entry V))
      → IsSorted ys
      → last_start ip (place x ys) ≡ (
          if leb x.0.start ip && not (starts_between x.0.start ip ys)
          then some x
          else last_start ip ys)
  last_start-place ip x [] h = ground arith
  last_start-place ip x (y ∷ ys) h =
      ground
        (arith, last_start-place ip x ys h.1, starts_between-beyond x.0.start y.0.start ip ys h.0)

  hit_if :
      (ip : ℕ) (b : Bool) (r : Range) (v : V) (o : Option (Entry V))
      → hit ip (if b then some (r, v) else o)
        ≡ (if b then (if leb ip r.end then some v else none) else hit ip o)
  hit_if ip true r v o = refl
  hit_if ip false r v o = refl

  -- After an insertion into a sorted map, the new range answers for the addresses from its start
  -- up to the next start of another range; for every other address the answer is the old one.
  pub get-insert :
      (ip : ℕ) (r : Range) (v : V) (m : IpMap V)
      → IsSorted m.li
      → get ip (insert r v m) ≡ (
          if leb r.start ip && not (starts_between r.start ip m.li)
          then (if leb ip r.end then some v else none)
          else get ip m)
  get-insert ip r v m h =
      get-last_start ip (insert r v m)
      ∙ rw (li-insert r v m, last_start-place ip (r, v) m.li h, get-last_start ip m)
          (hit_if ip (leb r.start ip && not (starts_between r.start ip m.li)) r v
            (last_start ip m.li))

  -- The entry's range holds the address, and its value is `v`.
  abbrev pub Answers : ℕ → V → Entry V → Type 0
  Answers ip v x = (x.0.start ≤ ip) × (ip ≤ x.0.end) × (x.1 ≡ v)

  abbrev pub Any : (Entry V → Type 0) → List (Entry V) → Type 0
  Any P [] = ⊥
  Any P (x ∷ xs) = P x ⊎ Any P xs

  hit-last_start-Any :
      (ip : ℕ) (v : V) (xs : List (Entry V))
      → hit ip (last_start ip xs) ≡ some v
      → Any (Answers ip v) xs
  hit-last_start-Any ip v [] e = cc
  hit-last_start-Any ip v (x ∷ xs) e = elim (Option-cases (last_start ip xs)) [
    | inl last ↦ inl (ground arith)
    | inr (y, later) ↦ inr (hit-last_start-Any ip v xs (ground arith))
  ]

  -- No two ranges share an address, and none is empty.
  abbrev pub IsDisjoint : List (Entry V) → Type 0
  IsDisjoint [] = Unit
  IsDisjoint (x ∷ xs) = (x.0.start ≤ x.0.end) × All (StartsFrom (suc x.0.end)) xs × IsDisjoint xs

  abbrev pub IsApart : Range → Entry V → Type 0
  IsApart r y = (y.0.end < r.start) ⊎ (r.end < y.0.start)

  place-IsDisjoint :
      (x : Entry V) (ys : List (Entry V))
      → x.0.start ≤ x.0.end
      → All (IsApart x.0) ys
      → IsDisjoint ys
      → IsDisjoint (place x ys)
  place-IsDisjoint x [] le apart d = (le, tt, tt)
  place-IsDisjoint x (y ∷ ys) le apart d = elim (Bool-cases (ltb y.0.start x.0.start)) [
    | inl lower ↦
        let first : suc y.0.end ≤ x.0.start = ground (arith, apart.0) in
        rw lower
          (d.0, StartsFrom-place (suc y.0.end) x ys first d.1, place-IsDisjoint x ys le apart.1 d.2)
    | inr higher ↦
        let next : suc x.0.end ≤ y.0.start = ground (arith, apart.0) in
        rw higher (le, (next, StartsFrom-mono (suc x.0.end) (suc y.0.end) ys (omega arith) d.1), d)
  ]

  -- Adding a range that meets none of those in the map keeps them disjoint.
  pub insert-IsDisjoint :
      (r : Range) (v : V) (m : IpMap V)
      → r.start ≤ r.end
      → All (IsApart r) m.li
      → IsDisjoint m.li
      → IsDisjoint (insert r v m).li
  insert-IsDisjoint r v m le apart d =
      rw (li-insert r v m) (place-IsDisjoint (r, v) m.li le apart d)

  last_start-beyond :
      (ip n : ℕ) (xs : List (Entry V)) → All (StartsFrom n) xs → ip < n → last_start ip xs ≡ none
  last_start-beyond ip n [] h lt = refl
  last_start-beyond ip n (x ∷ xs) h lt = ground (arith, h.0)

  Any-start :
      (ip n : ℕ) (v : V) (xs : List (Entry V))
      → All (StartsFrom n) xs
      → Any (Answers ip v) xs
      → n ≤ ip
  Any-start ip n v [] h a = absurd a
  Any-start ip n v (x ∷ xs) h (inl here) = omega (arith, h.0)
  Any-start ip n v (x ∷ xs) h (inr there) = Any-start ip n v xs h.1 there

  Any-hit-last_start :
      (ip : ℕ) (v : V) (xs : List (Entry V))
      → IsDisjoint xs
      → Any (Answers ip v) xs
      → hit ip (last_start ip xs) ≡ some v
  Any-hit-last_start ip v [] d a = absurd a
  Any-hit-last_start ip v (x ∷ xs) d (inl here) =
      ground (arith, last_start-beyond ip (suc x.0.end) xs d.1)
  Any-hit-last_start ip v (x ∷ xs) d (inr there) =
      let below : suc x.0.end ≤ ip = Any-start ip (suc x.0.end) v xs d.1 there in
      ground (arith, Any-hit-last_start ip v xs d.2 there)

  -- On ranges that do not overlap, `get` finds the value of the range that holds the address, and
  -- nothing else.
  pub get_iff :
      (ip : ℕ) (v : V) (m : IpMap V)
      → IsDisjoint m.li
      → (get ip m ≡ some v) ↔ Any (Answers ip v) m.li
  get_iff ip v m d = (
    λ e. hit-last_start-Any ip v m.li (sym (get-last_start ip m) ∙ e),
    λ a. get-last_start ip m ∙ Any-hit-last_start ip v m.li d a,
  )

  -- Whatever the ranges, a value that `get` returns stands at a range that holds the address.
  pub get-Any : (ip : ℕ) (v : V) (m : IpMap V) → get ip m ≡ some v → Any (Answers ip v) m.li
  get-Any ip v m e = hit-last_start-Any ip v m.li (sym (get-last_start ip m) ∙ e)

  -- A range that starts above another one, and ends below an address of it, hides the address,
  -- whichever of the two was added first.
  pub nested_hides :
      (ip : ℕ) (outer inner : Range) (v w : V)
      → outer.start < inner.start
      → inner.start ≤ inner.end
      → inner.end < ip
      → ip ≤ outer.end
      → (get ip (insert inner w (insert outer v new)) ≡ none)
        × (get ip (insert outer v (insert inner w new)) ≡ none)
  nested_hides ip outer inner v w h₁ h₂ h₃ h₄ = (
    get-last_start ip (insert inner w (insert outer v new))
        ∙ rw (li-insert inner w (insert outer v new), li-insert outer v new)
            (unfold new in ground arith),
    get-last_start ip (insert outer v (insert inner w new))
        ∙ rw (li-insert outer v (insert inner w new), li-insert inner w new)
            (unfold new in ground arith),
  )
