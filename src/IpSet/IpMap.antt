-- ===== src/IpSet/IpMap.antt =====
-- ip_set/src/lib.rs: `IpMap`, over addresses of `bits` bits. The list is sorted by
-- the starts of its ranges. `slice::partition_point` is documented for lists that the predicate
-- splits in two; there it is the length of the front part, as here.

pub mod Order
pub mod Lookup
use npm.Common.{
  ℕ, zero, suc, ◌-◌, Bool, true, false, ◌&&◌, List, [], ◌∷◌, Option, none, some, leb, ltb, ◌==◌,
  if◌then◌else◌, length, get_elem?,
}
use npm.IpSet.Range.{Range, from_cidr}

abbrev pub Entry {ℓ} : Type ℓ → Type ℓ
Entry V = Range × V

pub record IpMap {ℓ} (V : Type ℓ) : Type ℓ where
  pub li : List (Entry V)

module _ {ℓ} {V : Type ℓ} where
  unfoldable pub new : IpMap V
  new = record { li = [] }

  unfoldable pub partition_point : (Entry V → Bool) → List (Entry V) → ℕ
  partition_point p [] = 0
  partition_point p (x ∷ xs) = let n = partition_point p xs in if p x then suc n else 0

  -- `Vec::insert`, for an index within the list or at its end.
  unfoldable pub insert_at : ℕ → Entry V → List (Entry V) → List (Entry V)
  insert_at zero x xs = x ∷ xs
  insert_at (suc i) x [] = x ∷ []
  insert_at (suc i) x (y ∷ ys) = y ∷ insert_at i x ys

  unfoldable pub insert : Range → V → IpMap V → IpMap V
  insert range val m =
      let idx = partition_point (λ x. ltb x.0.start range.start) m.li in
      record { li = insert_at idx (range, val) m.li }

  unfoldable pub add : ℕ → V → IpMap V → IpMap V
  add ip val m = insert (record { start = ip; end = ip }) val m

  unfoldable pub add_cidr : ℕ → ℕ → ℕ → V → IpMap V → IpMap V
  add_cidr bits addr prefix val m = insert (from_cidr bits addr prefix) val m

  unfoldable pub is_empty : IpMap V → Bool
  is_empty m = length m.li == 0

  unfoldable pub len : IpMap V → ℕ
  len m = length m.li

  unfoldable pub first : IpMap V → Option (Entry V)
  first m = get_elem? m.li 0

  -- `idx > 0 && ip <= self.li[idx - 1].0.end`; the entry is at hand when `idx` is positive.
  hits : ℕ → ℕ → Option (Entry V) → Bool
  hits idx ip none = false
  hits idx ip (some (r, v)) = ltb 0 idx && leb ip r.end

  unfoldable pub contains : ℕ → IpMap V → Bool
  unfolding hits
  contains ip m =
      let idx = partition_point (λ x. leb x.0.start ip) m.li in
      hits idx ip (get_elem? m.li (idx - 1))

  value_of : Option (Entry V) → Option V
  value_of none = none
  value_of (some (r, v)) = some v

  unfoldable pub get : ℕ → IpMap V → Option V
  unfolding hits value_of
  get ip m =
      let idx = partition_point (λ x. leb x.0.start ip) m.li in
      if hits idx ip (get_elem? m.li (idx - 1)) then value_of (get_elem? m.li (idx - 1)) else none
