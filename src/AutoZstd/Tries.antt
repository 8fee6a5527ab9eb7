-- ===== src/AutoZstd/Tries.antt =====
-- How often decode tries.
use npm.Common.{
  ℕ, zero, suc, ◌*◌, ◌^◌, ◌≤◌, ◌<◌, Option, none, List, [], ◌∷◌, ◌⊎◌, inl, inr, ltb, leb, ◌==◌,
  length, ◌≡◌, ◌≢◌, refl, arith, Bool-cases, ltb→ge, lt→ltb,
}
use native.Mathlib.Nat.{pow-suc}
use npm.AutoZstd.{
  Error, Zstd, saturating, max_capacity, first_capacity, after_try, decompress_loop, decode_zstd,
  decode,
}

-- From 4096 to the largest buffer.
abbrev pub all_tries : ℕ
all_tries = 19

pub saturating_small : (n : ℕ) → n < 2 ^ 64 → saturating n ≡ n
unfolding saturating
saturating_small n h = rw (lt→ltb n (2 ^ 64) h) refl

pub doubled : (capacity tries : ℕ) → capacity * 2 * 2 ^ tries ≡ capacity * 2 ^ suc tries
doubled capacity tries = grind (arith, pow-suc 2 tries)

pub first_capacity_bound : (n : ℕ) → 4096 ≤ first_capacity n
unfolding first_capacity
first_capacity_bound n = elim (Bool-cases (ltb (saturating (n * 4)) 4096)) [
  | inl small ↦ rw small (omega arith)
  | inr large ↦ rw large (ltb→ge (saturating (n * 4)) 4096 large)
]

module _ {Level E : Type 0} (crate : Zstd Level E) where
  after_try_ends :
      (capacity : ℕ) (r : List ℕ ⊎ E) (again : Option (List ℕ ⊎ Error E))
      → (capacity < max_capacity → again ≢ none)
      → after_try crate capacity r again ≢ none
  unfolding after_try
  after_try_ends capacity (inl bytes) again h none_is = cc
  after_try_ends capacity (inr e) again h none_is = elim (Bool-cases (crate.says_too_small e)) [
    | inl small ↦ elim (Bool-cases (leb max_capacity capacity)) [
      | inl large ↦ cc (rw (after_try, small, large) at none_is)
      | inr more ↦ h (ground arith) (rw (after_try, small, more) at none_is)
    ]
    | inr other ↦ cc (rw (after_try, other) at none_is)
  ]

  pub loop_ends :
      (tries capacity : ℕ) (payload : List ℕ)
      → max_capacity ≤ capacity * 2 ^ tries
      → decompress_loop crate (suc tries) capacity payload ≢ none
  unfolding decompress_loop
  loop_ends zero capacity payload h =
      after_try_ends capacity (crate.decompress capacity payload) none
        (λ more e. omega (arith, h, more))
  loop_ends (suc tries) capacity payload h =
      after_try_ends capacity (crate.decompress capacity payload)
        (decompress_loop crate (suc tries) (saturating (capacity * 2)) payload)
        (λ more.
          rw (saturating_small (capacity * 2) (omega (arith, more)))
            (loop_ends tries (capacity * 2) payload (rw (doubled capacity tries) h)))

  decode_zstd_ends :
      (payload : List ℕ) (u : Unit {0} ⊎ E) → decode_zstd crate all_tries payload u ≢ none
  unfolding decode_zstd
  decode_zstd_ends payload (inr e) none_is = cc
  decode_zstd_ends payload (inl u) none_is =
      loop_ends 18 (first_capacity (length payload)) payload
        (omega (arith, first_capacity_bound (length payload))) none_is

  -- Whatever the crate does, decode is at its end after 19 tries.
  pub decode_ends : (bytes : List ℕ) → decode crate all_tries bytes ≢ none
  unfolding decode
  decode_ends [] none_is = cc
  decode_ends (kind ∷ payload) none_is = elim (Bool-cases (kind == 0)) [
    | inl is_raw ↦ cc (rw (decode, is_raw) at none_is)
    | inr other ↦ elim (Bool-cases (kind == 1)) [
      | inl is_zstd ↦
          decode_zstd_ends payload crate.decompressor (rw (decode, other, is_zstd) at none_is)
      | inr unknown ↦ cc (rw (decode, other, unknown) at none_is)
    ]
  ]
