-- ===== src/AutoZstd/RoundTrip.antt =====
-- decode after encode.
use npm.Common.{
  ℕ, zero, suc, ◌+◌, ◌*◌, ◌^◌, ◌≤◌, ◌<◌, true, Option, none, some, List, [], ◌∷◌, ◌⊎◌, inl, inr,
  ltb, length, ◌≡◌, refl, arith, Bool-cases, ltb→ge, ltb→lt, gt→leb,
}
use npm.AutoZstd.{
  Error, Zstd, saturating, max_capacity, first_capacity, after_try, byte_of, level_or_default,
  smaller_of, with_level, encode_some, encode, decompress_loop, decode_zstd, decode,
}
use npm.AutoZstd.Tries.{all_tries, saturating_small, doubled, first_capacity_bound}

-- What was compressed is got back in a buffer that holds it, and one that does not is too small.
pub record Inverts {Level E : Type 0} (crate : Zstd Level E) : Type 0 where
  pub fits :
      (level : Level) (bytes payload : List ℕ) (capacity : ℕ)
      → crate.compress level bytes ≡ inl payload
      → length bytes ≤ capacity
      → crate.decompress capacity payload ≡ inl bytes
  pub too_small :
      (level : Level) (bytes payload : List ℕ) (capacity : ℕ)
      → crate.compress level bytes ≡ inl payload
      → capacity < length bytes
      → (e : E) × (crate.decompress capacity payload ≡ inr e) × (crate.says_too_small e ≡ true)

module _ {Level E : Type 0} (crate : Zstd Level E) where
  data IsEncoding (bytes out : List ℕ) : Type 0 where
    kept : out ≡ 0 ∷ bytes → IsEncoding bytes out
    made :
        (level : Level) (payload : List ℕ)
        → crate.compress level bytes ≡ inl payload
        → length payload < length bytes
        → out ≡ 1 ∷ payload
        → IsEncoding bytes out

  smaller-IsEncoding :
      (bytes : List ℕ) (level : Level) (r : List ℕ ⊎ E) (out : List ℕ)
      → crate.compress level bytes ≡ r
      → smaller_of crate bytes r ≡ inl out
      → IsEncoding bytes out
  unfolding smaller_of byte_of
  smaller-IsEncoding bytes level (inr e) out is h = absurd (cc)
  smaller-IsEncoding bytes level (inl payload) out is h =
      elim (Bool-cases (ltb (length payload) (length bytes))) [
        | inl below ↦
            made level payload is (ltb→lt (length payload) (length bytes) below)
              (cc (rw (smaller_of, below) at h))
        | inr above ↦ kept (cc (rw (smaller_of, above) at h))
      ]

  level-IsEncoding :
      (bytes : List ℕ) (level : Level) (r : Unit {0} ⊎ E) (out : List ℕ)
      → with_level crate bytes level r ≡ inl out
      → IsEncoding bytes out
  unfolding with_level
  level-IsEncoding bytes level (inr e) out h = absurd (cc)
  level-IsEncoding bytes level (inl u) out h =
      smaller-IsEncoding bytes level (crate.compress level bytes) out refl h

  some-IsEncoding :
      (bytes : List ℕ) (level : Level) (r : Unit {0} ⊎ E) (out : List ℕ)
      → encode_some crate bytes level r ≡ inl out
      → IsEncoding bytes out
  unfolding encode_some
  some-IsEncoding bytes level (inr e) out h = absurd (cc)
  some-IsEncoding bytes level (inl tt) out h =
      level-IsEncoding bytes level (crate.set_level level) out h

  encode-IsEncoding :
      (bytes : List ℕ) (level : Option Level) (out : List ℕ)
      → encode crate bytes level ≡ inl out
      → IsEncoding bytes out
  unfolding encode byte_of
  encode-IsEncoding [] level out h = kept (cc)
  encode-IsEncoding (b ∷ bytes) level out h =
      some-IsEncoding (b ∷ bytes) (level_or_default crate level) crate.compressor out h

  length_of : (bytes out : List ℕ) → IsEncoding bytes out → length out ≤ 1 + length bytes
  length_of bytes out (kept is) = rw is (omega arith)
  length_of bytes out (made level payload from smaller is) = rw is (omega (arith, smaller))

  -- An encoding is at most one byte longer than the data, whatever the crate does.
  pub encode-length :
      (bytes : List ℕ) (level : Option Level) (out : List ℕ)
      → encode crate bytes level ≡ inl out
      → length out ≤ 1 + length bytes
  encode-length bytes level out h = length_of bytes out (encode-IsEncoding bytes level out h)

  module _ (inverts : Inverts crate) where
    try_finds :
        (capacity : ℕ) (level : Level) (bytes payload : List ℕ) (again : Option (List ℕ ⊎ Error E))
        → crate.compress level bytes ≡ inl payload
        → length bytes ≤ max_capacity
        → (capacity < max_capacity → again ≡ some (inl bytes))
        → after_try crate capacity (crate.decompress capacity payload) again ≡ some (inl bytes)
    unfolding after_try
    try_finds capacity level bytes payload again from small next =
        elim (Bool-cases (ltb capacity (length bytes))) [
          | inr enough ↦
              rw
                (
                  inverts.fits level bytes payload capacity from
                      (ltb→ge capacity (length bytes) enough),
                  after_try,
                )
                refl
          | inl is ↦
              let short : capacity < length bytes = ltb→lt capacity (length bytes) is in
              let (e, said, small_it_is) =
                inverts.too_small level bytes payload capacity from short in
              let more : capacity < max_capacity = omega (arith, short, small) in
              rw (said, after_try, small_it_is, gt→leb max_capacity capacity more) (next more)
        ]

    loop_finds :
        (tries capacity : ℕ) (level : Level) (bytes payload : List ℕ)
        → crate.compress level bytes ≡ inl payload
        → length bytes ≤ max_capacity
        → max_capacity ≤ capacity * 2 ^ tries
        → decompress_loop crate (suc tries) capacity payload ≡ some (inl bytes)
    unfolding decompress_loop
    loop_finds zero capacity level bytes payload from small h =
        try_finds capacity level bytes payload none from small
          (λ more. absurd (omega (arith, h, more)))
    loop_finds (suc tries) capacity level bytes payload from small h =
        try_finds capacity level bytes payload
          (decompress_loop crate (suc tries) (saturating (capacity * 2)) payload) from small
          (λ more. rw (saturating_small (capacity * 2) (omega (arith, more))) (
            loop_finds tries (capacity * 2) level bytes payload from small
              (rw (doubled capacity tries) h)))

    decode_of :
        (bytes out : List ℕ)
        → length bytes ≤ max_capacity
        → crate.decompressor ≡ inl tt
        → IsEncoding bytes out
        → decode crate all_tries out ≡ some (inl bytes)
    unfolding decode decode_zstd
    decode_of bytes out small ready (kept is) = rw is refl
    decode_of bytes out small ready (made level payload from smaller is) =
        rw (is, decode, ready, decode_zstd)
          (loop_finds 18 (first_capacity (length payload)) level bytes payload from small
            (omega (arith, first_capacity_bound (length payload))))

    -- Decoding an encoding of up to 1024^3 bytes gives them back within 19 tries, if the crate gives
    -- back what it compressed when the buffer is large enough, and says so when it is not, and its
    -- decompressor can be set up.
    pub decode-encode_small :
        (bytes : List ℕ) (level : Option Level) (out : List ℕ)
        → length bytes ≤ max_capacity
        → crate.decompressor ≡ inl tt
        → encode crate bytes level ≡ inl out
        → decode crate all_tries out ≡ some (inl bytes)
    decode-encode_small bytes level out small ready h =
        decode_of bytes out small ready (encode-IsEncoding bytes level out h)
