-- ===== src/AutoZstd.antt =====
-- autozstd/src: data with a byte in front that says whether the rest is compressed. The crate zstd is
-- a record. That a thread keeps its compressor between calls is not modelled: a call gets whether it
-- could be set up.
pub mod Tries
pub mod RoundTrip
mod Tests
use npm.Common.{
  ℕ, zero, suc, ◌+◌, ◌-◌, ◌*◌, ◌^◌, Bool, true, false, Option, none, some, List, [], ◌∷◌, ◌⊎◌, inl,
  inr, ltb, leb, ◌==◌, if◌then◌else◌, length,
}

pub data Error (E : Type 0) : Type 0 where
  empty : Error E
  invalid_type : ℕ → Error E
  zstd : E → Error E

pub data Kind : Type 0 where
  raw : Kind
  compressed : Kind

unfoldable pub byte_of : Kind → ℕ
byte_of raw = 0
byte_of compressed = 1

unfoldable pub try_from : {E : Type 0} → ℕ → Kind ⊎ Error E
try_from value =
    if value == 0 then inl raw else if value == 1 then inl compressed else inr (invalid_type value)

-- The calls of the crate: to set up the compressor, the decompressor and the level, and to fill a buffer.
pub record Zstd (Level E : Type 0) : Type 0 where
  pub default_level : Level
  pub compressor : Unit {0} ⊎ E
  pub decompressor : Unit {0} ⊎ E
  pub set_level : Level → Unit {0} ⊎ E
  pub compress : Level → List ℕ → List ℕ ⊎ E
  pub decompress : ℕ → List ℕ → List ℕ ⊎ E
  pub says_too_small : E → Bool

unfoldable pub saturating : ℕ → ℕ
saturating n = if ltb n (2 ^ 64) then n else 2 ^ 64 - 1

abbrev pub max_capacity : ℕ
max_capacity = 1024 * 1024 * 1024

unfoldable pub first_capacity : ℕ → ℕ
unfolding saturating
first_capacity payload_len = let n = saturating (payload_len * 4) in if ltb n 4096 then 4096 else n

module _ {Level E : Type 0} (crate : Zstd Level E) where
  unfoldable pub level_or_default : Option Level → Level
  level_or_default none = crate.default_level
  level_or_default (some level) = level

  unfoldable pub smaller_of : List ℕ → List ℕ ⊎ E → List ℕ ⊎ Error E
  unfolding byte_of
  smaller_of bytes (inr e) = inr (zstd e)
  smaller_of bytes (inl payload) =
      if ltb (length payload) (length bytes)
      then inl (byte_of compressed ∷ payload)
      else inl (byte_of raw ∷ bytes)

  unfoldable pub with_level : List ℕ → Level → Unit {0} ⊎ E → List ℕ ⊎ Error E
  unfolding smaller_of
  with_level bytes level (inr e) = inr (zstd e)
  with_level bytes level (inl u) = smaller_of bytes (crate.compress level bytes)

  unfoldable pub encode_some : List ℕ → Level → Unit {0} ⊎ E → List ℕ ⊎ Error E
  unfolding with_level
  encode_some bytes level (inr e) = inr (zstd e)
  encode_some bytes level (inl u) = with_level bytes level (crate.set_level level)

  unfoldable pub encode : List ℕ → Option Level → List ℕ ⊎ Error E
  unfolding encode_some level_or_default byte_of
  encode [] level = inl (byte_of raw ∷ [])
  encode (b ∷ bytes) level = encode_some (b ∷ bytes) (level_or_default level) crate.compressor

  unfoldable pub after_try : ℕ → List ℕ ⊎ E → Option (List ℕ ⊎ Error E) → Option (List ℕ ⊎ Error E)
  after_try capacity (inl bytes) again = some (inl bytes)
  after_try capacity (inr e) again =
      if crate.says_too_small e
      then (if leb max_capacity capacity then some (inr (zstd e)) else again)
      else some (inr (zstd e))

  -- The buffer is doubled while the crate says that it is too small. `none` is when the tries are
  -- at their end.
  unfoldable pub decompress_loop : ℕ → ℕ → List ℕ → Option (List ℕ ⊎ Error E)
  unfolding saturating after_try
  decompress_loop zero capacity payload = none
  decompress_loop (suc tries) capacity payload =
      let again = decompress_loop tries (saturating (capacity * 2)) payload in
      after_try capacity (crate.decompress capacity payload) again

  unfoldable pub decode_zstd : ℕ → List ℕ → Unit {0} ⊎ E → Option (List ℕ ⊎ Error E)
  unfolding decompress_loop first_capacity
  decode_zstd tries payload (inr e) = some (inr (zstd e))
  decode_zstd tries payload (inl u) =
      decompress_loop tries (first_capacity (length payload)) payload

  unfoldable pub decode : ℕ → List ℕ → Option (List ℕ ⊎ Error E)
  unfolding decode_zstd
  decode tries [] = some (inr empty)
  decode tries (kind ∷ payload) =
      if kind == 0
      then some (inl payload)
      else if kind == 1
      then decode_zstd tries payload crate.decompressor
      else some (inr (invalid_type kind))
