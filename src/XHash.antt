-- ===== src/XHash.antt =====
-- xhash/src/lib.rs and hasher.rs: a hash that keeps short inputs as they are. The hash function of
-- the crate xxhash_rust is a record.
pub mod Streamed
pub mod Lengths
mod Tests
use npm.Common.{
  ℕ, zero, suc, ◌+◌, ◌-◌, ◌/◌, ◌%◌, Bool, true, false, ◌&&◌, List, [], ◌∷◌, ◌++◌, ltb, leb, ◌==◌,
  if◌then◌else◌, length, take, drop, replicate,
}
use mathlib.Core.List.{foldl}

abbrev pub hash128_len : ℕ
hash128_len = 16

-- `xxh3_128_with_secret`, and the hasher with the same secret.
pub record Xxh3 (H : Type 0) : Type 0 where
  pub hash128 : List ℕ → ℕ
  pub hasher : H
  pub update : H → List ℕ → H
  pub digest128 : H → ℕ

unfoldable pub to_le_bytes : ℕ → ℕ → List ℕ
to_le_bytes zero v = []
to_le_bytes (suc n) v = v % 256 ∷ to_le_bytes n (v / 256)

unfoldable pub is_nil : List ℕ → Bool
is_nil [] = true
is_nil (b ∷ bs) = false

-- The bytes up to the last that is not zero.
unfoldable pub strip_zeros : List ℕ → List ℕ
unfolding is_nil
strip_zeros [] = []
strip_zeros (b ∷ bs) = let rest = strip_zeros bs in if is_nil rest && (b == 0) then [] else b ∷ rest

unfoldable pub hash_len_concat : ℕ → ℕ → List ℕ
hash_len_concat hash len = to_le_bytes 16 hash ++ strip_zeros (to_le_bytes 8 (len - hash128_len))

pub record Hasher (H : Type 0) : Type 0 where
  pub hasher : H
  pub buf : List ℕ
  pub len : ℕ

module _ {H : Type 0} (xxh3 : Xxh3 H) where
  unfoldable pub xhash : List ℕ → List ℕ
  xhash bin =
      if ltb hash128_len (length bin) then hash_len_concat (xxh3.hash128 bin) (length bin) else bin

  unfoldable pub new : Hasher H
  new = record { hasher = xxh3.hasher; buf = replicate hash128_len 0; len = 0 }

  -- What the buffer holds goes to the hasher first.
  unfoldable pub flushed : Hasher H → H
  flushed s =
      if leb s.len hash128_len
      then (if ltb 0 s.len then xxh3.update s.hasher (take s.len s.buf) else s.hasher)
      else s.hasher

  unfoldable pub write : Hasher H → List ℕ → Hasher H
  unfolding flushed
  write s [] = s
  write s (b ∷ bs) =
      let bytes = b ∷ bs in
      let len = s.len + length bytes in
      if ltb hash128_len len
      then record s { hasher = xxh3.update (flushed s) bytes; len = len }
      else record s { buf = take s.len s.buf ++ (bytes ++ drop len s.buf); len = len }

  unfoldable pub finish : Hasher H → List ℕ
  finish s =
      if ltb hash128_len s.len
      then hash_len_concat (xxh3.digest128 s.hasher) s.len
      else take s.len s.buf

  unfoldable pub iter : List (List ℕ) → List ℕ
  unfolding write finish new
  iter parts = finish (foldl write new parts)
