-- ===== src/B255/Util/Bytes.antt =====
-- `from_bytes_be` reads bytes as the number that they stand for.
use npm.Common.{
  ℕ, zero, suc, ◌+◌, ◌-◌, ◌*◌, ◌%◌, ◌^◌, ◌≤◌, ◌<◌, ◌≡◌, ◌∙◌, arith, List, [], ◌∷◌, ◌++◌, All, take,
  drop, length, Bool-cases, inl, inr, ◌==◌, leb, reverse, map, take-append-drop, length-reverse,
  length-take, length-drop, true, false, All-append_left, All-append_right, All-reverse,
}
use npm.Common.Bits.{bit_or_disjoint}
use npm.B255.Radix.{value, value-append, value-lt, IsBelow, foldl-value, value-leading}
use npm.B255.Util.{digit_mod, push_byte, from_be_bytes, digit_of_chunk, rchunks, from_bytes_be}
use npm.B255.Util.Division.{IsNormal}
use mathlib.Core.List.{foldl, reverse-append}
use native.Mathlib.Decide.{dec_le}
use native.Mathlib.Nat.{add-zero, pow-zero, pow-suc, pow-succ', pow-le-pow_right}

push_byte_lem : (val b : ℕ) → val < 2 ^ 56 → b < 256 → push_byte val b ≡ val * 256 + b
unfolding push_byte
push_byte_lem val b hv hb =
    let e : val * 2 ^ 8 % digit_mod ≡ val * 2 ^ 8 = omega arith in rw e (bit_or_disjoint 8 val b hb)

-- While at most eight bytes are read the shifts lose nothing.
foldl-push_byte :
    (k val : ℕ) (xs : List ℕ)
    → val < 256 ^ k
    → k + length xs ≤ 8
    → All (IsBelow 256) xs
    → foldl push_byte val xs ≡ val * 256 ^ length xs + value 256 (reverse xs)
foldl-push_byte k val [] hv hk h = rw pow-zero (omega arith)
foldl-push_byte k val (x ∷ xs) hv hk h =
    let small : 256 ^ k ≤ 256 ^ 7 = pow-le-pow_right (omega arith) {i = k} {j = 7} (omega arith) in
    let grown : val * 256 + x < 256 ^ suc k = rw (pow-suc 256 k) (omega (arith, h.0)) in
    let p : 256 ^ length (x ∷ xs) ≡ 256 * 256 ^ length xs = pow-succ' 256 (length xs) in
    rw
      (
        push_byte_lem val x (omega arith) h.0,
        foldl-push_byte (suc k) (val * 256 + x) xs grown (omega arith) h.1,
        reverse-append (x ∷ []) xs,
        value-append 256 (reverse xs) (x ∷ []),
        length-reverse xs,
        p,
      )
      (omega arith)

digit_of_chunk_lem :
    (xs : List ℕ)
    → length xs ≤ 8
    → All (IsBelow 256) xs
    → digit_of_chunk xs ≡ value 256 (reverse xs)
unfolding digit_of_chunk
digit_of_chunk_lem xs hl h = elim (Bool-cases (length xs == 8)) [
  | inl full ↦ rw full (unfold from_be_bytes in foldl-value 0 xs ∙ omega arith)
  | inr short ↦ rw short (foldl-push_byte 0 0 xs (omega arith) (omega arith) h ∙ omega arith)
]

abbrev Reads : List ℕ → List ℕ → Type 0
Reads xs ds =
    (value digit_mod ds ≡ value 256 (reverse xs)) × All (IsBelow digit_mod) ds × IsNormal ds

IsNormal-cons : (d : ℕ) (ds : List ℕ) → 0 < value digit_mod ds → IsNormal ds → IsNormal (d ∷ ds)
IsNormal-cons d [] p n = absurd n
IsNormal-cons d (e ∷ ds) p n = (p, n)

digit_of_chunk-lt :
    (xs : List ℕ) → length xs ≤ 8 → All (IsBelow 256) xs → digit_of_chunk xs < digit_mod
digit_of_chunk-lt xs hl h =
    let small : 256 ^ length (reverse xs) ≤ 256 ^ 8 =
      pow-le-pow_right (omega arith) {j = 8} (rw length-reverse hl) in
    rw (digit_of_chunk_lem xs hl h)
      (omega (arith, value-lt 256 (reverse xs) (All-reverse (IsBelow 256) xs h)))

-- Reading the last eight bytes as one digit, over the digits of the bytes before.
Reads-append :
    (front chunk ds : List ℕ)
    → length chunk ≡ 8
    → All (IsBelow 256) chunk
    → 0 < value 256 (reverse front)
    → Reads front ds
    → Reads (front ++ chunk) (digit_of_chunk chunk ∷ ds)
Reads-append front chunk ds hl h p (v, b, n) =
    let e : length (reverse chunk) ≡ 8 = length-reverse chunk ∙ hl in
    (
      rw
          (
            reverse-append front chunk,
            value-append 256 (reverse chunk) (reverse front),
            e,
            digit_of_chunk_lem chunk (omega arith) h,
          )
          (omega arith),
      (digit_of_chunk-lt chunk (omega arith) h, b),
      IsNormal-cons (digit_of_chunk chunk) ds (omega arith) n,
    )

-- Nine bytes and more: the last eight make a chunk.
rchunks_split :
    (fuel b : ℕ) (bs : List ℕ)
    → 8 ≤ length bs
    → rchunks (suc fuel) (b ∷ bs)
      ≡ drop (length bs - 8) bs ∷ rchunks fuel (b ∷ take (length bs - 8) bs)
unfolding rchunks
rchunks_split fuel b bs h =
    let long : leb (suc (length bs)) 8 ≡ false = ground arith in
    let split : suc (length bs) - 8 ≡ suc (length bs - 8) = omega arith in rw (long, split)

rchunks_lem :
    (fuel b : ℕ) (bs : List ℕ)
    → length (b ∷ bs) ≤ fuel
    → 0 < b
    → All (IsBelow 256) (b ∷ bs)
    → Reads (b ∷ bs) (map digit_of_chunk (rchunks fuel (b ∷ bs)))
rchunks_lem zero b bs hf hb h = absurd (omega arith)
rchunks_lem (suc fuel) b bs hf hb h = elim (dec_le 8 (length bs)) [
  | no short ↦
      unfold rchunks in
      (let one_chunk : leb (suc (length bs)) 8 ≡ true = ground arith in
        rw one_chunk (
          add-zero _ ∙ digit_of_chunk_lem (b ∷ bs) (omega arith) h,
          (digit_of_chunk-lt (b ∷ bs) (omega arith) h, tt),
          tt,
        ))
  | yes long ↦
      let k : ℕ = length bs - 8 in
      let whole : All (IsBelow 256) (take k bs ++ drop k bs) = rw take-append-drop h.1 in
      let front : All (IsBelow 256) (take k bs) =
        All-append_left (IsBelow 256) (take k bs) (drop k bs) whole in
      let short : length (b ∷ take k bs) ≤ fuel = omega (arith, length-take k bs (omega arith)) in
      rw (rchunks_split fuel b bs long) (
        rw (take-append-drop k bs) at (
          Reads-append (b ∷ take k bs) (drop k bs)
            (map digit_of_chunk (rchunks fuel (b ∷ take k bs))) (length-drop k bs ∙ omega arith)
            (All-append_right (IsBelow 256) (take k bs) (drop k bs) whole)
            (value-leading 256 b (take k bs) (omega arith) hb)
            (rchunks_lem fuel b (take k bs) short hb (h.0, front))))
]

-- Bytes that begin with no zero are read whole, into digits with no zero on top.
pub from_bytes_be_lem :
    (b : ℕ) (bs : List ℕ)
    → 0 < b
    → All (IsBelow 256) (b ∷ bs)
    → (value digit_mod (from_bytes_be (b ∷ bs)) ≡ value 256 (reverse (b ∷ bs)))
      × All (IsBelow digit_mod) (from_bytes_be (b ∷ bs))
      × IsNormal (from_bytes_be (b ∷ bs))
unfolding from_bytes_be
from_bytes_be_lem b bs hb h = rchunks_lem (length (b ∷ bs)) b bs (omega arith) hb h
