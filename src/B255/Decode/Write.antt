-- ===== src/B255/Decode/Write.antt =====
-- `write_bytes_be` fills its slice with the bytes of the number, the highest first.
use npm.Common.{
  ℕ, zero, suc, ◌+◌, ◌-◌, ◌*◌, ◌/◌, ◌%◌, ◌^◌, ◌≤◌, ◌<◌, ◌≡◌, refl, ap, ◌∙◌, arith, List, [], ◌∷◌,
  ◌++◌, All, length, reverse, replicate, set, take, drop, length-append, length-replicate,
  All-append,
}
use npm.B255.Radix.{value, value-append, IsBelow, IsCanonical, IsCanonical-append}
use npm.B255.Util.{digit_mod}
use npm.B255.Decode.{write_last, write_digits, to_be_bytes, copy_at, last_digit}
use mathlib.Core.List.{reverse-append, append_assoc}
use native.Mathlib.Nat.{pow-zero, pow-succ', one-le-pow}

-- The `n` low bytes of `val`, the lowest first.
abbrev pub bytes_of : ℕ → ℕ → List ℕ
bytes_of zero val = []
bytes_of (suc n) val = (val % 256) ∷ bytes_of n (val / 256)

-- All bytes of a number whose highest digit takes `last_len` bytes.
abbrev pub num_bytes : ℕ → List ℕ → List ℕ
num_bytes last_len [] = []
num_bytes last_len (d ∷ []) = bytes_of last_len d
num_bytes last_len (d ∷ e ∷ ds) = bytes_of 8 d ++ num_bytes last_len (e ∷ ds)

set-replicate :
    (n b : ℕ) (rest : List ℕ) → set (replicate (suc n) 0 ++ rest) n b ≡ replicate n 0 ++ (b ∷ rest)
set-replicate zero b rest = refl
set-replicate (suc n) b rest = ap (λ t. 0 ∷ t) (set-replicate n b rest)

-- The slots still to be filled stand in front of those that are.
write_last_lem :
    (n pos val : ℕ) (rest : List ℕ)
    → length rest ≡ pos
    → write_last n pos val (replicate n 0 ++ rest) ≡ reverse (bytes_of n val) ++ rest
unfolding write_last
write_last_lem zero pos val rest h = refl
write_last_lem (suc n) pos val rest h =
    let index : length (replicate (suc n) 0 ++ rest) - 1 - pos ≡ n =
      rw (length-append (replicate (suc n) 0) rest, length-replicate {A = ℕ} (suc n) 0)
        (omega arith) in
    rw (
      index,
      set-replicate n (val % 256) rest,
      write_last_lem n (pos + 1) (val / 256) ((val % 256) ∷ rest) (omega arith),
      reverse-append ((val % 256) ∷ []) (bytes_of n (val / 256)),
      append_assoc (reverse (bytes_of n (val / 256))) ((val % 256) ∷ []) rest,
    )

to_be_bytes_lem : (val : ℕ) → to_be_bytes val ≡ reverse (bytes_of 8 val)
unfolding to_be_bytes
to_be_bytes_lem val = ground arith

take-replicate : (n m : ℕ) (rest : List ℕ) → take n (replicate (n + m) 0 ++ rest) ≡ replicate n 0
take-replicate zero m rest = refl
take-replicate (suc n) m rest =
    let e : suc n + m ≡ suc (n + m) = omega arith in
    rw e (ap (λ t. 0 ∷ t) (take-replicate n m rest))

drop-replicate : (n : ℕ) (rest : List ℕ) → drop n (replicate n 0 ++ rest) ≡ rest
drop-replicate zero rest = refl
drop-replicate (suc n) rest = drop-replicate n rest

-- Copying eight bytes in front of those that are filled.
copy_at_lem :
    (k : ℕ) (bytes rest : List ℕ)
    → length bytes ≡ 8
    → copy_at (replicate (k + 8) 0 ++ rest) k bytes ≡ replicate k 0 ++ (bytes ++ rest)
unfolding copy_at
copy_at_lem k bytes rest h = rw (h, take-replicate k 8 rest, drop-replicate (k + 8) rest)

-- The length of the slice.
abbrev pub room : ℕ → List ℕ → ℕ
room last_len [] = 0
room last_len (d ∷ []) = last_len
room last_len (d ∷ e ∷ ds) = room last_len (e ∷ ds) + 8

write_digits_step :
    (last_len d e : ℕ) (ds : List ℕ) (i : ℕ) (rest : List ℕ)
    → length rest ≡ i * 8
    → write_digits last_len (d ∷ e ∷ ds) i (replicate (room last_len (d ∷ e ∷ ds)) 0 ++ rest)
      ≡ write_digits last_len
          (e ∷ ds)
          (i + 1)
          (replicate (room last_len (e ∷ ds)) 0 ++ (reverse (bytes_of 8 d) ++ rest))
write_digits_step last_len d e ds i rest h =
    let k : ℕ = room last_len (e ∷ ds) in
    let start : length (replicate (k + 8) 0 ++ rest) - (i + 1) * 8 ≡ k =
      rw (length-append (replicate (k + 8) 0) rest, length-replicate {A = ℕ} (k + 8) 0)
        (omega arith) in
    unfold write_digits in
    rw (start, to_be_bytes_lem d, copy_at_lem k (reverse (bytes_of 8 d)) rest refl)

pub write_digits_lem :
    (last_len d : ℕ) (ds : List ℕ) (i : ℕ) (rest : List ℕ)
    → length rest ≡ i * 8
    → write_digits last_len (d ∷ ds) i (replicate (room last_len (d ∷ ds)) 0 ++ rest)
      ≡ reverse (num_bytes last_len (d ∷ ds)) ++ rest
write_digits_lem last_len d [] i rest h =
    unfold write_digits in write_last_lem last_len (i * 8) d rest h
write_digits_lem last_len d (e ∷ ds) i rest h =
    let filled : List ℕ = reverse (bytes_of 8 d) ++ rest in
    let count : length filled ≡ (i + 1) * 8 = omega arith in
    write_digits_step last_len d e ds i rest h
    ∙ write_digits_lem last_len e ds (i + 1) filled count
    ∙ rw (
      reverse-append (bytes_of 8 d) (num_bytes last_len (e ∷ ds)),
      append_assoc (reverse (num_bytes last_len (e ∷ ds))) (reverse (bytes_of 8 d)) rest,
    )

bytes_of-IsBelow : (n val : ℕ) → All (IsBelow 256) (bytes_of n val)
bytes_of-IsBelow zero val = tt
bytes_of-IsBelow (suc n) val = (omega arith, bytes_of-IsBelow n (val / 256))

value-bytes_of : (n val : ℕ) → val < 256 ^ n → value 256 (bytes_of n val) ≡ val
value-bytes_of zero val h = omega (arith, pow-zero 256)
value-bytes_of (suc n) val h =
    let p : 256 ^ suc n ≡ 256 * 256 ^ n = pow-succ' 256 n in
    omega (arith, value-bytes_of n (val / 256) (omega arith))

length-bytes_of : (n val : ℕ) → length (bytes_of n val) ≡ n
length-bytes_of zero val = refl
length-bytes_of (suc n) val = ap suc (length-bytes_of n (val / 256))

bytes_of-IsCanonical :
    (n val : ℕ) → 256 ^ n ≤ val → val < 256 ^ suc n → IsCanonical 256 (bytes_of (suc n) val)
bytes_of-IsCanonical zero val lo hi = (omega (arith, pow-zero 256, value-bytes_of 1 val hi), tt)
bytes_of-IsCanonical (suc n) val lo hi =
    let p : 256 ^ suc (suc n) ≡ 256 * 256 ^ suc n = pow-succ' 256 (suc n) in
    let q : 256 ^ suc n ≡ 256 * 256 ^ n = pow-succ' 256 n in
    let pos : 1 ≤ 256 ^ n = one-le-pow n 256 (omega arith) in
    (
      omega (arith, value-bytes_of (suc (suc n)) val hi),
      bytes_of-IsCanonical n (val / 256) (omega arith) (omega arith),
    )

-- The bytes of a number with no zero digit on top, where the highest digit takes `last_len` bytes.
pub num_bytes_lem :
    (n d : ℕ) (ds : List ℕ)
    → All (IsBelow digit_mod) (d ∷ ds)
    → 256 ^ n ≤ last_digit (d ∷ ds)
    → last_digit (d ∷ ds) < 256 ^ suc n
    → (value 256 (num_bytes (suc n) (d ∷ ds)) ≡ value digit_mod (d ∷ ds))
      × All (IsBelow 256) (num_bytes (suc n) (d ∷ ds))
      × IsCanonical 256 (num_bytes (suc n) (d ∷ ds))
      × (0 < value 256 (num_bytes (suc n) (d ∷ ds)))
unfolding last_digit
num_bytes_lem n d [] h lo hi =
    let pos : 1 ≤ 256 ^ n = one-le-pow n 256 (omega arith) in
    (
      value-bytes_of (suc n) d hi ∙ omega arith,
      bytes_of-IsBelow (suc n) d,
      bytes_of-IsCanonical n d lo hi,
      omega (arith, value-bytes_of (suc n) d hi),
    )
num_bytes_lem n d (e ∷ ds) h lo hi =
    let high : List ℕ = num_bytes (suc n) (e ∷ ds) in
    let (v, b, c, p) = num_bytes_lem n e ds h.1 lo hi in
    let total : value 256 (bytes_of 8 d ++ high) ≡ d + digit_mod * value digit_mod (e ∷ ds) =
      value-append 256 (bytes_of 8 d) high ∙ rw (value-bytes_of 8 d h.0, v) in
    (
      total,
      All-append (IsBelow 256) (bytes_of 8 d) high (bytes_of-IsBelow 8 d) b,
      IsCanonical-append 256 (bytes_of 8 d) high (omega arith) p c,
      rw total (omega arith),
    )
