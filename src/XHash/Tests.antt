-- ===== src/XHash/Tests.antt =====
-- Hashes of concrete inputs, with a hash function that adds the bytes.
use npm.Common.{ℕ, ◌+◌, List, [], ◌∷◌, ◌++◌, length, replicate, ◌≡◌, refl, arith}
use npm.XHash.{Xxh3, xhash, iter}
use npm.XHash.Lengths.{xhash-length}
use npm.XHash.Streamed.{Streams, joined, iter-xhash}
use mathlib.Core.List.{foldl}

abbrev sum_of : List ℕ → ℕ
sum_of [] = 0
sum_of (b ∷ bs) = b + sum_of bs

abbrev sums : Xxh3 ℕ
sums = record { hash128 = sum_of; hasher = 0; update = λ h bs. h + sum_of bs; digest128 = λ h. h }

sum-append : (xs ys : List ℕ) → sum_of (xs ++ ys) ≡ sum_of xs + sum_of ys
sum-append [] ys = omega arith
sum-append (x ∷ xs) ys = omega (arith, sum-append xs ys)

sum-updates :
    (parts : List (List ℕ)) (h : ℕ) → foldl sums.update h parts ≡ h + sum_of (joined parts)
unfolding joined
sum-updates [] h = omega arith
sum-updates (part ∷ parts) h =
    omega (arith, sum-updates parts (h + sum_of part), sum-append part (joined parts))

sums-Streams : Streams sums
sums-Streams = record { digest-updates = λ parts. omega (arith, sum-updates parts 0) }

abbrev long_bytes : List ℕ
long_bytes = replicate 17 1

long_parts : xhash sums long_bytes ≡ 17 ∷ (replicate 15 0 ++ (1 ∷ []))
unfolding xhash npm.XHash.hash_len_concat npm.XHash.to_le_bytes npm.XHash.strip_zeros
long_parts = refl

iter-xhash_example :
    iter sums ((1 ∷ []) ∷ (replicate 20 2 ∷ []))
    ≡ xhash sums (joined ((1 ∷ []) ∷ (replicate 20 2 ∷ [])))
iter-xhash_example = iter-xhash sums sums-Streams ((1 ∷ []) ∷ (replicate 20 2 ∷ []))

abbrev pair : List ℕ
pair = 1 ∷ (2 ∷ [])

xhash-length_example : length pair ≡ length pair
xhash-length_example = xhash-length sums pair pair (omega arith) (omega arith) refl
