-- ===== src/B255/Codec/Zeros.antt =====
-- How both functions set the zeros of their input aside.
use npm.Common.{
  ℕ, zero, suc, ◌-◌, ◌<◌, ◌≡◌, refl, ap, ◌∙◌, arith, List, [], ◌∷◌, ◌++◌, length, reverse,
  replicate, take, drop, some, reverse-append, reverse-reverse, length-append, length-replicate,
  length-reverse,
}
use npm.B255.Util.{count_zeros}
use npm.B255.Encode.{encode_core, encode}
use npm.B255.Decode.{ok, ◌>>=◌, decode_loop, decode_tail, decode_core, decode}

-- A list is all zeros, or zeros in front of a nonzero element.
pub data ZerosView : List ℕ → Type 0 where
  all : (n : ℕ) → ZerosView (replicate n 0)
  before : (n b : ℕ) (bs : List ℕ) → 0 < b → ZerosView (replicate n 0 ++ (b ∷ bs))

ZerosView-cons : {xs : List ℕ} → ZerosView xs → ZerosView (0 ∷ xs)
ZerosView-cons (all n) = all (suc n)
ZerosView-cons (before n b bs h) = before (suc n) b bs h

pub zeros_view : (xs : List ℕ) → ZerosView xs
zeros_view [] = all 0
zeros_view (zero ∷ xs) = ZerosView-cons (zeros_view xs)
zeros_view (suc x ∷ xs) = before 0 (suc x) xs (omega arith)

count_zeros-before : (n b : ℕ) (bs : List ℕ) → 0 < b → count_zeros (replicate n 0 ++ (b ∷ bs)) ≡ n
unfolding count_zeros
count_zeros-before zero b bs h = ground arith
count_zeros-before (suc n) b bs h = ap suc (count_zeros-before n b bs h)

count_zeros-all : (n : ℕ) → count_zeros (replicate n 0) ≡ n
unfolding count_zeros
count_zeros-all zero = refl
count_zeros-all (suc n) = ap suc (count_zeros-all n)

drop-before : (n : ℕ) (bs : List ℕ) → drop n (replicate n 0 ++ bs) ≡ bs
drop-before zero bs = refl
drop-before (suc n) bs = drop-before n bs

drop-all : (n : ℕ) → drop n (replicate {A = ℕ} n 0) ≡ []
drop-all zero = refl
drop-all (suc n) = drop-all n

take-length : (xs ys : List ℕ) → take (length xs) (xs ++ ys) ≡ xs
take-length [] ys = refl
take-length (x ∷ xs) ys = ap (λ t. x ∷ t) (take-length xs ys)

replicate-snoc : (n : ℕ) → replicate {A = ℕ} n 0 ++ (0 ∷ []) ≡ 0 ∷ replicate n 0
replicate-snoc zero = refl
replicate-snoc (suc n) = ap (λ t. 0 ∷ t) (replicate-snoc n)

pub reverse-replicate : (n : ℕ) → reverse (replicate {A = ℕ} n 0) ≡ replicate n 0
reverse-replicate zero = refl
reverse-replicate (suc n) =
    reverse-append {A = ℕ} (0 ∷ []) (replicate n 0)
    ∙ ap (λ t. t ++ (0 ∷ [])) (reverse-replicate n)
    ∙ replicate-snoc n

pub encode-all : (n : ℕ) → encode (replicate n 0) ≡ some (replicate n 0)
unfolding encode
encode-all n = rw (count_zeros-all n, drop-all n) (unfold encode_core in refl)

pub encode-before :
    (n b : ℕ) (bs : List ℕ) → 0 < b → encode (replicate n 0 ++ (b ∷ bs)) ≡ encode_core n (b ∷ bs)
unfolding encode
encode-before n b bs h = rw (count_zeros-before n b bs h, drop-before n (b ∷ bs))

pub decode-all : (n : ℕ) → decode (replicate n 0) ≡ ok (replicate n 0)
unfolding decode
decode-all n =
    let none_left : length (replicate {A = ℕ} n 0) - n ≡ 0 =
      omega (arith, length-replicate {A = ℕ} n 0) in
    rw (reverse-replicate n, count_zeros-all n, none_left) (unfold decode_core in refl)

decode_core-cons :
    (n b : ℕ) (bs xs : List ℕ)
    → xs ≡ b ∷ bs
    → decode_core n xs ≡ (decode_loop (reverse xs) (0 ∷ []) >>= λ num. ok (decode_tail n num))
unfolding decode_core
decode_core-cons n b bs xs e = rw e

reverse_cons : (h : ℕ) (t : List ℕ) → (b : ℕ) × (bs : List ℕ) × (reverse (h ∷ t) ≡ b ∷ bs)
reverse_cons h t = go (reverse (h ∷ t)) refl
  where
    go : (r : List ℕ) → reverse (h ∷ t) ≡ r → (b : ℕ) × (bs : List ℕ) × (reverse (h ∷ t) ≡ b ∷ bs)
    go [] e = absurd (omega (arith, length-reverse (h ∷ t), ap length e))
    go (b ∷ bs) e = (b, bs, e)

-- The core of an encoded text, the digit next to the zeros first, is what the loop runs over.
pub decode-before :
    (n h : ℕ) (t : List ℕ)
    → 0 < h
    → decode (reverse (h ∷ t) ++ replicate n 0)
      ≡ (decode_loop (h ∷ t) (0 ∷ []) >>= λ num. ok (decode_tail n num))
unfolding decode
decode-before n h t p =
    let core : List ℕ = reverse (h ∷ t) in
    let (b, bs, e) = reverse_cons h t in
    let turned : reverse (core ++ replicate n 0) ≡ replicate n 0 ++ (h ∷ t) =
      reverse-append core (replicate n 0) ∙ rw (reverse-replicate n, reverse-reverse (h ∷ t)) in
    let size : length (core ++ replicate n 0) - n ≡ length core =
      omega (arith, length-append core (replicate n 0), length-replicate {A = ℕ} n 0) in
    rw (turned, count_zeros-before n h t p, size, take-length core (replicate n 0))
      (decode_core-cons n b bs core e ∙ rw (reverse-reverse (h ∷ t)))
