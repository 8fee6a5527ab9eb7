-- ===== src/XHash/Lengths.antt =====
-- Inputs of different lengths have different hashes.
use npm.Common.{
  ℕ, zero, suc, ◌+◌, ◌-◌, ◌*◌, ◌/◌, ◌^◌, ◌<◌, ◌≤◌, ◌&&◌, List, [], ◌∷◌, ◌++◌, ltb, ◌==◌,
  if◌then◌else◌, length, ◌≡◌, refl, sym, ap, ◌∙◌, arith, Bool-cases, inl, inr, length-append,
  ltb→lt, ltb→ge, ==_iff,
}
use native.Mathlib.Nat.{pow-suc}
use npm.XHash.{hash128_len, Xxh3, to_le_bytes, is_nil, strip_zeros, hash_len_concat, xhash}

length-to_le_bytes : (n v : ℕ) → length (to_le_bytes n v) ≡ n
unfolding to_le_bytes
length-to_le_bytes zero v = refl
length-to_le_bytes (suc n) v = ap suc (length-to_le_bytes n (v / 256))

value : List ℕ → ℕ
value [] = 0
value (b ∷ bs) = b + 256 * value bs

value-to_le_bytes : (n v : ℕ) → v < 256 ^ n → value (to_le_bytes n v) ≡ v
unfolding value to_le_bytes
value-to_le_bytes zero v h = omega arith
value-to_le_bytes (suc n) v h =
    let p : 256 ^ suc n ≡ 256 ^ n * 256 = pow-suc 256 n in
    let small : v / 256 < 256 ^ n = omega (arith, h, p) in
    omega (arith, value-to_le_bytes n (v / 256) small)

kept :
    (b : ℕ) (rest bs : List ℕ)
    → value rest ≡ value bs
    → value (if is_nil rest && (b == 0) then [] else b ∷ rest) ≡ b + 256 * value bs
unfolding value is_nil
kept b [] bs h = elim (Bool-cases (b == 0)) [
  | inl is ↦ rw is (omega (arith, h, (==_iff b 0).0 is))
  | inr other ↦ rw other (omega (arith, h))
]
kept b (r ∷ rest) bs h = omega (arith, h)

value-strip_zeros : (bs : List ℕ) → value (strip_zeros bs) ≡ value bs
unfolding value strip_zeros
value-strip_zeros [] = refl
value-strip_zeros (b ∷ bs) = kept b (strip_zeros bs) bs (value-strip_zeros bs)

drop_prefix : (xs ys zs ws : List ℕ) → length xs ≡ length ys → xs ++ zs ≡ ys ++ ws → zs ≡ ws
drop_prefix [] [] zs ws n e = e
drop_prefix [] (y ∷ ys) zs ws n e = absurd (omega (arith, n))
drop_prefix (x ∷ xs) [] zs ws n e = absurd (omega (arith, n))
drop_prefix (x ∷ xs) (y ∷ ys) zs ws n e = drop_prefix xs ys zs ws (omega (arith, n)) (cc)

-- An input of more than 16 bytes has its length in the hash, and a hash of more than 16 bytes.
suffix_of : ℕ → List ℕ
suffix_of n = strip_zeros (to_le_bytes 8 (n - hash128_len))

value_suffix : (n : ℕ) → n < 2 ^ 64 → value (suffix_of n) ≡ n - 16
unfolding suffix_of
value_suffix n h =
    value-strip_zeros (to_le_bytes 8 (n - 16)) ∙ value-to_le_bytes 8 (n - 16) (omega (arith, h))

value_nil : (bs : List ℕ) → length bs ≡ 0 → value bs ≡ 0
unfolding value
value_nil [] h = refl
value_nil (b ∷ bs) h = absurd (omega (arith, h))

length-hash_len_concat : (hash n : ℕ) → length (hash_len_concat hash n) ≡ 16 + length (suffix_of n)
unfolding hash_len_concat suffix_of
length-hash_len_concat hash n = omega (
  arith,
  length-append (to_le_bytes 16 hash) (strip_zeros (to_le_bytes 8 (n - hash128_len))),
  length-to_le_bytes 16 hash,
)

-- The suffix of a long input is not empty.
long_hash : (hash n : ℕ) → 16 < n → n < 2 ^ 64 → 16 < length (hash_len_concat hash n)
long_hash hash n long small =
    by_suffix (suffix_of n) (value_suffix n small) (length-hash_len_concat hash n)
  where
    by_suffix :
        (bs : List ℕ)
        → value bs ≡ n - 16
        → length (hash_len_concat hash n) ≡ 16 + length bs
        → 16 < length (hash_len_concat hash n)
    by_suffix [] v e = absurd (omega (arith, value_nil [] refl, v))
    by_suffix (b ∷ bs) v e = omega (arith, e)

same_suffix : (g h m n : ℕ) → hash_len_concat g m ≡ hash_len_concat h n → suffix_of m ≡ suffix_of n
unfolding hash_len_concat suffix_of
same_suffix g h m n e =
    drop_prefix (to_le_bytes 16 g) (to_le_bytes 16 h)
      (strip_zeros (to_le_bytes 8 (m - hash128_len)))
      (strip_zeros (to_le_bytes 8 (n - hash128_len)))
      (length-to_le_bytes 16 g ∙ sym (length-to_le_bytes 16 h)) e

module _ {H : Type 0} (xxh3 : Xxh3 H) where
  data Shape (bin : List ℕ) : Type 0 where
    short : xhash xxh3 bin ≡ bin → length bin ≤ 16 → Shape bin
    long :
        xhash xxh3 bin ≡ hash_len_concat (xxh3.hash128 bin) (length bin)
        → 16 < length bin
        → Shape bin

  shape : (bin : List ℕ) → Shape bin
  unfolding xhash
  shape bin = elim (Bool-cases (ltb hash128_len (length bin))) [
    | inl is ↦ long (rw (is, xhash) refl) (ltb→lt 16 (length bin) is)
    | inr other ↦ short (rw (other, xhash) refl) (ltb→ge 16 (length bin) other)
  ]

  same_length :
      (a b : List ℕ)
      → Shape a
      → Shape b
      → length a < 2 ^ 64
      → length b < 2 ^ 64
      → xhash xxh3 a ≡ xhash xxh3 b
      → length a ≡ length b
  same_length a b (short p m) (short q n) ha hb e = ap length (sym p ∙ e ∙ q)
  same_length a b (short p m) (long q n) ha hb e =
      absurd
        (omega (arith, ap length (sym p ∙ e ∙ q), long_hash (xxh3.hash128 b) (length b) n hb, m))
  same_length a b (long p m) (short q n) ha hb e =
      absurd
        (omega (arith, ap length (sym p ∙ e ∙ q), long_hash (xxh3.hash128 a) (length a) m ha, n))
  same_length a b (long p m) (long q n) ha hb e = omega (
    arith,
    ap value (same_suffix (xxh3.hash128 a) (xxh3.hash128 b) (length a) (length b) (sym p ∙ e ∙ q)),
    value_suffix (length a) ha,
    value_suffix (length b) hb,
    m,
    n,
  )

  -- Two inputs with the same hash have the same length, whatever the hash function does.
  pub xhash-length :
      (a b : List ℕ)
      → length a < 2 ^ 64
      → length b < 2 ^ 64
      → xhash xxh3 a ≡ xhash xxh3 b
      → length a ≡ length b
  xhash-length a b = same_length a b (shape a) (shape b)
