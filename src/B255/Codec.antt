-- ===== src/B255/Codec.antt =====
-- What `encode` and `decode` promise each other.
pub mod Zeros
use npm.Common.{
  ℕ, zero, suc, ◌+◌, ◌<◌, ◌≡◌, ◌≢◌, refl, sym, ap, ◌∙◌, arith, List, [], ◌∷◌, ◌++◌, All, reverse,
  replicate, map, some, reverse-append, reverse-reverse, All-append, All-append_left,
  All-append_right, All-reverse, All-replicate, if◌then◌else◌, ◌==◌,
}
use mathlib.Core.List.{map-append}
use mathlib.Core.Path.{subst}
use npm.B255.Radix.{
  value, value-injective, IsBelow, IsCanonical, value-leading, leading-IsCanonical,
  IsCanonical-leading,
}
use npm.B255.Util.{digit_mod, forbidden_byte}
use npm.B255.Encode.{map_digit, encode}
use npm.B255.Encode.Digits.{encode_core_lem}
use npm.B255.Decode.{
  Result, ok, err, invalid_byte, ◌>>=◌, decode_loop, decode_tail, decode, unmap_byte,
}
use npm.B255.Decode.Multiply.{decode_loop_lem}
use npm.B255.Decode.Tail.{decode_tail_lem}
use Zeros.{
  ZerosView, all, before, zeros_view, reverse-replicate, encode-all, encode-before, decode-all,
  decode-before,
}

map_digit-pos : (d : ℕ) → 0 < d → 0 < map_digit d
unfolding map_digit
map_digit-pos d h = ground arith

-- What `decode` makes of mapped digits, here the highest first, and zeros behind them.
abbrev pub DecodesTo : ℕ → List ℕ → List ℕ → Type 0
DecodesTo n hs bytes =
    (decode (reverse (map map_digit hs) ++ replicate n 0) ≡ ok (replicate n 0 ++ reverse bytes))
    × (value 256 bytes ≡ value 255 (reverse hs))
    × All (IsBelow 256) bytes
    × IsCanonical 256 bytes

pub decode_digits :
    (n h : ℕ) (t : List ℕ)
    → 0 < h
    → All (IsBelow 255) (h ∷ t)
    → (bytes : List ℕ) × DecodesTo n (h ∷ t) bytes
decode_digits n h t p b =
    let (num, e, v, below, normal) = decode_loop_lem (h ∷ t) (0 ∷ []) b (omega arith, tt) tt in
    let num_value : value digit_mod num ≡ value 255 (reverse (h ∷ t)) = v ∙ omega arith in
    let pos : 0 < value digit_mod num =
      omega (arith, value-leading 255 h t (omega arith) p, num_value) in
    let (bytes, w, v', below', canonical) = decode_tail_lem n num below normal pos in
    (
      bytes,
      (
        decode-before n (map_digit h) (map map_digit t) (map_digit-pos h p) ∙ rw (e, w),
        v' ∙ num_value,
        below',
        canonical,
      ),
    )

pub map-reverse : (f : ℕ → ℕ) (xs : List ℕ) → map f (reverse xs) ≡ reverse (map f xs)
map-reverse f [] = refl
map-reverse f (x ∷ xs) =
    ap (map f) (reverse-append (x ∷ []) xs)
    ∙ map-append f (reverse xs) (x ∷ [])
    ∙ ap (λ t. t ++ (f x ∷ [])) (map-reverse f xs)
    ∙ sym (reverse-append (f x ∷ []) (map f xs))

-- Digits of a positive number, seen from the highest.
pub reverse_view :
    (base : ℕ) (ds : List ℕ) → 0 < value base ds → (h : ℕ) × (t : List ℕ) × (ds ≡ reverse (h ∷ t))
reverse_view base ds p = go (reverse ds) (sym (reverse-reverse ds))
  where
    go : (r : List ℕ) → ds ≡ reverse r → (h : ℕ) × (t : List ℕ) × (ds ≡ reverse (h ∷ t))
    go [] e = absurd (omega (arith, ap (value base) e))
    go (h ∷ t) e = (h, t, e)

RoundTrips : List ℕ → Type 0
RoundTrips input = (encoded : List ℕ) × (encode input ≡ some encoded) × (decode encoded ≡ ok input)

decode-encode_before :
    (n b : ℕ) (bs : List ℕ)
    → 0 < b
    → All (IsBelow 256) (b ∷ bs)
    → RoundTrips (replicate n 0 ++ (b ∷ bs))
unfolding RoundTrips
decode-encode_before n b bs p hb =
    let (ds, e, (v, below, canonical)) = encode_core_lem n b bs p hb in
    let pos : 0 < value 255 ds = omega (arith, v, value-leading 256 b bs (omega arith) p) in
    let (h, t, turned) = reverse_view 255 ds pos in
    let top : 0 < h = IsCanonical-leading 255 h t (subst (IsCanonical 255) turned canonical) in
    let digits : All (IsBelow 255) (h ∷ t) =
      subst (All (IsBelow 255)) (ap reverse turned ∙ reverse-reverse (h ∷ t))
        (All-reverse (IsBelow 255) ds below) in
    let (bytes, (d, v', below', canonical')) = decode_digits n h t top digits in
    let same : bytes ≡ reverse (b ∷ bs) =
      value-injective 256 bytes (reverse (b ∷ bs)) below' (All-reverse (IsBelow 256) (b ∷ bs) hb)
        canonical' (leading-IsCanonical 256 b bs (omega arith) p)
        (v' ∙ ap (value 255) (sym turned) ∙ v) in
    let text : map map_digit ds ≡ reverse (map map_digit (h ∷ t)) =
      ap (map map_digit) turned ∙ map-reverse map_digit (h ∷ t) in
    (
      map map_digit ds ++ replicate n 0,
      encode-before n b bs p ∙ e,
      ap (λ u. decode (u ++ replicate n 0)) text
          ∙ d
          ∙ ap (λ u. ok (replicate n 0 ++ u)) (ap reverse same ∙ reverse-reverse (b ∷ bs)),
    )

decode-encode_view : {xs : List ℕ} → ZerosView xs → All (IsBelow 256) xs → RoundTrips xs
unfolding RoundTrips
decode-encode_view (all n) h = (replicate n 0, encode-all n, decode-all n)
decode-encode_view (before n b bs p) h =
    decode-encode_before n b bs p (All-append_right (IsBelow 256) (replicate n 0) (b ∷ bs) h)

-- On any bytes `encode` returns a text, and `decode` of that text is the input.
pub decode-encode :
    (input : List ℕ)
    → All (IsBelow 256) input
    → (encoded : List ℕ) × (encode input ≡ some encoded) × (decode encoded ≡ ok input)
unfolding RoundTrips
decode-encode input h = decode-encode_view (zeros_view input) h
