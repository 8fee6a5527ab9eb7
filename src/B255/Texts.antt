-- ===== src/B255/Texts.antt =====
-- The texts that the codec uses: which byte lists `encode` returns, and what `decode` does with any.
use npm.Common.{
  ℕ, ◌<◌, ◌≡◌, ◌≢◌, refl, sym, ap, ap₂, ◌∙◌, arith, List, [], ◌∷◌, ◌++◌, All, reverse, replicate,
  map, some, reverse-append, reverse-reverse, All-append, All-append_right, All-reverse,
  All-replicate, if◌then◌else◌, ◌==◌,
}
use mathlib.Core.Path.{subst}
use npm.B255.Radix.{
  value, value-injective, IsBelow, IsCanonical, value-leading, leading-IsCanonical,
  IsCanonical-leading,
}
use npm.B255.Util.{forbidden_byte}
use npm.B255.Encode.{map_digit, encode}
use npm.B255.Encode.Digits.{encode_core_lem}
use npm.B255.Decode.{ok, decode}
use npm.B255.Codec.{decode_digits, map-reverse, reverse_view}
use npm.B255.Codec.Zeros.{
  ZerosView, all, before, zeros_view, reverse-replicate, encode-all, encode-before, decode-all,
}

-- A byte of a text: never the forbidden one.
abbrev pub IsTextByte : ℕ → Type 0
IsTextByte b = (b < 256) × (b ≢ forbidden_byte)

map_digit-IsTextByte : (ds : List ℕ) → All (IsBelow 255) ds → All IsTextByte (map map_digit ds)
unfolding map_digit
map_digit-IsTextByte [] h = tt
map_digit-IsTextByte (d ∷ ds) h = (ground arith, map_digit-IsTextByte ds h.1)

abbrev EncodesToText : List ℕ → Type 0
EncodesToText input = (encoded : List ℕ) × (encode input ≡ some encoded) × All IsTextByte encoded

zeros-IsTextByte : (n : ℕ) → All IsTextByte (replicate n 0)
zeros-IsTextByte n = All-replicate IsTextByte n 0 (omega arith)

encode-IsTextByte_view : {xs : List ℕ} → ZerosView xs → All (IsBelow 256) xs → EncodesToText xs
encode-IsTextByte_view (all n) h = (replicate n 0, encode-all n, zeros-IsTextByte n)
encode-IsTextByte_view (before n b bs p) h =
    let (ds, e, (v, below, canonical)) =
      encode_core_lem n b bs p (All-append_right (IsBelow 256) (replicate n 0) (b ∷ bs) h) in
    (
      map map_digit ds ++ replicate n 0,
      encode-before n b bs p ∙ e,
      All-append IsTextByte (map map_digit ds) (replicate n 0) (map_digit-IsTextByte ds below)
          (zeros-IsTextByte n),
    )

-- `encode` returns bytes, and the colon is never among them.
pub encode-IsTextByte :
    (input : List ℕ)
    → All (IsBelow 256) input
    → (encoded : List ℕ) × (encode input ≡ some encoded) × All IsTextByte encoded
encode-IsTextByte input h = encode-IsTextByte_view (zeros_view input) h

-- The digit that a byte of a text stands for.
unmapped : ℕ → ℕ
unmapped b = if b == 255 then forbidden_byte else b

unmapped_lem : (b : ℕ) → IsTextByte b → (map_digit (unmapped b) ≡ b) × (unmapped b < 255)
unfolding unmapped map_digit
unmapped_lem b h = ground arith

unmapped-pos : (b : ℕ) → 0 < b → 0 < unmapped b
unfolding unmapped
unmapped-pos b h = ground arith

map-unmapped : (bs : List ℕ) → All IsTextByte bs → map map_digit (map unmapped bs) ≡ bs
map-unmapped [] h = refl
map-unmapped (b ∷ bs) h = ap₂ ◌∷◌ (unmapped_lem b h.0).0 (map-unmapped bs h.1)

map-unmapped-IsBelow : (bs : List ℕ) → All IsTextByte bs → All (IsBelow 255) (map unmapped bs)
map-unmapped-IsBelow [] h = tt
map-unmapped-IsBelow (b ∷ bs) h = ((unmapped_lem b h.0).1, map-unmapped-IsBelow bs h.1)

abbrev Reencodes : List ℕ → Type 0
Reencodes text = (bytes : List ℕ) × (decode text ≡ ok bytes) × (encode bytes ≡ some text)

encode-decode_before :
    (n y : ℕ) (ys : List ℕ)
    → 0 < y
    → All IsTextByte (y ∷ ys)
    → Reencodes (reverse (y ∷ ys) ++ replicate n 0)
encode-decode_before n y ys p h =
    let hs : List ℕ = map unmapped (y ∷ ys) in
    let top : 0 < unmapped y = unmapped-pos y p in
    let below : All (IsBelow 255) hs = map-unmapped-IsBelow (y ∷ ys) h in
    let (bytes, (d, v, b, c)) = decode_digits n (unmapped y) (map unmapped ys) top below in
    let pos : 0 < value 256 bytes =
      omega (arith, v, value-leading 255 (unmapped y) (map unmapped ys) (omega arith) top) in
    let (x, xs, turned) = reverse_view 256 bytes pos in
    let lead : 0 < x = IsCanonical-leading 256 x xs (subst (IsCanonical 256) turned c) in
    let core : reverse bytes ≡ x ∷ xs = ap reverse turned ∙ reverse-reverse (x ∷ xs) in
    let small : All (IsBelow 256) (x ∷ xs) =
      subst (All (IsBelow 256)) core (All-reverse (IsBelow 256) bytes b) in
    let (ds, e, (v', b', c')) = encode_core_lem n x xs lead small in
    let same : ds ≡ reverse hs =
      value-injective 255 ds (reverse hs) b' (All-reverse (IsBelow 255) hs below) c'
        (leading-IsCanonical 255 (unmapped y) (map unmapped ys) (omega arith) top)
        (v' ∙ ap (value 256) (sym turned) ∙ v) in
    let text : reverse (map map_digit hs) ≡ reverse (y ∷ ys) =
      ap reverse (map-unmapped (y ∷ ys) h) in
    (
      replicate n 0 ++ reverse bytes,
      ap (λ u. decode (u ++ replicate n 0)) (sym text) ∙ d,
      ap (λ u. encode (replicate n 0 ++ u)) core
          ∙ encode-before n x xs lead
          ∙ e
          ∙ ap (λ u. some (u ++ replicate n 0))
              (ap (map map_digit) same ∙ map-reverse map_digit hs ∙ text),
    )

encode-decode_view :
    {r : List ℕ}
    → ZerosView r
    → (text : List ℕ) → text ≡ reverse r
    → All IsTextByte r
    → Reencodes text
encode-decode_view (all n) text e h =
    subst Reencodes (sym (e ∙ reverse-replicate n)) (replicate n 0, decode-all n, encode-all n)
encode-decode_view (before n y ys p) text e h =
    let shape : text ≡ reverse (y ∷ ys) ++ replicate n 0 =
      e
      ∙ reverse-append (replicate n 0) (y ∷ ys)
      ∙ ap (λ u. reverse (y ∷ ys) ++ u) (reverse-replicate n) in
    subst Reencodes (sym shape)
      (encode-decode_before n y ys p (All-append_right IsTextByte (replicate n 0) (y ∷ ys) h))

-- Every list of bytes with no colon in it is the encoding of exactly what it decodes to.
pub encode-decode :
    (text : List ℕ)
    → All IsTextByte text
    → (bytes : List ℕ) × (decode text ≡ ok bytes) × (encode bytes ≡ some text)
encode-decode text h =
    encode-decode_view (zeros_view (reverse text)) text (sym (reverse-reverse text))
      (All-reverse IsTextByte text h)
