-- ===== src/XHash/Streamed.antt =====
-- A hash of parts, and the hash of the whole.
use npm.Common.{
  ℕ, ◌+◌, ◌<◌, ◌≤◌, List, [], ◌∷◌, ◌++◌, ltb, length, take, drop, ◌≡◌, refl, sym, ap, ◌∙◌, arith,
  Bool-cases, inl, inr, length-append, take-prefix, length-take, length-drop, length-replicate,
  append_assoc, append-nil, ltb→lt, lt→ltb, ltb→ge, ge→ltb, le→leb, gt→leb,
}
use npm.XHash.{hash128_len, Xxh3, Hasher, xhash, new, flushed, write, finish, iter}
use mathlib.Core.List.{foldl}

unfoldable pub joined : List (List ℕ) → List ℕ
joined [] = []
joined (part ∷ parts) = part ++ joined parts

-- What the hasher is documented to do: the digest of the updates is the hash of the whole.
pub record Streams {H : Type 0} (xxh3 : Xxh3 H) : Type 0 where
  pub digest-updates :
      (parts : List (List ℕ))
      → xxh3.digest128 (foldl xxh3.update xxh3.hasher parts) ≡ xxh3.hash128 (joined parts)

joined-snoc :
    (parts : List (List ℕ)) (part : List ℕ) → joined (parts ++ (part ∷ [])) ≡ joined parts ++ part
unfolding joined
joined-snoc [] part = append-nil part
joined-snoc (p ∷ parts) part =
    ap (λ t. p ++ t) (joined-snoc parts part) ∙ sym (append_assoc p (joined parts) part)

foldl-snoc :
    {A B : Type 0} (f : A → B → A) (a : A) (bs : List B) (b : B)
    → foldl f a (bs ++ (b ∷ [])) ≡ f (foldl f a bs) b
foldl-snoc f a [] b = refl
foldl-snoc f a (c ∷ bs) b = foldl-snoc f (f a c) bs b

nil_of : (xs : List ℕ) → length xs ≡ 0 → [] ≡ xs
nil_of [] h = refl
nil_of (x ∷ xs) h = absurd (omega (arith, h))

module _ {H : Type 0} (xxh3 : Xxh3 H) where
  -- Up to 16 bytes stand in the buffer, more have gone to the hasher.
  data IsFed (hasher : H) (buf : List ℕ) (len : ℕ) (total : List ℕ) : Type 0 where
    buffered :
        len ≡ length total
        → length buf ≡ 16
        → len ≤ 16
        → take len buf ≡ total
        → hasher ≡ xxh3.hasher
        → IsFed hasher buf len total
    hashed :
        len ≡ length total
        → 16 < len
        → (parts : List (List ℕ)) → hasher ≡ foldl xxh3.update xxh3.hasher parts
        → joined parts ≡ total
        → IsFed hasher buf len total

  Fed : Hasher H → List ℕ → Type 0
  Fed s total = IsFed s.hasher s.buf s.len total

  len_of :
      (s : Hasher H) (total bytes : List ℕ)
      → Fed s total
      → s.len + length bytes ≡ length (total ++ bytes)
  unfolding Fed
  len_of s total bytes (buffered n size short t h) = omega (arith, length-append total bytes, n)
  len_of s total bytes (hashed n long parts h j) = omega (arith, length-append total bytes, n)

  -- The hasher before the bytes that overflow the buffer, or that follow.
  flushed_parts :
      (s : Hasher H) (total : List ℕ)
      → Fed s total
      → (parts : List (List ℕ)) × (flushed xxh3 s ≡ foldl xxh3.update xxh3.hasher parts)
        × (joined parts ≡ total)
  unfolding flushed Fed joined
  flushed_parts s total (hashed n long parts h j) = (parts, rw (gt→leb s.len 16 long, flushed) h, j)
  flushed_parts s total (buffered n size short t h) = elim (Bool-cases (ltb 0 s.len)) [
    | inl some_bytes ↦
        (total ∷ [], rw (le→leb s.len 16 short, flushed, some_bytes, t, h) refl, append-nil total)
    | inr empty ↦ (
      [],
      rw (le→leb s.len 16 short, flushed, empty, h) refl,
      nil_of total (omega (arith, n, ltb→ge 0 s.len empty)),
    )
  ]

  -- Bytes that still fit.
  write_fits :
      (hasher : H) (buf : List ℕ) (len : ℕ) (total bytes : List ℕ)
      → len + length bytes ≤ 16
      → IsFed hasher buf len total
      → IsFed hasher
          (take len buf ++ (bytes ++ drop (len + length bytes) buf))
          (len + length bytes)
          (total ++ bytes)
  write_fits hasher buf len total bytes fits (hashed n long parts h j) = absurd (omega arith)
  write_fits hasher buf len total bytes fits (buffered n size short t h) =
      let rest : List ℕ = drop (len + length bytes) buf in
      let taken : length (take len buf) ≡ len = length-take len buf (omega (arith, size)) in
      buffered (omega (arith, length-append total bytes, n))
        (omega (
          arith,
          length-append (take len buf) (bytes ++ rest),
          length-append bytes rest,
          taken,
          length-drop (len + length bytes) buf,
          size,
        ))
        fits
        (rw (sym (append_assoc (take len buf) bytes rest)) (
          take-prefix (take len buf ++ bytes) rest (len + length bytes)
            (omega (arith, length-append (take len buf) bytes, taken))
          ∙ ap (λ x. x ++ bytes) t))
        h

  write-Fed :
      (s : Hasher H) (total bytes : List ℕ)
      → Fed s total
      → Fed (write xxh3 s bytes) (total ++ bytes)
  unfolding write Fed
  write-Fed s total [] f = rw (append-nil total) f
  write-Fed s total (b ∷ bs) f =
      let n : ℕ = s.len + length (b ∷ bs) in
      elim (Bool-cases (ltb hash128_len n)) [
        | inl over ↦
            let (parts, h, j) = flushed_parts s total f in
            rw (over, write)
              (hashed (len_of s total (b ∷ bs) f) (ltb→lt 16 n over) (parts ++ ((b ∷ bs) ∷ []))
                (rw h (sym (foldl-snoc xxh3.update xxh3.hasher parts (b ∷ bs))))
                (joined-snoc parts (b ∷ bs) ∙ ap (λ x. x ++ (b ∷ bs)) j))
        | inr fits ↦
            rw (fits, write) (write_fits s.hasher s.buf s.len total (b ∷ bs) (ltb→ge 16 n fits) f)
      ]

  writes-Fed :
      (parts : List (List ℕ)) (s : Hasher H) (total : List ℕ)
      → Fed s total
      → Fed (foldl (write xxh3) s parts) (total ++ joined parts)
  unfolding joined
  writes-Fed [] s total f = rw (append-nil total) f
  writes-Fed (part ∷ parts) s total f =
      rw (sym (append_assoc total part (joined parts)))
        (writes-Fed parts (write xxh3 s part) (total ++ part) (write-Fed s total part f))

  module _ (streams : Streams xxh3) where
    finish-Fed : (s : Hasher H) (total : List ℕ) → Fed s total → finish xxh3 s ≡ xhash xxh3 total
    unfolding finish xhash Fed
    finish-Fed s total (hashed n long parts h j) =
        rw
          (
            lt→ltb 16 s.len long,
            finish,
            sym n,
            lt→ltb 16 s.len long,
            xhash,
            h,
            streams.digest-updates parts,
            j,
          )
          refl
    finish-Fed s total (buffered n size short t h) =
        rw (ge→ltb 16 s.len short, finish, ge→ltb 16 (length total) (omega (arith, n)), xhash) t

    -- A hasher that is given the parts of an input gives the hash of the whole, however the input is
    -- cut, if the digest of the crate's hasher is the hash of all that it was given.
    pub iter-xhash : (parts : List (List ℕ)) → iter xxh3 parts ≡ xhash xxh3 (joined parts)
    unfolding iter new Fed
    iter-xhash parts = finish-Fed (foldl (write xxh3) (new xxh3) parts) (joined parts) (
        writes-Fed parts (new xxh3) []
          (buffered refl (length-replicate {A = ℕ} 16 0) (omega arith) refl refl))
