-- ===== src/B255/Errors.antt =====
-- The error path of `decode`.
use npm.Common.{
  ℕ, zero, suc, ◌≡◌, ◌⊎◌, inl, inr, refl, sym, ap, ◌∙◌, arith, List, [], ◌∷◌, ◌++◌, reverse,
  replicate, reverse-append, reverse-reverse, append_assoc, ◌==◌, Bool-cases,
}
use mathlib.Core.Path.{subst}
use npm.B255.Util.{forbidden_byte}
use npm.B255.Decode.{err, invalid_byte, decode_loop, decode, unmap_byte, mul_add255}
use npm.B255.Codec.Zeros.{ZerosView, all, before, zeros_view, reverse-replicate, decode-before}

-- The forbidden byte occurs.
abbrev HasForbidden : List ℕ → Type 0
HasForbidden [] = ⊥
HasForbidden (b ∷ bs) = (b ≡ forbidden_byte) ⊎ HasForbidden bs

HasForbidden-append_right : (xs ys : List ℕ) → HasForbidden ys → HasForbidden (xs ++ ys)
HasForbidden-append_right [] ys h = h
HasForbidden-append_right (x ∷ xs) ys h = inr (HasForbidden-append_right xs ys h)

zeros-HasForbidden : (n : ℕ) (ys : List ℕ) → HasForbidden (replicate n 0 ++ ys) → HasForbidden ys
zeros-HasForbidden zero ys h = h
zeros-HasForbidden (suc n) ys (inl e) = absurd (omega arith)
zeros-HasForbidden (suc n) ys (inr h) = zeros-HasForbidden n ys h

all-HasForbidden : (n : ℕ) → ¬ HasForbidden (replicate n 0)
all-HasForbidden zero h = h
all-HasForbidden (suc n) (inl e) = omega arith
all-HasForbidden (suc n) (inr h) = all-HasForbidden n h

decode_loop-HasForbidden :
    (xs num : List ℕ) → HasForbidden xs → decode_loop xs num ≡ err (invalid_byte forbidden_byte)
unfolding decode_loop unmap_byte
decode_loop-HasForbidden [] num h = absurd h
decode_loop-HasForbidden (x ∷ xs) num (inl e) = ground arith
decode_loop-HasForbidden (x ∷ xs) num (inr h) = elim (Bool-cases (x == forbidden_byte)) [
  | inl bad ↦ rw bad
  | inr fine ↦ rw fine (elim (Bool-cases (x == 255)) [
    | inl top ↦ rw top (decode_loop-HasForbidden xs (mul_add255 num forbidden_byte) h)
    | inr plain ↦ rw plain (decode_loop-HasForbidden xs (mul_add255 num x) h)
  ])
]

decode_view :
    {r : List ℕ}
    → ZerosView r
    → (text : List ℕ) → text ≡ reverse r
    → HasForbidden r
    → decode text ≡ err (invalid_byte forbidden_byte)
decode_view (all n) text e h = absurd (all-HasForbidden n h)
decode_view (before n y ys p) text e h =
    let shape : text ≡ reverse (y ∷ ys) ++ replicate n 0 =
      e
      ∙ reverse-append (replicate n 0) (y ∷ ys)
      ∙ ap (λ u. reverse (y ∷ ys) ++ u) (reverse-replicate n) in
    ap decode shape
    ∙ decode-before n y ys p
    ∙ rw (decode_loop-HasForbidden (y ∷ ys) (0 ∷ []) (zeros-HasForbidden n (y ∷ ys) h))

-- A text with a colon anywhere in it is refused, and the error names the colon.
pub decode_refuses :
    (front back : List ℕ)
    → decode (front ++ (forbidden_byte ∷ back)) ≡ err (invalid_byte forbidden_byte)
decode_refuses front back =
    let text : List ℕ = front ++ (forbidden_byte ∷ back) in
    let turned : reverse text ≡ reverse (forbidden_byte ∷ back) ++ reverse front =
      reverse-append front (forbidden_byte ∷ back) in
    let cons : reverse (forbidden_byte ∷ back) ≡ reverse back ++ (forbidden_byte ∷ []) =
      reverse-append {A = ℕ} (forbidden_byte ∷ []) back in
    let shape : reverse text ≡ reverse back ++ (forbidden_byte ∷ reverse front) =
      turned
      ∙ ap (λ u. u ++ reverse front) cons
      ∙ append_assoc (reverse back) (forbidden_byte ∷ []) (reverse front) in
    decode_view (zeros_view (reverse text)) text (sym (reverse-reverse text)) (
      subst HasForbidden (sym shape)
        (HasForbidden-append_right (reverse back) (forbidden_byte ∷ reverse front) (inl refl)))
