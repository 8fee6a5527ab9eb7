-- ===== src/DnsParse/Asked.antt =====
-- A query read back.
use npm.Common.{
  ℕ, zero, suc, ◌+◌, ◌%◌, ◌/◌, ◌≤◌, ◌<◌, Bool, true, false, Option, some, List, [], ◌∷◌, ◌++◌, ◌≡◌,
  refl, sym, ap, ◌∙◌, arith, append_assoc, ltb, length, take, drop, get_elem?, All, length-append,
  holds_under, holds_under-at, not,
}
use npm.Text.{Text, split, is_dot, join, is_empty}
use npm.Text.Joined.{join-split}
use npm.DnsParse.{ok, Bytes, slice, byte_at, u16_at}
use npm.DnsParse.Name.{is_pointer, push_label, dotted, label_text, valid_or_empty, read_name}
use npm.DnsParse.Labels.{foldl-push_label}
use npm.DnsParse.Rounds.{Rounds, root, label, name_of, read_name-Rounds}
use npm.DnsParse.Query.{put_label, put_labels, header, trailer, build, put_u16}

-- The bytes of a string, and what is read from them.
pub record Utf8 : Type 0 where
  pub from_utf8 : Bytes → Option Text
  pub as_bytes : Text → Bytes
  pub from_utf8-as_bytes : (s : Text) → from_utf8 (as_bytes s) ≡ some s

-- A label that is not empty, of less bytes than the two top bits of a length mark.
abbrev pub Fits : (Text → Bytes) → Text → Type 0
Fits as_bytes l = (is_empty l ≡ false) × (1 ≤ length (as_bytes l)) × (length (as_bytes l) < 192)

marks_below : holds_under (λ n. not (is_pointer n)) 192 ≡ true
unfolding holds_under is_pointer
marks_below = refl

negated_away : (b : Bool) → not b ≡ true → b ≡ false
negated_away true h = cc
negated_away false h = refl

not_below : (a b : ℕ) → b ≤ a → ltb a b ≡ false
not_below a b h = ground arith

no_mark : (n : ℕ) → n < 192 → is_pointer n ≡ false
no_mark n h =
    negated_away (is_pointer n) (holds_under-at (λ n. not (is_pointer n)) 192 n h marks_below)

module _ {ℓ} {A : Type ℓ} where
  get_elem?-middle : (xs ys : List A) (a : A) → get_elem? (xs ++ (a ∷ ys)) (length xs) ≡ some a
  get_elem?-middle [] ys a = refl
  get_elem?-middle (x ∷ xs) ys a = get_elem?-middle xs ys a

  drop-prefix : (xs ys : List A) (n : ℕ) → n ≡ length xs → drop n (xs ++ ys) ≡ ys
  drop-prefix [] ys n h = rw h refl
  drop-prefix (x ∷ xs) ys zero h = absurd (omega (arith, h))
  drop-prefix (x ∷ xs) ys (suc n) h = drop-prefix xs ys n (omega (arith, h))

  take-prefix : (xs ys : List A) → take (length xs) (xs ++ ys) ≡ xs
  take-prefix [] ys = refl
  take-prefix (x ∷ xs) ys = ap (λ t. x ∷ t) (take-prefix xs ys)

  get_elem?-after :
      (xs ys : List A) (a : A) (i : ℕ) → i ≡ length xs → get_elem? (xs ++ (a ∷ ys)) i ≡ some a
  get_elem?-after xs ys a i h = rw h (get_elem?-middle xs ys a)

byte_at-get_elem? : (bytes : Bytes) (i b : ℕ) → get_elem? bytes i ≡ some b → byte_at bytes i ≡ b
unfolding byte_at
byte_at-get_elem? bytes i b h = rw (h, byte_at) refl

u16_at-put_u16 :
    (before after : Bytes) (n e : ℕ)
    → e ≡ length before
    → u16_at (before ++ (put_u16 n ++ after)) e ≡ n
unfolding u16_at put_u16
u16_at-put_u16 before after n e h =
    let whole : Bytes = before ++ (n / 256 ∷ n % 256 ∷ after) in
    let start : e + 1 ≡ length (before ++ (n / 256 ∷ [])) =
      omega (arith, length-append before (n / 256 ∷ [])) in
    let high : byte_at whole e ≡ n / 256 =
      byte_at-get_elem? whole e (n / 256)
        (get_elem?-after before (n % 256 ∷ after) (n / 256) e h) in
    let low : byte_at whole (e + 1) ≡ n % 256 = byte_at-get_elem? whole (e + 1) (n % 256) (
      rw (sym (append_assoc before (n / 256 ∷ []) (n % 256 ∷ after)))
        (get_elem?-after (before ++ (n / 256 ∷ [])) after (n % 256) (e + 1) start)) in
    rw (high, low) (omega arith)

module _ (from_utf8 : Bytes → Option Text) (before bs rest : Bytes) where
  abbrev whole : Bytes
  whole = before ++ (length bs ∷ (bs ++ rest))

  label_text-ahead :
      (text : Text)
      → from_utf8 bs ≡ some text
      → label_text from_utf8 whole (length before + 1) (length bs) ≡ text
  unfolding label_text slice valid_or_empty
  label_text-ahead text h =
      let split : before ++ (length bs ∷ (bs ++ rest))
          ≡ (before ++ (length bs ∷ [])) ++ (bs ++ rest) =
        sym (append_assoc before (length bs ∷ []) (bs ++ rest)) in
      let start : length before + 1 ≡ length (before ++ (length bs ∷ [])) =
        omega (arith, length-append before (length bs ∷ [])) in
      rw
        (
          split,
          drop-prefix (before ++ (length bs ∷ [])) (bs ++ rest) (length before + 1) start,
          take-prefix bs rest,
          h,
        )
        refl

  label_ahead :
      (fuel : ℕ) (text : Text) (labels : List Text) (e : ℕ)
      → 1 ≤ length bs
      → length bs < 192
      → from_utf8 bs ≡ some text
      → Rounds from_utf8 whole fuel (length before + 1 + length bs) labels e
      → Rounds from_utf8 whole (suc fuel) (length before) (text ∷ labels) e
  label_ahead fuel text labels e filled small h next =
      let inside : length whole ≡ length before + suc (length bs + length rest) =
        omega (arith, length-append before (length bs ∷ (bs ++ rest)), length-append bs rest) in
      rw (sym (label_text-ahead text h)) (
        label fuel (length before) (length bs) labels e
          (get_elem?-middle before (bs ++ rest) (length bs)) (ground arith)
          (no_mark (length bs) small) (not_below _ _ (omega arith)) next)

module _ (u : Utf8) where
  -- The labels as they stand in a message.
  Rounds-put_labels :
      (fuel : ℕ) (before : Bytes) (labels : List Text) (after : Bytes)
      → All (Fits u.as_bytes) labels
      → length labels < fuel
      → Rounds u.from_utf8
          (before ++ (put_labels u.as_bytes labels ++ after))
          fuel
          (length before)
          labels
          (length before + length (put_labels u.as_bytes labels))
  unfolding put_labels put_label
  Rounds-put_labels zero before labels after fits h = absurd (omega arith)
  Rounds-put_labels (suc fuel) before [] after fits h =
      root fuel (length before) (get_elem?-middle before after 0)
  Rounds-put_labels (suc fuel) before (l ∷ labels) after fits h =
      let bs : Bytes = u.as_bytes l in
      let rest : Bytes = put_labels u.as_bytes labels ++ after in
      let short : length bs % 256 ≡ length bs = omega (arith, fits.0.2) in
      let shape : (before ++ (length bs ∷ bs)) ++ rest ≡ before ++ (length bs ∷ (bs ++ rest)) =
        append_assoc before (length bs ∷ bs) rest in
      let next : Rounds u.from_utf8 ((before ++ (length bs ∷ bs)) ++ rest) fuel
          (length (before ++ (length bs ∷ bs))) labels
          (length (before ++ (length bs ∷ bs)) + length (put_labels u.as_bytes labels)) =
        Rounds-put_labels fuel (before ++ (length bs ∷ bs)) labels after fits.1 (omega arith) in
      let puts : Bytes = put_labels u.as_bytes labels in
      let start : length (before ++ (length bs ∷ bs)) ≡ length before + 1 + length bs =
        omega (arith, length-append before (length bs ∷ bs)) in
      let stop : length (before ++ (length bs ∷ bs)) + length puts
          ≡ length before + suc (length (bs ++ puts)) =
        omega (arith, length-append before (length bs ∷ bs), length-append bs puts) in
      rw (short, append_assoc bs puts after)
        (label_ahead u.from_utf8 before bs rest fuel l labels
          (length before + suc (length (bs ++ puts))) fits.0.1 fits.0.2 (u.from_utf8-as_bytes l)
          (rw (shape, stop, start) at next))

  name_of-join :
      (labels : List Text) → All (Fits u.as_bytes) labels → name_of labels ≡ join (b'.' ∷ []) labels
  unfolding name_of push_label dotted is_empty join
  name_of-join [] fits = refl
  name_of-join (l ∷ labels) fits = foldl-push_label l labels fits.0.0

  -- Of a query for a domain whose labels have 1 to 191 bytes, reading the name at its question, with
  -- more fuel than labels, gives the domain and where the question type stands, which is read back.
  pub read_name-build :
      (id qtype : ℕ) (domain : Text) (fuel : ℕ)
      → All (Fits u.as_bytes) (split is_dot domain)
      → length (split is_dot domain) < fuel
      → (e : ℕ) × (read_name u.from_utf8 fuel (build u.as_bytes id domain qtype) 12
          ≡ ok (domain, e))
        × (u16_at (build u.as_bytes id domain qtype) e ≡ qtype)
  unfolding build header put_u16 trailer
  read_name-build id qtype domain fuel fits h =
      let labels : List Text = split is_dot domain in
      let e : ℕ = 12 + length (put_labels u.as_bytes labels) in
      let at : Rounds u.from_utf8 (build u.as_bytes id domain qtype) fuel 12 labels e =
        Rounds-put_labels fuel (header id) labels (trailer qtype) fits h in
      let same : domain ≡ name_of labels = sym (name_of-join labels fits ∙ join-split domain) in
      (
        e,
        (read_name-Rounds u.from_utf8 (build u.as_bytes id domain qtype) fuel 12 domain e).1
            (labels, at, same),
        u16_at-put_u16 (header id ++ put_labels u.as_bytes labels)
            (0 ∷ 1 ∷ 0 ∷ 0 ∷ 41 ∷ 16 ∷ 0 ∷ 0 ∷ 0 ∷ 0 ∷ 0 ∷ 0 ∷ 0 ∷ []) qtype e
            (omega (arith, length-append (header id) (put_labels u.as_bytes labels))),
      )
