-- ===== src/DnsParse/Named.antt =====
-- What a message holds at a position, after RFC 1035: a name is its labels up to a byte of zero, and
-- a byte of 192 or more begins a pointer, whose other 14 bits tell where the name goes on. Where the
-- RFC reserves the bytes 64 to 191, they are lengths here.
use npm.Common.{
  ℕ, zero, suc, ◌+◌, ◌-◌, ◌*◌, ◌≤◌, ◌<◌, Bool, true, false, not, ◌&&◌, Option, none, some, List, [],
  ◌∷◌, ◌≡◌, refl, sym, ◌∙◌, arith, ltb, ◌==◌, if◌then◌else◌, length, take, drop, get_elem?, All,
  ==_iff, ◌↔◌, holds_under, holds_under-at, ltb→ge, ltb→lt, Bool-cases, inl, inr,
}
use npm.Text.{Text, join}
use npm.DnsParse.{ok, Bytes, slice}
use npm.DnsParse.Name.{is_pointer, pointer_offset, valid_or_empty, label_text, read_name}
use npm.DnsParse.Labels.{drop_empty, foldl-drop_empty}
use npm.DnsParse.Rounds.{Rounds, name_of, read_name-Rounds}
use npm.Common.Bits.{bit_or_disjoint}
use Prim.Native.Nat.{bit_and}

-- The text of a label; one that is not UTF-8 counts as empty.
abbrev pub IsText : Option Text → Text → Type 0
IsText none text = text ≡ []
IsText (some s) text = text ≡ s

-- The labels at a position, the number of bytes and pointers that are followed, and the position
-- behind the name.
pub data NameAt (from_utf8 : Bytes → Option Text) (bytes : Bytes)
    : ℕ → ℕ → List Text → ℕ → Type 0 where
  root :
      (n pos : ℕ) → get_elem? bytes pos ≡ some 0 → NameAt from_utf8 bytes (suc n) pos [] (pos + 1)
  label :
      (n pos len : ℕ) (text : Text) (labels : List Text) (end_pos : ℕ)
      → get_elem? bytes pos ≡ some len
      → 1 ≤ len
      → len < 192
      → pos + 1 + len ≤ length bytes
      → IsText (from_utf8 (take len (drop (pos + 1) bytes))) text
      → NameAt from_utf8 bytes n (pos + 1 + len) labels end_pos
      → NameAt from_utf8 bytes (suc n) pos (text ∷ labels) end_pos
  pointer :
      (n pos high low : ℕ) (labels : List Text) (end_pos : ℕ)
      → get_elem? bytes pos ≡ some high
      → 192 ≤ high
      → get_elem? bytes (pos + 1) ≡ some low
      → NameAt from_utf8 bytes n ((high - 192) * 256 + low) labels end_pos
      → NameAt from_utf8 bytes (suc n) pos labels (pos + 2)

-- Every byte is tried.
abbrev marks_right : ℕ → Bool
marks_right n =
    if ltb n 192 then not (is_pointer n) else is_pointer n && (bit_and n 0x3F == n - 192)

marks : holds_under marks_right 256 ≡ true
unfolding holds_under is_pointer
marks = refl

mark_below : (n : ℕ) → n < 192 → is_pointer n ≡ false
mark_below n h = ground (arith, holds_under-at marks_right 256 n (omega arith) marks)

mark_above : (n : ℕ) → 192 ≤ n → n < 256 → (is_pointer n ≡ true) × (bit_and n 0x3F ≡ n - 192)
mark_above n h small =
    ground (arith, holds_under-at marks_right 256 n small marks, ==_iff (bit_and n 0x3F) (n - 192))

pointer_offset_lem :
    (high low : ℕ)
    → 192 ≤ high
    → high < 256
    → low < 256
    → pointer_offset high low ≡ (high - 192) * 256 + low
unfolding pointer_offset
pointer_offset_lem high low above small low_small =
    rw ((mark_above high above small).1) (bit_or_disjoint 8 (high - 192) low low_small)

byte_small :
    (bytes : Bytes) (i b : ℕ) → All (λ b. b < 256) bytes → get_elem? bytes i ≡ some b → b < 256
byte_small [] i b all h = cc
byte_small (x ∷ bytes) zero b all h = let same : x ≡ b = cc in rw same at all.0
byte_small (x ∷ bytes) (suc i) b all h = byte_small bytes i b all.1 h

text_lem : (o : Option Text) (text : Text) → IsText o text → valid_or_empty o ≡ text
unfolding valid_or_empty
text_lem none text h = sym h
text_lem (some s) text h = sym h

valid-IsText : (o : Option Text) → IsText o (valid_or_empty o)
unfolding valid_or_empty
valid-IsText none = refl
valid-IsText (some s) = refl

below_pointer : (n : ℕ) → n < 256 → is_pointer n ≡ false → n < 192
below_pointer n small h = elim (Bool-cases (ltb n 192)) [
  | inl e ↦ ltb→lt n 192 e
  | inr e ↦ absurd (cc (mark_above n (ltb→ge n 192 e) small).0)
]

above_pointer : (n : ℕ) → is_pointer n ≡ true → 192 ≤ n
above_pointer n h = elim (Bool-cases (ltb n 192)) [
  | inl e ↦ absurd (cc (mark_below n (ltb→lt n 192 e)))
  | inr e ↦ ltb→ge n 192 e
]

module _ (from_utf8 : Bytes → Option Text) (bytes : Bytes) (all : All (λ b. b < 256) bytes) where
  NameAt-Rounds :
      {n pos e : ℕ} {labels : List Text}
      → Rounds from_utf8 bytes n pos labels e
      → NameAt from_utf8 bytes n pos labels e
  unfolding label_text slice
  NameAt-Rounds (Rounds.root n pos h) = root n pos h
  NameAt-Rounds (Rounds.label n pos len labels e h nonzero plain inside rest) =
      label n pos len (label_text from_utf8 bytes (pos + 1) len) labels e h (ground arith)
        (below_pointer len (byte_small bytes pos len all h) plain)
        (ltb→ge (length bytes) (pos + 1 + len) inside)
        (valid-IsText (from_utf8 (slice bytes (pos + 1) len))) (NameAt-Rounds rest)
  NameAt-Rounds (Rounds.pointer n pos len low labels e h nonzero is low_at rest) =
      let above : 192 ≤ len = above_pointer len is in
      let rest_at : NameAt from_utf8 bytes n (pointer_offset len low) labels _ =
        NameAt-Rounds rest in
      pointer n pos len low labels e h above low_at (
        rw
          (pointer_offset_lem len low above (byte_small bytes pos len all h)
            (byte_small bytes (pos + 1) low all low_at))
          at rest_at)

  Rounds-NameAt :
      {n pos e : ℕ} {labels : List Text}
      → NameAt from_utf8 bytes n pos labels e
      → Rounds from_utf8 bytes n pos labels e
  unfolding label_text slice
  Rounds-NameAt (root n pos h) = Rounds.root n pos h
  Rounds-NameAt (label n pos len text labels e h filled small inside is rest) =
      rw (sym (text_lem (from_utf8 (slice bytes (pos + 1) len)) text is)) (
        Rounds.label n pos len labels e h (ground arith) (mark_below len small) (ground arith)
          (Rounds-NameAt rest))
  Rounds-NameAt (pointer n pos high low labels e h above low_at rest) =
      let small : high < 256 = byte_small bytes pos high all h in
      Rounds.pointer n pos high low labels e h (ground arith) (mark_above high above small).0 low_at
        (rw (pointer_offset_lem high low above small (byte_small bytes (pos + 1) low all low_at))
          (Rounds-NameAt rest))

-- Of a message of bytes below 256, reading a name with some fuel gives a text and an end exactly when
-- the message holds, within as many steps, a name with this end whose labels, from the first that is
-- not empty, make this text with dots between them.
pub read_name_iff :
    (from_utf8 : Bytes → Option Text) (bytes : Bytes) (fuel pos : ℕ) (name : Text) (e : ℕ)
    → All (λ b. b < 256) bytes
    → (read_name from_utf8 fuel bytes pos ≡ ok (name, e)) ↔ (
        (labels : List Text) × NameAt from_utf8 bytes fuel pos labels e
        × (name ≡ join (b'.' ∷ []) (drop_empty labels)))
unfolding name_of
read_name_iff from_utf8 bytes fuel pos name e all = (
  λ h.
      let (labels, rounds, is) = (read_name-Rounds from_utf8 bytes fuel pos name e).0 h in
      (labels, NameAt-Rounds from_utf8 bytes all rounds, is ∙ foldl-drop_empty labels),
  λ s.
      (read_name-Rounds from_utf8 bytes fuel pos name e).1
        (s.0, Rounds-NameAt from_utf8 bytes all s.1, s.2 ∙ sym (foldl-drop_empty s.0)),
)
