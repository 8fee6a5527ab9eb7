-- ===== src/DnsParse/Rounds.antt =====
-- The rounds of `read_name` as a relation, with the code's own tests of a byte.
use npm.Common.{
  ◌∙◌, ℕ, zero, suc, ◌+◌, ◌≤◌, ◌<◌, Bool, true, false, Option, some, List, [], ◌∷◌, ◌≡◌, refl, sym,
  ap, arith, ltb, ◌==◌, if◌then◌else◌, length, get_elem?, Bool-cases, Option-cases, ==_iff, inl,
  inr, ◌↔◌,
}
use npm.Text.{Text}
use npm.DnsParse.{ok, out_of_fuel, Bytes}
use npm.DnsParse.Name.{
  is_pointer, pointer_offset, push_label, label_text, pointer_round, label_round, name_round,
  read_loop, read_name,
}
use mathlib.Core.List.{foldl}

-- The labels read from a position, the number of bytes and pointers that are followed, and the position
-- behind the name.
pub data Rounds (from_utf8 : Bytes → Option Text) (bytes : Bytes)
    : ℕ → ℕ → List Text → ℕ → Type 0 where
  root :
      (n pos : ℕ) → get_elem? bytes pos ≡ some 0 → Rounds from_utf8 bytes (suc n) pos [] (pos + 1)
  label :
      (n pos len : ℕ) (labels : List Text) (end_pos : ℕ)
      → get_elem? bytes pos ≡ some len
      → (len == 0) ≡ false
      → is_pointer len ≡ false
      → ltb (length bytes) (pos + 1 + len) ≡ false
      → Rounds from_utf8 bytes n (pos + 1 + len) labels end_pos
      → Rounds from_utf8 bytes
          (suc n)
          pos
          (label_text from_utf8 bytes (pos + 1) len ∷ labels)
          end_pos
  pointer :
      (n pos len low : ℕ) (labels : List Text) (end_pos : ℕ)
      → get_elem? bytes pos ≡ some len
      → (len == 0) ≡ false
      → is_pointer len ≡ true
      → get_elem? bytes (pos + 1) ≡ some low
      → Rounds from_utf8 bytes n (pointer_offset len low) labels end_pos
      → Rounds from_utf8 bytes (suc n) pos labels (pos + 2)

abbrev pub end_after : Bool → ℕ → ℕ → ℕ
end_after jumped end_pos e = if jumped then end_pos else e

unfoldable pub name_of : List Text → Text
name_of labels = foldl push_label [] labels

module _ (from_utf8 : Bytes → Option Text) (bytes : Bytes) where
  -- What the loop returns when it stands at a name.
  read_loop-Rounds :
      {n cur e : ℕ} {labels : List Text} (jumped : Bool) (end_pos : ℕ) (name : Text)
      → Rounds from_utf8 bytes n cur labels e
      → read_loop from_utf8 n bytes cur jumped end_pos name
        ≡ ok (foldl push_label name labels, end_after jumped end_pos e)
  unfolding read_loop name_round pointer_round label_round
  read_loop-Rounds jumped end_pos name (root n pos h) = rw (h, read_loop, name_round) refl
  read_loop-Rounds jumped end_pos name (label n pos len labels e h nonzero plain inside rest) =
      rw (h, read_loop, name_round, label_round, nonzero, plain, inside)
        (read_loop-Rounds jumped end_pos
          (push_label name (label_text from_utf8 bytes (pos + 1) len)) rest)
  read_loop-Rounds jumped end_pos name (pointer n pos len low labels e h nonzero is low_at rest) =
      rw (h, read_loop, name_round, pointer_round, nonzero, is, low_at)
        (read_loop-Rounds true (end_after jumped end_pos (pos + 2)) name rest)

  Reading : ℕ → ℕ → Bool → ℕ → Text → Text → ℕ → Type 0
  Reading n cur jumped end_pos name r e =
      (labels : List Text) × (e' : ℕ) × Rounds from_utf8 bytes n cur labels e'
      × (r ≡ foldl push_label name labels)
      × (e ≡ end_after jumped end_pos e')

  -- One round before the rest of a name.
  through_label :
      (n cur len : ℕ) (jumped : Bool) (end_pos : ℕ) (name r : Text) (e : ℕ)
      → get_elem? bytes cur ≡ some len
      → (len == 0) ≡ false
      → is_pointer len ≡ false
      → ltb (length bytes) (cur + 1 + len) ≡ false
      → Reading n
          (cur + 1 + len)
          jumped
          end_pos
          (push_label name (label_text from_utf8 bytes (cur + 1) len))
          r
          e
      → Reading (suc n) cur jumped end_pos name r e
  unfolding Reading
  through_label n cur len jumped end_pos name r e at nonzero plain inside
        (labels, e', rest, hr, he) =
      (
        label_text from_utf8 bytes (cur + 1) len ∷ labels,
        e',
        label n cur len labels e' at nonzero plain inside rest,
        hr,
        he,
      )

  through_pointer :
      (n cur len low : ℕ) (jumped : Bool) (end_pos : ℕ) (name r : Text) (e : ℕ)
      → get_elem? bytes cur ≡ some len
      → (len == 0) ≡ false
      → is_pointer len ≡ true
      → get_elem? bytes (cur + 1) ≡ some low
      → Reading n (pointer_offset len low) true (end_after jumped end_pos (cur + 2)) name r e
      → Reading (suc n) cur jumped end_pos name r e
  unfolding Reading
  through_pointer n cur len low jumped end_pos name r e at nonzero is low_at
        (labels, e', rest, hr, he) =
      (labels, cur + 2, pointer n cur len low labels e' at nonzero is low_at rest, hr, he)

  Rounds-read_loop :
      (n cur : ℕ) (jumped : Bool) (end_pos : ℕ) (name r : Text) (e : ℕ)
      → read_loop from_utf8 n bytes cur jumped end_pos name ≡ ok (r, e)
      → Reading n cur jumped end_pos name r e
  unfolding read_loop Reading
  Rounds-read_loop zero cur jumped end_pos name r e h = cc
  Rounds-read_loop (suc n) cur jumped end_pos name r e h =
      elim (Option-cases (get_elem? bytes cur)) [
        | inl missing ↦ absurd (cc (rw (missing, read_loop, name_round) at h))
        | inr (len, at) ↦ elim (Bool-cases (len == 0)) [
          | inl zero_len ↦ (
            [],
            cur + 1,
            root n cur (at ∙ ap some ((==_iff len 0).0 zero_len)),
            cc (rw (at, read_loop, name_round, zero_len) at h),
            cc (rw (at, read_loop, name_round, zero_len) at h),
          )
          | inr nonzero ↦ elim (Bool-cases (is_pointer len)) [
            | inl is ↦ elim (Option-cases (get_elem? bytes (cur + 1))) [
              | inl missing ↦
                  absurd
                    (cc (rw (at, read_loop, name_round, nonzero, is, missing, pointer_round) at h))
              | inr (low, low_at) ↦
                  through_pointer n cur len low jumped end_pos name r e at nonzero is low_at (
                    Rounds-read_loop n (pointer_offset len low) true
                      (end_after jumped end_pos (cur + 2)) name r e
                      (rw (at, read_loop, name_round, nonzero, is, low_at, pointer_round) at h))
            ]
            | inr plain ↦ elim (Bool-cases (ltb (length bytes) (cur + 1 + len))) [
              | inl out ↦
                  absurd
                    (cc (rw (at, read_loop, name_round, nonzero, plain, label_round, out) at h))
              | inr inside ↦
                  through_label n cur len jumped end_pos name r e at nonzero plain inside (
                    Rounds-read_loop n (cur + 1 + len) jumped end_pos
                      (push_label name (label_text from_utf8 bytes (cur + 1) len)) r e
                      (rw (at, read_loop, name_round, nonzero, plain, label_round, inside) at h))
            ]
          ]
        ]
      ]

pub get_elem?-bound :
    {A : Type 0} (xs : List A) (i : ℕ) (a : A) → get_elem? xs i ≡ some a → i < length xs
get_elem?-bound [] i a h = cc
get_elem?-bound (x ∷ xs) zero a h = omega arith
get_elem?-bound (x ∷ xs) (suc i) a h = omega (arith, get_elem?-bound xs i a h)

module _ {from_utf8 : Bytes → Option Text} {bytes : Bytes} where
  pub Rounds-bounds :
      {n pos e : ℕ} {labels : List Text}
      → Rounds from_utf8 bytes n pos labels e
      → (pos < e) × (e ≤ length bytes)
  Rounds-bounds (root n pos h) = (omega arith, omega (arith, get_elem?-bound bytes pos 0 h))
  Rounds-bounds (label n pos len labels e h nonzero plain inside rest) =
      (omega (arith, Rounds-bounds rest), (Rounds-bounds rest).1)
  Rounds-bounds (pointer n pos len low labels e h nonzero is low_at rest) =
      (omega arith, omega (arith, get_elem?-bound bytes (pos + 1) low low_at))

-- Reading a name with some fuel gives a text and an end exactly when there are, within as
-- many steps, rounds with this end whose labels are pushed to this text.
pub read_name-Rounds :
    (from_utf8 : Bytes → Option Text) (bytes : Bytes) (fuel pos : ℕ) (name : Text) (e : ℕ)
    → (read_name from_utf8 fuel bytes pos ≡ ok (name, e))
      ↔ ((labels : List Text) × Rounds from_utf8 bytes fuel pos labels e × (name ≡ name_of labels))
unfolding read_name name_of Reading
read_name-Rounds from_utf8 bytes fuel pos name e = (
  λ h.
      let (labels, e', at, hr, he) =
        Rounds-read_loop from_utf8 bytes fuel pos false pos [] name e h in
      (labels, rw he at, hr),
  λ s. read_loop-Rounds from_utf8 bytes false pos [] s.1 ∙ ap (λ t. ok (t, e)) (sym s.2),
)

pointing_loop :
    (from_utf8 : Bytes → Option Text) (bytes : Bytes) (fuel pos len low : ℕ) (jumped : Bool)
    (end_pos : ℕ) (name : Text)
    → get_elem? bytes pos ≡ some len
    → (len == 0) ≡ false
    → is_pointer len ≡ true
    → get_elem? bytes (pos + 1) ≡ some low
    → pointer_offset len low ≡ pos
    → read_loop from_utf8 fuel bytes pos jumped end_pos name ≡ out_of_fuel
unfolding read_loop
pointing_loop from_utf8 bytes zero pos len low jumped end_pos name at nonzero is low_at self = refl
pointing_loop from_utf8 bytes (suc fuel) pos len low jumped end_pos name at nonzero is low_at self =
    rw (at, read_loop, name_round, nonzero, is, low_at, pointer_round, self)
      (pointing_loop from_utf8 bytes fuel pos len low true (end_after jumped end_pos (pos + 2)) name
        at nonzero is low_at self)

-- A name that is a pointer to itself is never read: no fuel is enough.
pub read_name_pointing :
    (from_utf8 : Bytes → Option Text) (bytes : Bytes) (fuel pos len low : ℕ)
    → get_elem? bytes pos ≡ some len
    → (len == 0) ≡ false
    → is_pointer len ≡ true
    → get_elem? bytes (pos + 1) ≡ some low
    → pointer_offset len low ≡ pos
    → read_name from_utf8 fuel bytes pos ≡ out_of_fuel
unfolding read_name
read_name_pointing from_utf8 bytes fuel pos len low =
    pointing_loop from_utf8 bytes fuel pos len low false pos []
