-- ===== src/TrimLi/Restored.antt =====
-- What `load` makes of the result of `trim_li`.
use npm.Common.{
  ℕ, zero, suc, ◌+◌, ◌^◌, ◌%◌, ◌≤◌, ◌<◌, ◌≡◌, refl, sym, ap, ◌∙◌, arith, Option, some, List, [],
  ◌∷◌, ◌++◌, map, append-nil, append_assoc, All, All-append, length, ==_iff,
}
use npm.TrimLi.{Text, Bitmaps, next_line, trim_end_space_tab, add_line, trim_loop, trim_li, load}
use npm.TrimLi.Reference.{lines_of, length-next_line, reference_lines, join_lines-reference}
use npm.TrimLi.Layout.{numbers, filled, join_lines, emit_lem, length-numbers}

abbrev trimmed_lines : Text → List Text
trimmed_lines s = map trim_end_space_tab (lines_of (length s) s)

All-weaken : (i : ℕ) (xs : List ℕ) → All (λ j. j < i) xs → All (λ j. j < suc i) xs
All-weaken i [] h = tt
All-weaken i (x ∷ xs) h = (omega (arith, h.0), All-weaken i xs h.1)

module _ {B : Type 0} (bitmaps : Bitmaps B) where
  abbrev Collects : Option (B × List Text) → B → List Text → ℕ → List Text → Type 0
  Collects o b li i ls =
      (r : B) × (o ≡ some (r, li ++ filled ls)) × (bitmaps.iter r ≡ bitmaps.iter b ++ numbers i ls)

  add_line_lem :
      (fuel i : ℕ) (t rest : Text) (b : B) (li ls : List Text)
      → All (λ j. j < i) (bitmaps.iter b)
      → ((b : B) (li : List Text)
          → All (λ j. j < suc i) (bitmaps.iter b)
          → Collects (trim_loop bitmaps fuel rest (suc i) (b, li)) b li (suc i) ls)
      → Collects
          (trim_loop bitmaps fuel rest (suc i) (add_line bitmaps i t (b, li)))
          b
          li
          i
          (t ∷ ls)
  unfolding add_line
  add_line_lem fuel i [] rest b li ls h ih = ih b li (All-weaken i (bitmaps.iter b) h)
  add_line_lem fuel i (c ∷ s) rest b li ls h ih =
      let e = bitmaps.iter-insert i b h in
      let (r, f, g) = ih (bitmaps.insert i b) (li ++ ((c ∷ s) ∷ [])) (
        rw e (
          All-append (λ j. j < suc i) (bitmaps.iter b) (i ∷ []) (All-weaken i (bitmaps.iter b) h)
            (omega arith, tt))) in
      (
        r,
        rw (f, append_assoc li ((c ∷ s) ∷ []) (filled ls)) refl,
        rw (g, e, append_assoc (bitmaps.iter b) (i ∷ []) (numbers (suc i) ls)) refl,
      )

  trim_loop_step :
      (fuel i c : ℕ) (s : Text) (acc : B × List Text)
      → i + 1 < 2 ^ 32
      → trim_loop bitmaps (suc fuel) (c ∷ s) i acc
        ≡ trim_loop bitmaps fuel
            (next_line (c ∷ s)).1
            (suc i)
            (add_line bitmaps i (trim_end_space_tab (next_line (c ∷ s)).0) acc)
  unfolding trim_loop
  trim_loop_step fuel i c s acc h =
      let e : (i + 1) % 2 ^ 32 ≡ suc i = omega (arith, h) in
      ap
        (λ j.
          trim_loop bitmaps fuel (next_line (c ∷ s)).1 j
            (add_line bitmaps i (trim_end_space_tab (next_line (c ∷ s)).0) acc))
        e

  trim_loop_end : (fuel i : ℕ) (acc : B × List Text) → trim_loop bitmaps fuel [] i acc ≡ some acc
  unfolding trim_loop
  trim_loop_end zero i acc = refl
  trim_loop_end (suc fuel) i acc = refl

  trim_loop_lem :
      (fuel : ℕ) (s : Text) (i : ℕ) (b : B) (li : List Text)
      → length s ≤ fuel
      → i + length s < 2 ^ 32
      → All (λ j. j < i) (bitmaps.iter b)
      → Collects
          (trim_loop bitmaps fuel s i (b, li))
          b
          li
          i
          (map trim_end_space_tab (lines_of fuel s))
  trim_loop_lem zero [] i b li h k a = (
    b,
    rw (trim_loop_end zero i (b, li), append-nil {A = Text} li) refl,
    sym (append-nil {A = ℕ} (bitmaps.iter b)),
  )
  trim_loop_lem (suc fuel) [] i b li h k a = (
    b,
    rw (trim_loop_end (suc fuel) i (b, li), append-nil {A = Text} li) refl,
    sym (append-nil {A = ℕ} (bitmaps.iter b)),
  )
  trim_loop_lem zero (c ∷ s) i b li h k a = absurd (omega arith)
  trim_loop_lem (suc fuel) (c ∷ s) i b li h k a =
      let shorter = length-next_line (c ∷ s) in
      let (r, e, g) =
        add_line_lem fuel i (trim_end_space_tab (next_line (c ∷ s)).0) (next_line (c ∷ s)).1 b li
          (map trim_end_space_tab (lines_of fuel (next_line (c ∷ s)).1)) a
          (λ b₂ li₂ a₂.
            trim_loop_lem fuel (next_line (c ∷ s)).1 (suc i) b₂ li₂ (omega (arith, shorter, h))
              (omega (arith, shorter, k)) a₂) in
      (r, trim_loop_step fuel i c s (b, li) (omega (arith, k)) ∙ e, g)

  load-trimmed :
      (txt : Text)
      → length txt < 2 ^ 32
      → (b : B) × (li : List Text) × (trim_li bitmaps txt ≡ some (b, li))
        × (load bitmaps b li ≡ some (join_lines (trimmed_lines txt)))
  unfolding trim_li load
  load-trimmed txt h =
      let (b, e, f) =
        trim_loop_lem (length txt) txt 0 bitmaps.new [] (omega arith) (omega (arith, h))
          (rw bitmaps.iter-new tt) in
      let g = f ∙ ap (λ t. t ++ numbers 0 (trimmed_lines txt)) bitmaps.iter-new in
      (
        b,
        filled (trimmed_lines txt),
        e,
        rw
            (
              g,
              length-numbers 0 (trimmed_lines txt),
              (==_iff (length (filled (trimmed_lines txt))) (length (filled (trimmed_lines txt)))).1
                  refl,
              emit_lem (trimmed_lines txt),
            )
            refl,
      )

  -- On a text of fewer than 2^32 characters `trim_li` returns, and `load` of its result is the text
  -- with `\r\n` and `\r` replaced by `\n`, white space trimmed at the end of every part between two
  -- `\n`, and the parts joined by `\n` without the empty ones at the end.
  pub load-trim_li :
      (txt : Text)
      → length txt < 2 ^ 32
      → (b : B) × (li : List Text) × (trim_li bitmaps txt ≡ some (b, li))
        × (load bitmaps b li ≡ some (join_lines (reference_lines txt)))
  load-trim_li txt h =
      let (b, li, e, f) = load-trimmed txt h in (b, li, e, f ∙ ap some (join_lines-reference txt))
