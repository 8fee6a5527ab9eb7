-- ===== src/TrimLi/Reference.antt =====
-- The lines of a text and the ends of a line by the functions of a string alone: replace the line
-- ends by line feeds, split there, and trim each part at its end.
use npm.Common.{
  ℕ, zero, suc, ◌-◌, ◌≤◌, ◌≡◌, refl, sym, ap, ◌∙◌, arith, Bool, true, false, ◌&&◌, ◌||◌, ◌⊎◌, inl,
  inr, List, [], ◌∷◌, ◌++◌, map, reverse, reverse-append, reverse-reverse, All, All-reverse, length,
  ltb, ◌==◌, if◌then◌else◌, Bool-cases, ==_iff,
}
use npm.Text.{split, extend_first, is_empty}
use npm.TrimLi.{
  Text, is_blank, is_whitespace, drop_while, trim_rest, trim_end_space_tab, skip_lf, next_line,
}
use npm.TrimLi.Layout.{all_empty, join_lines}

abbrev pub starts_lf : Text → Bool
starts_lf [] = false
starts_lf (c ∷ s) = c == 10

-- A carriage return before a line feed is left out, and any other one becomes a line feed.
abbrev pub unix_ends : Text → Text
unix_ends [] = []
unix_ends (c ∷ s) =
    let rest = unix_ends s in
    if c == 13 then (if starts_lf s then rest else 10 ∷ rest) else c ∷ rest

abbrev pub is_lf : ℕ → Bool
is_lf c = c == 10

-- `str::trim_end`
abbrev pub trim_end : Text → Text
trim_end [] = []
trim_end (c ∷ s) =
    let rest = trim_end s in if is_whitespace c && is_empty rest then [] else c ∷ rest

abbrev pub reference_lines : Text → List Text
reference_lines txt = map trim_end (split is_lf (unix_ends txt))

trim_end-snoc :
    (xs : Text) (c : ℕ)
    → trim_end (xs ++ (c ∷ [])) ≡ (if is_whitespace c then trim_end xs else xs ++ (c ∷ []))
unfolding is_empty
trim_end-snoc [] c = elim (Bool-cases (is_whitespace c)) [ inl e ↦ rw e refl | inr e ↦ rw e refl ]
trim_end-snoc (x ∷ xs) c = elim (Bool-cases (is_whitespace c)) [
  | inl e ↦ rw (trim_end-snoc xs c, e) refl
  | inr e ↦
      rw (trim_end-snoc xs c, e)
        (elim xs
          as (λ t.
            (if is_whitespace x && is_empty (t ++ (c ∷ [])) then [] else x ∷ (t ++ (c ∷ [])))
            ≡ x ∷ (t ++ (c ∷ []))) [
              | [] ↦ elim (Bool-cases (is_whitespace x)) [ inl w ↦ rw w refl | inr w ↦ rw w refl ]
              | y ∷ ys ↦ elim (Bool-cases (is_whitespace x)) [
                | inl w ↦ rw w refl
                | inr w ↦ rw w refl
              ]
            ])
]

reverse-drop_while : (r : Text) → reverse (drop_while is_whitespace r) ≡ trim_end (reverse r)
unfolding drop_while
reverse-drop_while [] = refl
reverse-drop_while (c ∷ r) = elim (Bool-cases (is_whitespace c)) [
  | inl e ↦ rw (reverse-append (c ∷ []) r, trim_end-snoc (reverse r) c, e) (reverse-drop_while r)
  | inr e ↦ rw (e, reverse-append (c ∷ []) r, trim_end-snoc (reverse r) c, e) refl
]

abbrev IsInLine : ℕ → Type 0
IsInLine c = ((c == 10) ≡ false) × ((c == 13) ≡ false)

-- The test of the code before it looks for other white space.
abbrev is_far : ℕ → Bool
is_far c = ltb 127 c || ((c == 11) || (c == 12))

blank_white : (c : ℕ) → is_blank c ≡ true → is_whitespace c ≡ true
unfolding is_blank is_whitespace
blank_white c h = ground arith

near_white : (c : ℕ) → IsInLine c → is_blank c ≡ false → is_far c ≡ false → is_whitespace c ≡ false
unfolding is_blank is_whitespace
near_white c h blank near = ground arith

trim_rest-whitespace :
    (r : Text) → All IsInLine r → trim_rest (drop_while is_blank r) ≡ drop_while is_whitespace r
unfolding drop_while trim_rest
trim_rest-whitespace [] h = refl
trim_rest-whitespace (c ∷ r) h = elim (Bool-cases (is_blank c)) [
  | inl e ↦ rw (e, blank_white c e) (trim_rest-whitespace r h.1)
  | inr e ↦ elim (Bool-cases (is_far c)) [
    | inl far ↦ elim (Bool-cases (is_whitespace c)) [
      | inl w ↦ rw (e, trim_rest, far, w) refl
      | inr w ↦ rw (e, trim_rest, far, w) refl
    ]
    | inr near ↦ rw (e, trim_rest, near, near_white c h.0 e near) refl
  ]
]

trim_end-line : (l : Text) → All IsInLine l → trim_end_space_tab l ≡ trim_end l
unfolding trim_end_space_tab
trim_end-line l h =
    rw (trim_rest-whitespace (reverse l) (All-reverse IsInLine l h), reverse-drop_while (reverse l))
      (ap trim_end (reverse-reverse l))

next_line-IsInLine : (s : Text) → All IsInLine (next_line s).0
unfolding next_line
next_line-IsInLine [] = tt
next_line-IsInLine (c ∷ s) = elim (Bool-cases (c == 10)) [
  | inl e ↦ rw e tt
  | inr e ↦ elim (Bool-cases (c == 13)) [
    | inl f ↦ rw (e, f) tt
    | inr f ↦ rw (e, f) ((e, f), next_line-IsInLine s)
  ]
]

-- The first line is what stands before the first line feed, if there is one.
IsFirst : Text → Type 0
IsFirst s =
    (split is_lf (unix_ends s) ≡ (next_line s).0 ∷ split is_lf (unix_ends (next_line s).1))
    ⊎ ((split is_lf (unix_ends s) ≡ (next_line s).0 ∷ []) × ((next_line s).1 ≡ []))

after_cr :
    (s : Text)
    → split is_lf (if starts_lf s then unix_ends s else 10 ∷ unix_ends s)
      ≡ [] ∷ split is_lf (unix_ends (skip_lf s))
unfolding split skip_lf
after_cr [] = refl
after_cr (d ∷ s) = elim (Bool-cases (d == 10)) [
  | inl f ↦ let is : d ≡ 10 = (==_iff d 10).0 f in rw is refl
  | inr f ↦ rw f refl
]

next_line-IsFirst : (s : Text) → IsFirst s
unfolding IsFirst split next_line skip_lf extend_first
next_line-IsFirst [] = inr (refl, refl)
next_line-IsFirst (c ∷ s) = elim (Bool-cases (c == 13)) [
  | inl e ↦ let is : c ≡ 13 = (==_iff c 13).0 e in rw is (inl (after_cr s))
  | inr e ↦ elim (Bool-cases (c == 10)) [
    | inl f ↦ inl (rw (e, f) refl)
    | inr f ↦ elim (next_line-IsFirst s) [
      | inl h ↦ inl (rw (e, f, h) refl)
      | inr h ↦ inr (rw (e, f, h.0) refl, rw (e, f) h.1)
    ]
  ]
]

-- The lines of a text; `\n`, `\r` and `\r\n` end a line.
abbrev pub lines_of : ℕ → Text → List Text
lines_of zero s = []
lines_of (suc fuel) [] = []
lines_of (suc fuel) (c ∷ s) = (next_line (c ∷ s)).0 ∷ lines_of fuel (next_line (c ∷ s)).1

length-skip_lf : (s : Text) → length (skip_lf s) ≤ length s
unfolding skip_lf
length-skip_lf [] = omega arith
length-skip_lf (c ∷ s) = ground arith

pub length-next_line : (s : Text) → length (next_line s).1 ≤ length s - 1
unfolding next_line
length-next_line [] = omega arith
length-next_line (c ∷ s) = ground (arith, length-skip_lf s, length-next_line s)

lines_of-nil : (fuel : ℕ) → lines_of fuel [] ≡ []
lines_of-nil zero = refl
lines_of-nil (suc fuel) = refl

-- Splitting finds the same lines, and one more, which is empty, after a line end at the end.
split_lines :
    (fuel : ℕ) (s : Text)
    → length s ≤ fuel
    → (split is_lf (unix_ends s) ≡ lines_of fuel s)
      ⊎ (split is_lf (unix_ends s) ≡ lines_of fuel s ++ ([] ∷ []))
unfolding split IsFirst
split_lines fuel [] h = inr (rw (lines_of-nil fuel) refl)
split_lines zero (c ∷ s) h = absurd (omega arith)
split_lines (suc fuel) (c ∷ s) h = elim (next_line-IsFirst (c ∷ s)) [
  | inl more ↦
      elim (split_lines fuel (next_line (c ∷ s)).1 (omega (arith, length-next_line (c ∷ s)))) [
        | inl e ↦ inl (more ∙ ap (λ t. (next_line (c ∷ s)).0 ∷ t) e)
        | inr e ↦ inr (more ∙ ap (λ t. (next_line (c ∷ s)).0 ∷ t) e)
      ]
  | inr last ↦ inl (last.0 ∙ rw (last.1, lines_of-nil fuel) refl)
]

all_empty-snoc : (ls : List Text) → all_empty (ls ++ ([] ∷ [])) ≡ all_empty ls
all_empty-snoc [] = refl
all_empty-snoc ([] ∷ ls) = all_empty-snoc ls
all_empty-snoc ((c ∷ l) ∷ ls) = refl

join_lines-snoc : (ls : List Text) → join_lines (ls ++ ([] ∷ [])) ≡ join_lines ls
join_lines-snoc [] = refl
join_lines-snoc (l ∷ ls) = rw (all_empty-snoc ls, join_lines-snoc ls) refl

map-snoc : (ls : List Text) → map trim_end (ls ++ ([] ∷ [])) ≡ map trim_end ls ++ ([] ∷ [])
map-snoc [] = refl
map-snoc (l ∷ ls) = ap (λ t. trim_end l ∷ t) (map-snoc ls)

trimmed_each :
    (fuel : ℕ) (s : Text)
    → map trim_end_space_tab (lines_of fuel s) ≡ map trim_end (lines_of fuel s)
trimmed_each zero s = refl
trimmed_each (suc fuel) [] = refl
trimmed_each (suc fuel) (c ∷ s) =
    rw
      (
        trim_end-line (next_line (c ∷ s)).0 (next_line-IsInLine (c ∷ s)),
        trimmed_each fuel (next_line (c ∷ s)).1,
      )
      refl

pub join_lines-reference :
    (txt : Text)
    → join_lines (map trim_end_space_tab (lines_of (length txt) txt))
      ≡ join_lines (reference_lines txt)
join_lines-reference txt =
    ap join_lines (trimmed_each (length txt) txt)
    ∙ elim (split_lines (length txt) txt (omega arith)) [
      | inl e ↦ rw e refl
      | inr e ↦
          rw (e, map-snoc (lines_of (length txt) txt))
            (sym (join_lines-snoc (map trim_end (lines_of (length txt) txt))))
    ]
