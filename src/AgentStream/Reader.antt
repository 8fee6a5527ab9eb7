-- ===== src/AgentStream/Reader.antt =====
-- What calls of next return.
use npm.Common.{
  ℕ, zero, suc, ◌≤◌, Bool, true, false, ◌&&◌, none, List, [], ◌∷◌, ◌++◌, ◌==◌, if◌then◌else◌,
  length, ◌≡◌, refl, sym, ap, ◌∙◌, arith, Bool-cases, ◌⊎◌, inl, inr,
}
use npm.Text.{Text, is_empty}
use npm.AgentStream.{
  Msg, txt, tool, err, think, Event, is_newline, run, Item, item, failed, ended, trim_newlines,
  next, nexts,
}
use npm.AgentStream.Visible.{visible, written, sent, run-written}

empty_nil : (s : Text) → is_empty s ≡ true → s ≡ []
unfolding is_empty
empty_nil [] h = refl
empty_nil (b ∷ s) h = absurd (cc)

and_both : (a b : Bool) → a && b ≡ true → (a ≡ true) × (b ≡ true)
and_both true true h = (refl, refl)
and_both true false h = absurd (cc)
and_both false b h = absurd (cc)

visible-trim_newlines : (s : Text) → visible (trim_newlines s) ≡ visible s
unfolding visible trim_newlines
visible-trim_newlines [] = refl
visible-trim_newlines (b ∷ s) = elim (Bool-cases (is_empty (trim_newlines s) && is_newline b)) [
  | inl cut ↦
      let (nothing, is) = and_both (is_empty (trim_newlines s)) (is_newline b) cut in
      rw (cut, is)
        (ap visible (sym (empty_nil (trim_newlines s) nothing)) ∙ visible-trim_newlines s)
  | inr kept ↦ elim (Bool-cases (is_newline b)) [
    | inl is ↦ rw (kept, visible, is) (visible-trim_newlines s)
    | inr other ↦ rw (kept, visible, other) (ap (λ x. b ∷ x) (visible-trim_newlines s))
  ]
]

abbrev pub ends_in_newline : Text → Bool
ends_in_newline [] = false
ends_in_newline (b ∷ []) = is_newline b
ends_in_newline (b ∷ c ∷ s) = ends_in_newline (c ∷ s)

ends-trim_newlines : (s : Text) → ends_in_newline (trim_newlines s) ≡ false
unfolding trim_newlines is_empty
ends-trim_newlines [] = refl
ends-trim_newlines (b ∷ s) = by_rest (trim_newlines s) (ends-trim_newlines s)
  where
    by_rest :
        (rest : Text)
        → ends_in_newline rest ≡ false
        → ends_in_newline (if is_empty rest && is_newline b then [] else b ∷ rest) ≡ false
    by_rest [] h = elim (Bool-cases (is_newline b)) [
      | inl is ↦ rw (is_empty, is) refl
      | inr other ↦ rw (is_empty, other, ends_in_newline) other
    ]
    by_rest (c ∷ rest) h = h

-- Of a tool nothing is asked.
unfoldable pub IsClean : Item → Type 0
IsClean (item kind s args) = (kind ≡ 2) ⊎ ((is_empty s ≡ false) × (ends_in_newline s ≡ false))
IsClean (failed e) = Unit
IsClean ended = Unit

text-IsClean :
    (kind : ℕ) (s : Text) (rest : Item × List Msg) (rx : List Msg)
    → IsClean rest.0
    → IsClean
        (if is_empty (trim_newlines s) then rest else (item kind (trim_newlines s) none, rx)).0
unfolding IsClean
text-IsClean kind s rest rx h = elim (Bool-cases (is_empty (trim_newlines s))) [
  | inl nothing ↦ rw nothing h
  | inr some_text ↦ rw some_text (inr (some_text, ends-trim_newlines s))
]

-- A text that next returns is not empty and does not end in a line end.
pub next-IsClean : (rx : List Msg) → IsClean (next rx).0
unfolding next IsClean
next-IsClean [] = tt
next-IsClean (txt s ∷ rx) = text-IsClean 3 s (next rx) rx (next-IsClean rx)
next-IsClean (think s ∷ rx) = text-IsClean 4 s (next rx) rx (next-IsClean rx)
next-IsClean (tool name args ∷ rx) = inl refl
next-IsClean (err e ∷ rx) = tt

-- What the reader gets of the text, up to the end or an error.
unfoldable pub read : List Item → Text
unfolding visible
read [] = []
read (item kind s args ∷ items) =
    let rest = read items in if kind == 2 then rest else visible s ++ rest
read (failed e ∷ items) = []
read (ended ∷ items) = []

abbrev ReadsAll : List Msg → Text → Type 0
ReadsAll rx t = (calls : ℕ) → length rx ≤ calls → read (nexts (suc calls) rx) ≡ t

-- A text that the reader gets or skips.
read_text :
    (kind : ℕ) (s : Text) (rx : List Msg) (t : Text) (calls : ℕ)
    → (kind == 2) ≡ false
    → ReadsAll rx t
    → suc (length rx) ≤ calls
    → let r : Item × List Msg =
        if is_empty (trim_newlines s) then next rx else (item kind (trim_newlines s) none, rx) in
      read (r.0 ∷ nexts calls r.1) ≡ visible s ++ t
unfolding read nexts visible
read_text kind s rx t zero text h enough = absurd (omega (arith, enough))
read_text kind s rx t (suc calls) text h enough =
    let kept : visible (trim_newlines s) ≡ visible s = visible-trim_newlines s in
    elim (Bool-cases (is_empty (trim_newlines s))) [
      | inl nothing ↦
          rw (nothing, sym kept, empty_nil (trim_newlines s) nothing)
            (h (suc calls) (omega (arith, enough)))
      | inr some_text ↦ rw (some_text, read, text, kept, h calls (omega (arith, enough))) refl
    ]

read-sent : (rx : List Msg) → ReadsAll rx (sent rx)
unfolding read nexts next sent
read-sent [] calls h = refl
read-sent (txt s ∷ rx) calls h = read_text 3 s rx (sent rx) calls refl (read-sent rx) h
read-sent (think s ∷ rx) calls h = read_text 4 s rx (sent rx) calls refl (read-sent rx) h
read-sent (tool name args ∷ rx) zero h = absurd (omega (arith, h))
read-sent (tool name args ∷ rx) (suc calls) h = read-sent rx calls (omega (arith, h))
read-sent (err e ∷ rx) calls h = refl

-- What calls of next return of the text of a run, enough of them to read every message and the end,
-- is what the deltas held up to the end of the run, in their order and without the line ends, if the
-- reader takes every message.
pub read-run :
    (events : List Event) (room : ℕ)
    → length events ≤ room
    → read (nexts (suc (length (run events room))) (run events room)) ≡ written events
unfolding run visible
read-run events room h =
    read-sent (run events room) (length (run events room)) (omega arith)
    ∙ run-written events room [] refl h
