-- ===== src/AgentStream/Visible.antt =====
-- What the reader sees of a text: all of it but the line ends.
use npm.Common.{
  ℕ, zero, suc, ◌≤◌, Bool, true, false, ◌&&◌, not, Option, none, some, List, [], ◌∷◌, ◌++◌, ◌==◌,
  if◌then◌else◌, length, take, drop, ◌≡◌, refl, sym, ap, ◌∙◌, arith, Bool-cases, All, ==_iff, inl,
  inr,
}
use npm.Text.{Text}
use npm.AgentStream.{
  Msg, txt, tool, err, think, Event, text_delta, thinking_delta, tool_start, complete, other_event,
  is_newline, is_space_or_tab, is_whitespace, trim_len, any_space, spaces_of, newlines_of, delta,
  sent_as, turn, after_turn, run_from, next,
}

unfoldable pub visible : Text → Text
visible [] = []
visible (b ∷ s) = let rest = visible s in if is_newline b then rest else b ∷ rest

visible-append : (s t : Text) → visible (s ++ t) ≡ visible s ++ visible t
unfolding visible
visible-append [] t = refl
visible-append (b ∷ s) t = elim (Bool-cases (is_newline b)) [
  | inl is ↦ rw is (visible-append s t)
  | inr other ↦ rw other (ap (λ x. b ∷ x) (visible-append s t))
]

take-drop : (n : ℕ) (s : Text) → take n s ++ drop n s ≡ s
take-drop zero s = refl
take-drop (suc n) [] = refl
take-drop (suc n) (b ∷ s) = ap (λ x. b ∷ x) (take-drop n s)

IsWhite : Text → Type 0
IsWhite s = All (λ b. is_whitespace b ≡ true) s

drop-IsWhite : (s : Text) → IsWhite (drop (trim_len s) s)
unfolding IsWhite trim_len
drop-IsWhite [] = tt
drop-IsWhite (b ∷ s) = elim (Bool-cases (trim_len s == 0)) [
  | inl is ↦
      let rest : IsWhite s = rw ((==_iff (trim_len s) 0).0 is) at (drop-IsWhite s) in
      elim (Bool-cases (is_whitespace b)) [
        | inl white ↦ rw (is, white) (white, rest)
        | inr black ↦ rw (is, black) rest
      ]
  | inr more ↦ rw more (drop-IsWhite s)
]

visible-spaces : (s : Text) → IsWhite s → visible (spaces_of s) ≡ visible s
unfolding visible spaces_of IsWhite is_whitespace
visible-spaces [] h = refl
visible-spaces (b ∷ s) h = elim (Bool-cases (is_newline b)) [
  | inl is ↦ rw is (visible-spaces s h.1)
  | inr other ↦ elim (Bool-cases (is_space_or_tab b)) [
    | inl space ↦ rw (other, space, visible, other) (ap (λ x. b ∷ x) (visible-spaces s h.1))
    | inr none_of ↦ absurd (cc (rw (is_whitespace, none_of, other) at h.0))
  ]
]

visible-newlines : (s : Text) → visible (newlines_of s) ≡ []
unfolding visible newlines_of
visible-newlines [] = refl
visible-newlines (b ∷ s) = elim (Bool-cases (is_newline b)) [
  | inl is ↦ rw (is, visible, is) (visible-newlines s)
  | inr other ↦ rw other (visible-newlines s)
]

visible_blank : (s : Text) → IsWhite s → any_space s ≡ false → visible s ≡ []
unfolding visible any_space IsWhite is_whitespace
visible_blank [] h none_of = refl
visible_blank (b ∷ s) h none_of = elim (Bool-cases (is_space_or_tab b)) [
  | inl space ↦ absurd (cc (rw (any_space, space) at none_of))
  | inr other ↦
      let rest : any_space s ≡ false = rw (any_space, other) at none_of in
      elim (Bool-cases (is_newline b)) [
        | inl is ↦ rw is (visible_blank s h.1 rest)
        | inr no_line ↦ absurd (cc (rw (is_whitespace, other, no_line) at h.0))
      ]
]

and_not : (a b : Bool) → a && not b ≡ true → (a ≡ true) × (b ≡ false)
and_not true true h = absurd (cc)
and_not true false h = (refl, refl)
and_not false b h = absurd (cc)

abbrev pub IsBlank : Text → Type 0
IsBlank buf = visible buf ≡ []

shown : Option Text → Text
shown none = []
shown (some s) = visible s

delta-visible :
    (t buf : Text) → IsBlank buf → IsBlank (delta t buf).1 × (shown (delta t buf).0 ≡ visible t)
unfolding delta shown visible
delta-visible t buf h = elim (Bool-cases (trim_len t == length t)) [
  | inl is ↦ rw (is, delta) (refl, visible-append buf t ∙ rw h refl)
  | inr other ↦ elim (Bool-cases ((trim_len t == 0) && not (any_space (drop (trim_len t) t)))) [
    | inl blank ↦
        let (zero_is, none_of) =
          and_not (trim_len t == 0) (any_space (drop (trim_len t) t)) blank in
        let whole : drop (trim_len t) t ≡ t = rw ((==_iff (trim_len t) 0).0 zero_is) refl in
        let nothing : visible t ≡ [] =
          visible_blank t (rw whole at (drop-IsWhite t)) (rw whole at none_of) in
        rw (other, blank, delta) (visible-append buf t ∙ rw (h, nothing) refl, sym nothing)
    | inr some_text ↦
        let head : Text = take (trim_len t) t in
        let tail : Text = drop (trim_len t) t in
        rw (other, some_text, delta)
          (
            visible-newlines tail,
            visible-append buf (head ++ spaces_of tail)
                ∙ rw h (
                    visible-append head (spaces_of tail)
                    ∙ ap (λ x. visible head ++ x) (visible-spaces tail (drop-IsWhite t))
                    ∙ sym (visible-append head tail)
                    ∙ ap visible (take-drop (trim_len t) t)),
          )
  ]
]

-- What the deltas hold up to the end of the run, but the line ends.
unfoldable pub written : List Event → Text
unfolding visible
written [] = []
written (text_delta t ∷ events) = visible t ++ written events
written (thinking_delta t ∷ events) = visible t ++ written events
written (tool_start name args ∷ events) = written events
written (complete ∷ events) = []
written (other_event ∷ events) = written events

unfoldable pub sent : List Msg → Text
unfolding visible
sent [] = []
sent (txt s ∷ msgs) = visible s ++ sent msgs
sent (think s ∷ msgs) = visible s ++ sent msgs
sent (tool name args ∷ msgs) = sent msgs
sent (err e ∷ msgs) = []

Shows : (Text → Msg) → Type 0
Shows make = (s : Text) (msgs : List Msg) → sent (make s ∷ msgs) ≡ visible s ++ sent msgs

sent-after :
    (make : Text → Msg) (r : Option Text × Text) (room : ℕ) (rest : ℕ → Text → List Msg)
    (more t : Text)
    → Shows make
    → IsBlank r.1
    → shown r.0 ≡ visible t
    → ((n : ℕ) → room ≤ suc n → sent (rest n r.1) ≡ more)
    → 1 ≤ room
    → sent (after_turn (sent_as make r) room rest) ≡ visible t ++ more
unfolding after_turn sent_as shown Shows
sent-after make (none, buf) room rest more t shows blank same next some_room =
    rw (sym same) (next room (omega arith))
sent-after make (some out, buf) zero rest more t shows blank same next some_room =
    absurd (omega (arith, some_room))
sent-after make (some out, buf) (suc room) rest more t shows blank same next some_room =
    shows out (rest room buf) ∙ rw (same, next room (omega arith)) refl

pub run-written :
    (events : List Event) (room : ℕ) (buf : Text)
    → IsBlank buf
    → length events ≤ room
    → sent (run_from events room buf) ≡ written events
unfolding run_from turn written sent visible Shows
run-written [] room buf blank h = refl
run-written (text_delta t ∷ events) room buf blank h =
    let (blank_then, same) = delta-visible t buf blank in
    sent-after txt (delta t buf) room (run_from events) (written events) t (λ s msgs. refl)
      blank_then same
      (λ n small. run-written events n (delta t buf).1 blank_then (omega (arith, h, small)))
      (omega (arith, h))
run-written (thinking_delta t ∷ events) room buf blank h =
    let (blank_then, same) = delta-visible t buf blank in
    sent-after think (delta t buf) room (run_from events) (written events) t (λ s msgs. refl)
      blank_then same
      (λ n small. run-written events n (delta t buf).1 blank_then (omega (arith, h, small)))
      (omega (arith, h))
run-written (tool_start name args ∷ events) zero buf blank h = absurd (omega (arith, h))
run-written (tool_start name args ∷ events) (suc room) buf blank h =
    run-written events room [] refl (omega (arith, h))
run-written (complete ∷ events) room buf blank h = refl
run-written (other_event ∷ events) room buf blank h =
    run-written events room buf blank (omega (arith, h))
