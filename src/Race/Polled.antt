-- ===== src/Race/Polled.antt =====
-- What one poll of the stream does to the arguments.
use npm.Common.{
  ℕ, ◌+◌, Bool, true, false, Option, none, some, List, [], ◌∷◌, ◌++◌, ◌⊎◌, inl, inr, leb, ◌&&◌,
  if◌then◌else◌, get_elem?, Bool-cases, ◌≡◌, refl, sym, ap, ◌∙◌,
}
use npm.Race.Removed.{args_of, swap_remove-Perm, args_of-swap_remove}
use npm.Race.{
  Race, Input, Poll, item, finished, pending, is_nil, start_due, start, poll_timer, poll_task,
  poll_ing, conclude, poll_next, add_item,
}
use mathlib.Core.List.{Perm}
use mathlib.Core.List.Perm

module _ {A F : Type 0} where
  unfoldable pub outstanding : Race A F → List A
  outstanding r = args_of r.ing ++ r.args

  args_of-snoc :
      (a : A) (f : F) (ing : List (A × F)) (args : List A)
      → args_of (ing ++ ((a, f) ∷ [])) ++ args ≡ args_of ing ++ (a ∷ args)
  unfolding args_of
  args_of-snoc a f [] args = refl
  args_of-snoc a f (p ∷ ing) args = ap (λ xs. p.0 ∷ xs) (args_of-snoc a f ing args)

  start_due-args :
      (run : A → F) (step now : ℕ) (args : List A) (next_run : ℕ) (ing : List (A × F))
      → args_of (start_due run step now args next_run ing).2
          ++ (start_due run step now args next_run ing).0
        ≡ args_of ing ++ args
  unfolding start_due args_of
  start_due-args run step now [] next_run ing = refl
  start_due-args run step now (a ∷ args) next_run ing = elim (Bool-cases (leb next_run now)) [
    | inl due ↦
        rw (due, start_due)
          (start_due-args run step now args (next_run + step) (ing ++ ((a, run a) ∷ []))
            ∙ args_of-snoc a (run a) ing args)
    | inr later ↦ rw (later, start_due) refl
  ]

  start_due-ended :
      (run : A → F) (step now : ℕ) (args : List A) (next_run : ℕ) (ing : List (A × F))
      → (start_due run step now args next_run ing).3 ≡ true
      → (start_due run step now args next_run ing).0 ≡ []
  unfolding start_due
  start_due-ended run step now [] next_run ing h = refl
  start_due-ended run step now (a ∷ args) next_run ing h = elim (Bool-cases (leb next_run now)) [
    | inl due ↦
        rw (due, start_due)
          (start_due-ended run step now args (next_run + step) (ing ++ ((a, run a) ∷ []))
            (rw (due, start_due) at h))
    | inr later ↦ absurd (cc (rw (later, start_due) at h))
  ]

  -- While there are arguments, the end is not noted.
  unfoldable pub IsEnding : Race A F → Type 0
  IsEnding r = r.is_end ≡ true → r.args ≡ []

  if_keeps :
      (P : Race A F → Type 0) (b : Bool) (q r : Race A F) → P q → P r → P (if b then q else r)
  if_keeps P true q r hq hr = hq
  if_keeps P false q r hq hr = hr

  start-outstanding :
      (run : A → F) (now : ℕ) (r : Race A F) → outstanding (start run now r) ≡ outstanding r
  unfolding start outstanding
  start-outstanding run now r =
      if_keeps (λ q. outstanding q ≡ outstanding r) r.is_end r _ refl
        (start_due-args run r.step now r.args r.next_run r.ing)

  start-IsEnding : (run : A → F) (now : ℕ) (r : Race A F) → IsEnding r → IsEnding (start run now r)
  unfolding start IsEnding
  start-IsEnding run now r h =
      if_keeps IsEnding r.is_end r _ h (start_due-ended run r.step now r.args r.next_run r.ing)

module _ {A T : Type 0} where
  unfoldable pub add_arg : Poll A T → List A → List A
  add_arg (item a t) xs = a ∷ xs
  add_arg finished xs = xs
  add_arg pending xs = xs

  IsFound : List A → Option (ℕ × A × T) → Type 0
  IsFound xs none = Unit {0}
  IsFound xs (some (i, a, t)) = get_elem? xs i ≡ some a

add_arg_idle :
    {A : Type 0} (T : Type 0) (b : Bool) (xs : List A)
    → add_arg {T = T} (if b then finished else pending) xs ≡ xs
unfolding add_arg
add_arg_idle T true xs = refl
add_arg_idle T false xs = refl

finished_when :
    {A T : Type 0} (b : Bool)
    → ◌≡◌ {A = Poll A T} (if b then finished else pending) finished
    → b ≡ true
finished_when true h = refl
finished_when false h = cc

module _ {A T : Type 0} where
  pub add_arg-add_item :
      (p : Poll A T) (items : List (A × T)) (xs : List A)
      → args_of (add_item p items) ++ xs ≡ add_arg p (args_of items ++ xs)
  unfolding args_of add_arg add_item
  add_arg-add_item (item a t) items xs = refl
  add_arg-add_item finished items xs = refl
  add_arg-add_item pending items xs = refl

  pub add_arg-Perm :
      (p : Poll A T) {xs ys : List A} → Perm xs ys → Perm (add_arg p xs) (add_arg p ys)
  unfolding add_arg
  add_arg-Perm (item a t) h = Perm.cons a h
  add_arg-Perm finished h = h
  add_arg-Perm pending h = h

module _ {A F T : Type 0} where
  poll_task-args :
      (a : A) (f : F) (progress : F ⊎ T) (res : List (A × F) × Option (ℕ × A × T))
      → args_of (poll_task a f progress res).0 ≡ a ∷ args_of res.0
  unfolding poll_task args_of
  poll_task-args a f progress (rest, some (i, b, t)) = refl
  poll_task-args a f (inl g) (rest, none) = refl
  poll_task-args a f (inr t) (rest, none) = refl

  poll_task-IsFound :
      (a : A) (f : F) (progress : F ⊎ T) (res : List (A × F) × Option (ℕ × A × T)) (xs : List A)
      → IsFound xs res.1
      → IsFound (a ∷ xs) (poll_task a f progress res).1
  unfolding poll_task IsFound
  poll_task-IsFound a f progress (rest, some (i, b, t)) xs h = h
  poll_task-IsFound a f (inl g) (rest, none) xs h = tt
  poll_task-IsFound a f (inr t) (rest, none) xs h = refl

  poll_ing-args :
      (poll : F → F ⊎ T) (ing : List (A × F)) → args_of (poll_ing poll ing).0 ≡ args_of ing
  unfolding poll_ing args_of
  poll_ing-args poll [] = refl
  poll_ing-args poll ((a, f) ∷ ing) =
      poll_task-args a f (poll f) (poll_ing poll ing) ∙ ap (λ xs. a ∷ xs) (poll_ing-args poll ing)

  poll_ing-IsFound :
      (poll : F → F ⊎ T) (ing : List (A × F)) → IsFound (args_of ing) (poll_ing poll ing).1
  unfolding poll_ing args_of IsFound
  poll_ing-IsFound poll [] = tt
  poll_ing-IsFound poll ((a, f) ∷ ing) =
      poll_task-IsFound a f (poll f) (poll_ing poll ing) (args_of ing) (poll_ing-IsFound poll ing)

  conclude-Perm :
      (r : Race A F) (res : List (A × F) × Option (ℕ × A × T))
      → IsFound (args_of res.0) res.1
      → Perm (add_arg (conclude r res).0 (outstanding (conclude r res).1)) (args_of res.0 ++ r.args)
  unfolding conclude add_arg outstanding IsFound
  conclude-Perm r (ing, some (i, a, t)) h =
      rw (args_of-swap_remove i ing)
        (Perm.append_right r.args (swap_remove-Perm i (args_of ing) a h))
  conclude-Perm r (ing, none) h =
      rw (add_arg_idle T (is_nil ing && r.is_end) (args_of ing ++ r.args))
        (Perm.refl (args_of ing ++ r.args))

  conclude-IsEnding :
      (r : Race A F) (res : List (A × F) × Option (ℕ × A × T))
      → IsEnding r
      → IsEnding (conclude r res).1
  unfolding conclude IsEnding
  conclude-IsEnding r (ing, some (i, a, t)) h = h
  conclude-IsEnding r (ing, none) h = h

  conclude-finished :
      (r : Race A F) (res : List (A × F) × Option (ℕ × A × T))
      → IsEnding r
      → (conclude r res).0 ≡ finished
      → outstanding (conclude r res).1 ≡ []
  unfolding conclude IsEnding outstanding args_of is_nil
  conclude-finished r (ing, some (i, a, t)) h e = absurd cc
  conclude-finished r ([], none) h e = h (finished_when r.is_end e)
  conclude-finished r (p ∷ ing, none) h e = absurd cc

  polled-Perm :
      (r : Race A F) (poll : F → F ⊎ T) (ing : List (A × F))
      → Perm
          (add_arg
            (conclude r (poll_ing poll ing)).0
            (outstanding (conclude r (poll_ing poll ing)).1))
          (args_of ing ++ r.args)
  polled-Perm r poll ing =
      let e : args_of (poll_ing poll ing).0 ≡ args_of ing = poll_ing-args poll ing in
      rw (sym e) (conclude-Perm r (poll_ing poll ing) (rw e (poll_ing-IsFound poll ing)))

  -- A poll yields an argument that was outstanding, or none.
  pub poll_next-Perm :
      (run : A → F) (input : Input F T) (r : Race A F)
      → Perm
          (add_arg (poll_next run input r).0 (outstanding (poll_next run input r).1))
          (outstanding r)
  unfolding poll_next outstanding
  poll_next-Perm run input r =
      let s : Race A F = start run input.now r in
      rw (sym (start-outstanding run input.now r))
        (polled-Perm (record s { timer = poll_timer input.is_over s.timer }) input.poll s.ing)

  pub poll_next-IsEnding :
      (run : A → F) (input : Input F T) (r : Race A F)
      → IsEnding r
      → IsEnding (poll_next run input r).1
  unfolding poll_next IsEnding
  poll_next-IsEnding run input r h =
      let s : Race A F = start run input.now r in
      conclude-IsEnding (record s { timer = poll_timer input.is_over s.timer })
        (poll_ing input.poll s.ing) (start-IsEnding run input.now r h)

  pub poll_next-finished :
      (run : A → F) (input : Input F T) (r : Race A F)
      → IsEnding r
      → (poll_next run input r).0 ≡ finished
      → outstanding (poll_next run input r).1 ≡ []
  unfolding poll_next IsEnding
  poll_next-finished run input r h e =
      let s : Race A F = start run input.now r in
      conclude-finished (record s { timer = poll_timer input.is_over s.timer })
        (poll_ing input.poll s.ing) (start-IsEnding run input.now r h) e
