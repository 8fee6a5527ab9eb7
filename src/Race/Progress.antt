-- ===== src/Race/Progress.antt =====
-- When the stream is not pending.
use npm.Common.{
  ℕ, zero, suc, ◌+◌, Bool, true, false, Option, none, some, List, [], ◌∷◌, ◌++◌, ◌⊎◌, inl, inr, leb,
  ◌&&◌, if◌then◌else◌, Bool-cases, ◌≡◌, refl,
}
use npm.Race.{
  Race, Input, Poll, item, finished, pending, is_nil, start_due, start, poll_timer, poll_task,
  poll_ing, conclude, poll_next,
}

-- A result, or the end.
abbrev pub IsSettled : {A T : Type 0} → Poll A T → Type 0
IsSettled {A = A} {T = T} p = ((a : A) × (t : T) × (p ≡ item a t)) ⊎ (p ≡ finished)

-- A task is running, or there is none to start.
abbrev IsBusy : {A F : Type 0} → List (A × F) → Bool → Type 0
IsBusy ing is_end = (is_nil ing ≡ false) ⊎ (is_end ≡ true)

ended_IsSettled :
    {A T : Type 0} (is_end : Bool)
    → is_end ≡ true
    → IsSettled {A = A} {T = T} (if true && is_end then finished else pending)
ended_IsSettled true h = inr refl
ended_IsSettled false h = absurd cc

module _ {A F : Type 0} where
  is_nil-snoc : (ing : List (A × F)) (p : A × F) → is_nil (ing ++ (p ∷ [])) ≡ false
  unfolding is_nil
  is_nil-snoc [] p = refl
  is_nil-snoc (q ∷ ing) p = refl

  start_due_running :
      (run : A → F) (step now : ℕ) (args : List A) (next_run : ℕ) (ing : List (A × F))
      → is_nil ing ≡ false
      → is_nil (start_due run step now args next_run ing).2 ≡ false
  unfolding start_due
  start_due_running run step now [] next_run ing h = h
  start_due_running run step now (a ∷ args) next_run ing h = elim (Bool-cases (leb next_run now)) [
    | inl due ↦
        rw (due, start_due)
          (start_due_running run step now args (next_run + step) (ing ++ ((a, run a) ∷ []))
            (is_nil-snoc ing (a, run a)))
    | inr later ↦ rw (later, start_due) h
  ]

  start_due-IsBusy :
      (run : A → F) (step now : ℕ) (args : List A) (next_run : ℕ) (ing : List (A × F))
      → leb next_run now ≡ true
      → IsBusy
          (start_due run step now args next_run ing).2
          (start_due run step now args next_run ing).3
  unfolding start_due
  start_due-IsBusy run step now [] next_run ing due = inr due
  start_due-IsBusy run step now (a ∷ args) next_run ing due =
      rw (due, start_due)
        (inl (
          start_due_running run step now args (next_run + step) (ing ++ ((a, run a) ∷ []))
            (is_nil-snoc ing (a, run a))))

  start-IsBusy :
      (run : A → F) (now : ℕ) (r : Race A F)
      → leb r.next_run now ≡ true
      → IsBusy (start run now r).ing (start run now r).is_end
  unfolding start
  start-IsBusy run now r due =
      either r.is_end r _ (λ h. inr h) (start_due-IsBusy run r.step now r.args r.next_run r.ing due)
    where
      either :
          (b : Bool) (p q : Race A F)
          → (b ≡ true → IsBusy p.ing p.is_end)
          → IsBusy q.ing q.is_end
          → IsBusy (if b then p else q).ing (if b then p else q).is_end
      either true p q hp hq = hp refl
      either false p q hp hq = hq

module _ {A F T : Type 0} where
  poll_task_found :
      (a : A) (f : F) (progress : F ⊎ T) (res : List (A × F) × Option (ℕ × A × T))
      → (t : T) × (progress ≡ inr t)
      → (found : ℕ × A × T) × ((poll_task a f progress res).1 ≡ some found)
  unfolding poll_task
  poll_task_found a f progress (rest, some (i, b, t)) h = ((suc i, b, t), refl)
  poll_task_found a f (inl g) (rest, none) (t, h) = absurd cc
  poll_task_found a f (inr u) (rest, none) h = ((zero, a, u), refl)

  conclude_found :
      (r : Race A F) (res : List (A × F) × Option (ℕ × A × T))
      → (found : ℕ × A × T) × (res.1 ≡ some found)
      → IsSettled (conclude r res).0
  unfolding conclude
  conclude_found r (ing, some (i, a, t)) h = inl (a, t, refl)
  conclude_found r (ing, none) (found, h) = absurd cc

  conclude-IsSettled :
      (r : Race A F) (poll : F → F ⊎ T) (ing : List (A × F))
      → ((f : F) → (t : T) × (poll f ≡ inr t))
      → IsBusy ing r.is_end
      → IsSettled (conclude r (poll_ing poll ing)).0
  unfolding poll_ing conclude is_nil
  conclude-IsSettled r poll [] ready (inl filled) = absurd cc
  conclude-IsSettled r poll [] ready (inr ended) = ended_IsSettled r.is_end ended
  conclude-IsSettled r poll ((a, f) ∷ ing) ready h =
      conclude_found r (poll_task a f (poll f) (poll_ing poll ing))
        (poll_task_found a f (poll f) (poll_ing poll ing) (ready f))

  -- When the next start is due and every task is over, a poll yields a result or the end.
  pub poll_next-IsSettled :
      (run : A → F) (input : Input F T) (r : Race A F)
      → ((f : F) → (t : T) × (input.poll f ≡ inr t))
      → leb r.next_run input.now ≡ true
      → IsSettled (poll_next run input r).0
  unfolding poll_next
  poll_next-IsSettled run input r ready due =
      let s : Race A F = start run input.now r in
      conclude-IsSettled (record s { timer = poll_timer input.is_over s.timer }) input.poll s.ing
        ready (start-IsBusy run input.now r due)
