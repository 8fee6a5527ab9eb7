-- ===== src/Race/Removed.antt =====
-- What `swap_remove` leaves.
use npm.Common.{ℕ, zero, suc, some, List, [], ◌∷◌, map, get_elem?, ◌≡◌, refl, ap, ◌∙◌}
use npm.Race.{put_second, last_first, swap_remove}
use mathlib.Core.List.{Perm}
use mathlib.Core.List.Perm

module _ {A : Type 0} where
  put_second-Perm : (x : A) (xs : List A) → Perm (put_second x xs) (x ∷ xs)
  unfolding put_second
  put_second-Perm x [] = Perm.refl (x ∷ [])
  put_second-Perm x (z ∷ zs) = Perm.swap x z zs

  last_first-Perm : (x : A) (xs : List A) → Perm (last_first x xs) (x ∷ xs)
  unfolding last_first
  last_first-Perm x [] = Perm.refl (x ∷ [])
  last_first-Perm x (y ∷ ys) =
      Perm.trans (put_second-Perm x (last_first y ys)) (Perm.cons x (last_first-Perm y ys))

  -- An element and what is left when it is removed.
  pub swap_remove-Perm :
      (i : ℕ) (xs : List A) (x : A) → get_elem? xs i ≡ some x → Perm (x ∷ swap_remove i xs) xs
  unfolding swap_remove
  swap_remove-Perm i [] x h = cc
  swap_remove-Perm zero (y ∷ []) x h = let e : x ≡ y = cc in rw e (Perm.refl (y ∷ []))
  swap_remove-Perm zero (y ∷ z ∷ zs) x h =
      let e : x ≡ y = cc in rw e (Perm.cons y (last_first-Perm z zs))
  swap_remove-Perm (suc i) (y ∷ ys) x h =
      Perm.trans (Perm.swap y x (swap_remove i ys)) (Perm.cons y (swap_remove-Perm i ys x h))

module _ {A F : Type 0} where
  unfoldable pub args_of : List (A × F) → List A
  args_of ing = map (λ p. p.0) ing

  args_of-put_second :
      (p : A × F) (ing : List (A × F)) → args_of (put_second p ing) ≡ put_second p.0 (args_of ing)
  unfolding args_of put_second
  args_of-put_second p [] = refl
  args_of-put_second p (q ∷ ing) = refl

  args_of-last_first :
      (p : A × F) (ing : List (A × F)) → args_of (last_first p ing) ≡ last_first p.0 (args_of ing)
  unfolding args_of last_first
  args_of-last_first p [] = refl
  args_of-last_first p (q ∷ ing) =
      args_of-put_second p (last_first q ing) ∙ ap (put_second p.0) (args_of-last_first q ing)

  pub args_of-swap_remove :
      (i : ℕ) (ing : List (A × F)) → args_of (swap_remove i ing) ≡ swap_remove i (args_of ing)
  unfolding args_of swap_remove
  args_of-swap_remove i [] = refl
  args_of-swap_remove zero (p ∷ []) = refl
  args_of-swap_remove zero (p ∷ q ∷ ing) = args_of-last_first q ing
  args_of-swap_remove (suc i) (p ∷ ing) = ap (λ xs. p.0 ∷ xs) (args_of-swap_remove i ing)
