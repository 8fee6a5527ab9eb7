-- ===== src/Text/Joined.antt =====
-- The laws of `split` and `join`.
use npm.Common.{
  ℕ, Bool, true, List, [], ◌∷◌, ◌++◌, ◌≡◌, inl, inr, refl, sym, ap, ◌∙◌, append_assoc, Bool-cases,
  ==_iff,
}
use npm.Text.{Text, extend_first, split, is_dot, join}

module _ (sep : Text) where
  join-extend_first :
      (c : ℕ) (parts : List Text) → join sep (extend_first c parts) ≡ c ∷ join sep parts
  unfolding join extend_first
  join-extend_first c [] = refl
  join-extend_first c (part ∷ []) = refl
  join-extend_first c (part ∷ next ∷ parts) = refl

  pub join-append :
      (s part : Text) (parts : List Text)
      → join sep ((s ++ part) ∷ parts) ≡ s ++ join sep (part ∷ parts)
  unfolding join
  join-append s part [] = refl
  join-append s part (next ∷ parts) = append_assoc s part _

split_filled :
    (p : ℕ → Bool) (s : Text) → (first : Text) × (rest : List Text) × (split p s ≡ first ∷ rest)
unfolding split
split_filled p [] = ([], [], refl)
split_filled p (c ∷ s) = elim (Bool-cases (p c)) [
  | inl is ↦ ([], split p s, rw is refl)
  | inr other ↦
      let (first, rest, e) = split_filled p s in
      (c ∷ first, rest, rw (other, split, e, extend_first) refl)
]

join-nil :
    (sep part : Text) (parts : List Text)
    → join sep ([] ∷ part ∷ parts) ≡ sep ++ join sep (part ∷ parts)
unfolding join
join-nil sep part parts = refl

dot : (c : ℕ) → is_dot c ≡ true → c ≡ b'.'
unfolding is_dot
dot c h = (==_iff c b'.').0 h

-- What is split at the dots is joined by dots.
pub join-split : (s : Text) → join (b'.' ∷ []) (split is_dot s) ≡ s
unfolding split join
join-split [] = refl
join-split (c ∷ s) = elim (Bool-cases (is_dot c)) [
  | inl is ↦
      let (first, rest, e) = split_filled is_dot s in
      rw (is, split, e, join-nil (b'.' ∷ []) first rest)
        (ap (λ t. b'.' ∷ t) (rw e at (join-split s)) ∙ ap (λ x. x ∷ s) (sym (dot c is)))
  | inr other ↦
      rw (other, split, join-extend_first (b'.' ∷ []) c (split is_dot s), join-split s) refl
]
