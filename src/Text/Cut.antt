-- ===== src/Text/Cut.antt =====
-- The laws of `str::split_once`.
use npm.Common.{
  ℕ, some, [], ◌∷◌, ◌++◌, inl, inr, false, ◌==◌, ◌≡◌, refl, ap, sym, Bool-cases, ==_iff, All,
  Option-cases,
}
use npm.Text.{Text, split_once}

-- A text without the character.
abbrev pub Lacks : ℕ → Text → Type 0
Lacks sep s = All (λ c. (c == sep) ≡ false) s

pub split_once-append :
    (sep : ℕ) (a b : Text) → Lacks sep a → split_once sep (a ++ (sep ∷ b)) ≡ some (a, b)
unfolding split_once
split_once-append sep [] b h = rw ((==_iff sep sep).1 refl) refl
split_once-append sep (c ∷ a) b h = rw (h.0, split_once-append sep a b h.1) refl

abbrev pub IsCut : ℕ → Text → Text → Text → Type 0
IsCut sep s a b = (a ++ (sep ∷ b) ≡ s) × Lacks sep a

pub split_once-IsCut : (sep : ℕ) (s a b : Text) → split_once sep s ≡ some (a, b) → IsCut sep s a b
unfolding split_once
split_once-IsCut sep [] a b h = absurd (cc)
split_once-IsCut sep (c ∷ s) a b h = elim (Bool-cases (c == sep)) [
  | inl is ↦
      let same : c ≡ sep = (==_iff c sep).0 is in
      let a_is : [] ≡ a = cc (rw (split_once, is) at h) in
      let b_is : s ≡ b = cc (rw (split_once, is) at h) in rw (sym a_is, sym b_is, same) (refl, tt)
  | inr differ ↦ elim (Option-cases (split_once sep s)) [
    | inl no_sep ↦ absurd (cc (rw (split_once, differ, no_sep) at h))
    | inr (cut, found) ↦
        let (whole, lacks) = split_once-IsCut sep s cut.0 cut.1 found in
        let a_is : c ∷ cut.0 ≡ a = cc (rw (split_once, differ, found) at h) in
        let b_is : cut.1 ≡ b = cc (rw (split_once, differ, found) at h) in
        rw (sym a_is, sym b_is) (ap (λ t. c ∷ t) whole, (differ, lacks))
  ]
]
