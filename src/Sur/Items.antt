-- ===== src/Sur/Items.antt =====
-- What a query returns of the items of an answer.
use npm.Common.{
  Option, none, some, List, [], ◌∷◌, ◌++◌, ◌⊎◌, inl, inr, false, ◌≡◌, refl, ◌↔◌, sym, ap, ◌∙◌,
  Bool-cases, All,
}
use npm.Text.{codes, text_eq}
use npm.Sur.{Error, QueryItem, Crates}
use npm.Sur.Query.{Sur, push_result, results}

abbrev pub IsFine : {T : Type 0} → QueryItem T → Type 0
IsFine item = text_eq item.status (codes "ERR") ≡ false

abbrev pub values_of : {T : Type 0} → Option T → List T
values_of none = []
values_of (some res) = res ∷ []

-- The results that the items have.
unfoldable pub present : {T : Type 0} → List (QueryItem T) → List T
present [] = []
present (item ∷ items) = values_of item.result ++ present items

module _ {W P T E : Type 0} (crates : Crates W P T E) (sur : Sur) where
  push-values : (o : Option T) (out : List T) → push_result crates sur o out ≡ values_of o ++ out
  unfolding push_result
  push-values none out = refl
  push-values (some res) out = refl

  Result-cases :
      (r : List T ⊎ Error E) → ((out : List T) × (r ≡ inl out)) ⊎ ((e : Error E) × (r ≡ inr e))
  Result-cases (inl out) = inl (out, refl)
  Result-cases (inr e) = inr (e, refl)

  results-All :
      (items : List (QueryItem T))
      → All IsFine items
      → results crates sur items ≡ inl (present items)
  unfolding results present
  results-All [] h = refl
  results-All (item ∷ items) h =
      rw (h.0, results-All items h.1) (ap inl (push-values item.result (present items)))

  results-IsFine :
      (items : List (QueryItem T)) (out : List T)
      → results crates sur items ≡ inl out
      → All IsFine items
  unfolding results
  results-IsFine [] out h = tt
  results-IsFine (item ∷ items) out h = elim (Bool-cases (text_eq item.status (codes "ERR"))) [
    | inl is ↦ absurd (cc (rw (results, is) at h))
    | inr fine ↦ elim (Result-cases (results crates sur items)) [
      | inl (rest, found) ↦ (fine, results-IsFine items rest found)
      | inr (e, failed) ↦ absurd (cc (rw (results, fine, failed) at h))
    ]
  ]

  -- A query returns results exactly when no item of the answer has the status ERR, and then the
  -- results are those that the items have, in their order.
  pub results_iff :
      (items : List (QueryItem T)) (out : List T)
      → (results crates sur items ≡ inl out) ↔ (All IsFine items × (out ≡ present items))
  results_iff items out = (
    λ h.
        let fine : All IsFine items = results-IsFine items out h in
        (fine, cc (results-All items fine)),
    λ (fine, is). results-All items fine ∙ ap inl (sym is),
  )
