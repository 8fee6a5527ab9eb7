-- ===== src/TrimLi/Layout.antt =====
-- What `load` writes, against the text as its lines joined.
use npm.Common.{
  ℕ, suc, ◌≤◌, ◌≡◌, refl, ap, arith, Bool, true, false, Option, none, some, List, [], ◌∷◌, ◌++◌,
  replicate, append-nil, length, if◌then◌else◌, Bool-cases, inl, inr,
}
use npm.TrimLi.{Text, gap, emit}

-- The lines that are not empty, with their numbers from a number on.
abbrev pub numbers : ℕ → List Text → List ℕ
numbers i [] = []
numbers i ([] ∷ ls) = numbers (suc i) ls
numbers i ((c ∷ s) ∷ ls) = i ∷ numbers (suc i) ls

abbrev pub filled : List Text → List Text
filled [] = []
filled ([] ∷ ls) = filled ls
filled ((c ∷ s) ∷ ls) = (c ∷ s) ∷ filled ls

abbrev pub all_empty : List Text → Bool
all_empty [] = true
all_empty ([] ∷ ls) = all_empty ls
all_empty ((c ∷ s) ∷ ls) = false

-- The lines joined by `\n`, without the empty ones at the end.
abbrev pub join_lines : List Text → Text
join_lines [] = []
join_lines (l ∷ ls) = if all_empty ls then l else l ++ (10 ∷ join_lines ls)

abbrev padded : ℕ → List Text → Text
padded n [] = []
padded n ([] ∷ ls) = padded (suc n) ls
padded n ((c ∷ s) ∷ ls) = replicate n 10 ++ (c ∷ s) ++ padded 1 ls

padded-suc :
    (n : ℕ) (ls : List Text) → padded (suc n) ls ≡ (if all_empty ls then [] else 10 ∷ padded n ls)
padded-suc n [] = refl
padded-suc n ([] ∷ ls) = rw (padded-suc (suc n) ls) refl
padded-suc n ((c ∷ s) ∷ ls) = refl

padded-zero : (ls : List Text) → padded 0 ls ≡ join_lines ls
padded-zero [] = refl
padded-zero ([] ∷ ls) = rw (padded-suc 0 ls, padded-zero ls) refl
padded-zero ((c ∷ s) ∷ ls) = elim (Bool-cases (all_empty ls)) [
  | inl e ↦ rw (padded-suc 0 ls, e, append-nil {A = ℕ} s) refl
  | inr e ↦ rw (padded-suc 0 ls, e, padded-zero ls) refl
]

abbrev IsBefore : Option ℕ → ℕ → Type 0
IsBefore none i = Unit {0}
IsBefore (some p) i = p ≤ i

emit-numbers :
    (i k : ℕ) (prev : Option ℕ) (ls : List Text)
    → IsBefore prev i
    → gap prev i ≡ k
    → emit prev (numbers i ls) (filled ls) ≡ padded k ls
unfolding emit gap
emit-numbers i k prev [] b h = refl
emit-numbers i k none ([] ∷ ls) b h = emit-numbers (suc i) (suc k) none ls tt (omega (arith, h))
emit-numbers i k (some p) ([] ∷ ls) b h =
    emit-numbers (suc i) (suc k) (some p) ls (omega arith) (omega arith)
emit-numbers i k prev ((c ∷ s) ∷ ls) b h =
    rw (h, emit-numbers (suc i) 1 (some i) ls (omega arith) (omega arith)) refl

pub emit_lem : (ls : List Text) → emit none (numbers 0 ls) (filled ls) ≡ join_lines ls
unfolding gap
emit_lem ls = rw (emit-numbers 0 0 none ls tt refl) (padded-zero ls)

pub length-numbers : (i : ℕ) (ls : List Text) → length (numbers i ls) ≡ length (filled ls)
length-numbers i [] = refl
length-numbers i ([] ∷ ls) = length-numbers (suc i) ls
length-numbers i ((c ∷ s) ∷ ls) = ap suc (length-numbers (suc i) ls)
