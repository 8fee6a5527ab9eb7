-- ===== src/Idns/Spf/Gives.antt =====
-- What an operation on the counter of the lookups gives, if it returns.
use npm.Common.{
  ℕ, ◌≡◌, ◌⊎◌, inl, inr, refl, Bool, true, false, Option, none, some, List, [], ◌∷◌, All,
  if◌then◌else◌,
}
use npm.Idns.Spf.Check.{Counting, ◌>>=◌, return, inc_lookup}

abbrev pub In : {A : Type 0} → A → List A → Type 0
In a [] = ⊥
In a (x ∷ xs) = (a ≡ x) ⊎ In a xs

pub All-In : {A : Type 0} (xs : List A) (P : A → Type 0) → ((a : A) → In a xs → P a) → All P xs
All-In [] P h = tt
All-In (x ∷ xs) P h = (h x (inl refl), All-In xs P (λ a i. h a (inr i)))

-- What holds of the value, if the operation returns one.
abbrev pub Returns : {A : Type 0} → (A → Type 0) → Option (A × ℕ) → Type 0
Returns P none = Unit {0}
Returns P (some (a, k)) = P a

abbrev pub Gives : {A : Type 0} → (A → Type 0) → Counting A → Type 0
Gives P m = (n : ℕ) → Returns P (m n)

pub bind-Gives :
    {A B : Type 0} (P : A → Type 0) (Q : B → Type 0) (m : Counting A) (f : A → Counting B)
    → Gives P m
    → ((a : A) → P a → Gives Q (f a))
    → Gives Q (m >>= f)
bind-Gives P Q m f hm hf n = after (m n) (hm n)
  where
    after : (o : Option _) → Returns P o → Returns Q (elim o [ none ↦ none | some (a, k) ↦ f a k ])
    after none h = tt
    after (some (a, k)) h = hf a h k

pub if-Gives :
    {A : Type 0} (P : A → Type 0) (b : Bool) (m n : Counting A)
    → Gives P m
    → Gives P n
    → Gives P (if b then m else n)
if-Gives P true m n hm hn = hm
if-Gives P false m n hm hn = hn

pub inc-Gives :
    {A : Type 0} (P : A → Type 0) (x : A) (m : Counting A)
    → P x
    → Gives P m
    → Gives P (inc_lookup >>= (λ over. if over then return x else m))
inc-Gives P x m hx hm =
    bind-Gives (λ b. Unit {0}) P inc_lookup _ (λ n. any (inc_lookup n))
      (λ b h. if-Gives P b (return x) m (λ n. hx) hm)
  where
    any : (o : Option (Bool × ℕ)) → Returns (λ b. Unit {0}) o
    any none = tt
    any (some p) = tt
