-- ===== src/PickFast/Concurrent.antt =====
-- Many threads on one picker. `set` and `failed` are two atomic steps each: the CAS on the weight
-- of a node, and the update of the total by the difference. Between the two the difference is in
-- flight.
use npm.Common.{ℕ, ◌+◌, ◌%◌, ◌<◌, ◌≡◌, sym, ap, arith, List, [], ◌∷◌, ◌++◌, some, get_elem?, set}
use mathlib.Core.Path.{subst}
use npm.PickFast.{u32_mod, Node, PickFast, adjust}
use npm.PickFast.Weights.{sum_weights, sum_weights-set}

-- What a thread carries from its CAS to its update of the total.
pub record InFlight : Type 0 where
  pub prev : ℕ
  pub new_w : ℕ

pub record Shared (T : Type 0) : Type 0 where
  pub picker : PickFast T
  pub in_flight : List InFlight

abbrev pub new_sum : List InFlight → ℕ
new_sum [] = 0
new_sum (t ∷ ts) = t.new_w + new_sum ts

abbrev pub prev_sum : List InFlight → ℕ
prev_sum [] = 0
prev_sum (t ∷ ts) = t.prev + prev_sum ts

abbrev AllWords : List InFlight → Type 0
AllWords [] = Unit
AllWords (t ∷ ts) = (t.prev < u32_mod) × (t.new_w < u32_mod) × AllWords ts

new_sum-append : (xs ys : List InFlight) → new_sum (xs ++ ys) ≡ new_sum xs + new_sum ys
new_sum-append [] ys = omega arith
new_sum-append (x ∷ xs) ys = omega (arith, new_sum-append xs ys)

prev_sum-append : (xs ys : List InFlight) → prev_sum (xs ++ ys) ≡ prev_sum xs + prev_sum ys
prev_sum-append [] ys = omega arith
prev_sum-append (x ∷ xs) ys = omega (arith, prev_sum-append xs ys)

AllWords-remove :
    (xs : List InFlight) (t : InFlight) (ys : List InFlight)
    → AllWords (xs ++ (t ∷ ys))
    → (t.prev < u32_mod) × (t.new_w < u32_mod) × AllWords (xs ++ ys)
AllWords-remove [] t ys h = h
AllWords-remove (x ∷ xs) t ys h =
    let (a, b, c) = AllWords-remove xs t ys h.2 in (a, b, (h.0, h.1, c))

adjust_mod :
    (total prev new_w : ℕ)
    → total < u32_mod
    → prev < u32_mod
    → new_w < u32_mod
    → (adjust total prev new_w < u32_mod)
      × ((adjust total prev new_w + prev) % u32_mod ≡ (total + new_w) % u32_mod)
unfolding adjust
adjust_mod total prev new_w h₁ h₂ h₃ = ground arith

module _ {T : Type 0} where
  -- The CAS succeeds on the weight that it read, and the thread keeps the old and the new weight.
  abbrev pub cas : (ℕ → ℕ) → ℕ → Node T → Shared T → Shared T
  cas f i x s = record s {
    picker = record s.picker {
      li = set s.picker.li i (record { content = x.content; weight = f x.weight });
    };
    in_flight = record { prev = x.weight; new_w = f x.weight } ∷ s.in_flight;
  }

  abbrev pub settle : List InFlight → InFlight → List InFlight → Shared T → Shared T
  settle before t after s = record s {
    picker = record s.picker { total = adjust s.picker.total t.prev t.new_w };
    in_flight = before ++ after;
  }

  pub data Step (s : Shared T) : Shared T → Type 0 where
    swap :
        (f : ℕ → ℕ) (i : ℕ) (x : Node T)
        → get_elem? s.picker.li i ≡ some x
        → x.weight < u32_mod
        → f x.weight < u32_mod
        → Step s (cas f i x s)
    finish :
        (before after : List InFlight) (t : InFlight)
        → s.in_flight ≡ before ++ (t ∷ after)
        → Step s (settle before t after s)

  pub data Reach (s : Shared T) : Shared T → Type 0 where
    here : Reach s s
    next : {t u : Shared T} → Reach s t → Step t u → Reach s u

  -- The total and the weights differ by what is in flight, up to the wrap of a u32.
  pub record IsBalanced (s : Shared T) : Type 0 where
    pub word : s.picker.total < u32_mod
    pub words : AllWords s.in_flight
    pub balance :
        (s.picker.total + new_sum s.in_flight) % u32_mod
        ≡ (sum_weights s.picker.li + prev_sum s.in_flight) % u32_mod

  Step-IsBalanced : {s t : Shared T} → Step s t → IsBalanced s → IsBalanced t
  Step-IsBalanced {s} (swap f i x e h₁ h₂) b = record {
    word = b.word;
    words = (h₁, h₂, b.words);
    balance = omega (
      arith,
      b.balance,
      sum_weights-set s.picker.li i x (record { content = x.content; weight = f x.weight }) e,
    );
  }
  Step-IsBalanced {s} (finish before after t e) b =
      let (p, n, rest) = AllWords-remove before t after (subst AllWords e b.words) in
      let (w, a) = adjust_mod s.picker.total t.prev t.new_w b.word p n in
      record {
        word = w;
        words = rest;
        balance = omega (
          arith,
          a,
          b.balance,
          ap new_sum e,
          ap prev_sum e,
          new_sum-append before (t ∷ after),
          prev_sum-append before (t ∷ after),
          new_sum-append before after,
          prev_sum-append before after,
        );
      }

  Reach-IsBalanced : {s t : Shared T} → IsBalanced s → Reach s t → IsBalanced t
  Reach-IsBalanced b here = b
  Reach-IsBalanced b (next r st) = Step-IsBalanced st (Reach-IsBalanced b r)

  start-IsBalanced :
      (s : Shared T)
      → s.in_flight ≡ []
      → s.picker.total ≡ sum_weights s.picker.li
      → s.picker.total < u32_mod
      → IsBalanced s
  start-IsBalanced s e exact word = record {
    word = word;
    words = subst AllWords (sym e) tt;
    balance = omega (arith, ap new_sum e, ap prev_sum e, exact);
  }

  -- From a picker with an exact total, however the atomic steps of `set` and `failed` interleave,
  -- the total and the sum of the weights differ by what is in flight, up to the wrap of a u32.
  pub Reach-balance :
      (s t : Shared T)
      → s.in_flight ≡ []
      → s.picker.total ≡ sum_weights s.picker.li
      → s.picker.total < u32_mod
      → Reach s t
      → (t.picker.total + new_sum t.in_flight) % u32_mod
        ≡ (sum_weights t.picker.li + prev_sum t.in_flight) % u32_mod
  Reach-balance s t e exact word r = (Reach-IsBalanced (start-IsBalanced s e exact word) r).balance

  -- When every thread has finished, and the weights sum to a u32, the total is exact again.
  pub Reach-exact :
      (s t : Shared T)
      → s.in_flight ≡ []
      → s.picker.total ≡ sum_weights s.picker.li
      → s.picker.total < u32_mod
      → Reach s t
      → t.in_flight ≡ []
      → sum_weights t.picker.li < u32_mod
      → t.picker.total ≡ sum_weights t.picker.li
  Reach-exact s t e exact word r idle fits =
      let b : IsBalanced t = Reach-IsBalanced (start-IsBalanced s e exact word) r in
      omega (arith, b.balance, b.word, ap new_sum idle, ap prev_sum idle)
