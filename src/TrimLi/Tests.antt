-- ===== src/TrimLi/Tests.antt =====
-- Runs of the two functions, and the theorem at a concrete input. A bitmap is its list of numbers.
use npm.Common.{ℕ, ◌≡◌, refl, arith, some, List, [], ◌∷◌, ◌++◌}
use npm.TrimLi.{Text, Bitmaps, is_blank, trim_li, load}
use npm.TrimLi.Layout.{join_lines}
use npm.TrimLi.Reference.{reference_lines}
use npm.TrimLi.Restored.{load-trim_li}

abbrev as_lists : Bitmaps (List ℕ)
as_lists = record {
  new = [];
  insert = λ i b. b ++ (i ∷ []);
  iter = λ b. b;
  iter-new = refl;
  iter-insert = λ i b h. refl;
}

-- "\na \r\n\nb\n\n"
abbrev sample : Text
sample = 10 ∷ b'a' ∷ 32 ∷ 13 ∷ 10 ∷ 10 ∷ b'b' ∷ 10 ∷ 10 ∷ []

load-trim_li_example :
    (b : List ℕ) × (li : List Text) × (trim_li as_lists sample ≡ some (b, li))
    × (load as_lists b li ≡ some (join_lines (reference_lines sample)))
load-trim_li_example = load-trim_li as_lists sample (omega arith)

sample_trimmed : trim_li as_lists sample ≡ some (1 ∷ 3 ∷ [], (b'a' ∷ []) ∷ (b'b' ∷ []) ∷ [])
unfolding trim_li is_blank
sample_trimmed = refl
