-- ===== src/Text.antt =====
-- What the crates use of the standard library's strings. A string is the list of its characters;
-- case and white space are those of ASCII.
pub mod Joined
pub mod Cut
use npm.Common.{
  ℕ, ◌+◌, ◌-◌, Bool, true, false, ◌&&◌, ◌||◌, Option, none, some, List, [], ◌∷◌, ◌++◌, map, reverse,
  leb, ◌==◌, if◌then◌else◌,
}
use Prim.Native.Char.{code}
use Prim.Native.String.{String}

abbrev pub Text : Type 0
Text = List ℕ

abbrev pub codes : String → Text
codes String.[] = []
codes (String.◌∷◌ c s) = code c ∷ codes s

unfoldable pub to_upper : ℕ → ℕ
to_upper c = if leb b'a' c && leb c b'z' then c - 32 else c

unfoldable pub to_lower : ℕ → ℕ
to_lower c = if leb b'A' c && leb c b'Z' then c + 32 else c

unfoldable pub is_white : ℕ → Bool
is_white c = (c == 32) || (leb 9 c && leb c 13)

unfoldable pub text_eq : Text → Text → Bool
text_eq [] [] = true
text_eq [] (c ∷ s) = false
text_eq (c ∷ s) [] = false
text_eq (c ∷ s) (d ∷ t) = (c == d) && text_eq s t

unfoldable pub eq_ignore_ascii_case : Text → Text → Bool
eq_ignore_ascii_case s t = text_eq (map to_lower s) (map to_lower t)

unfoldable pub trim_start_matches : (ℕ → Bool) → Text → Text
trim_start_matches p [] = []
trim_start_matches p (c ∷ s) = let rest = trim_start_matches p s in if p c then rest else c ∷ s

unfoldable pub trim_matches : (ℕ → Bool) → Text → Text
trim_matches p s = reverse (trim_start_matches p (reverse (trim_start_matches p s)))

unfoldable pub trim : Text → Text
trim s = trim_matches is_white s

unfoldable pub split_once : ℕ → Text → Option (Text × Text)
split_once sep [] = none
split_once sep (c ∷ s) =
    let rest = split_once sep s in
    if c == sep then some ([], s) else elim rest [ none ↦ none | some (a, b) ↦ some (c ∷ a, b) ]

unfoldable pub is_empty : Text → Bool
is_empty [] = true
is_empty (c ∷ s) = false

unfoldable pub starts_with : Text → Text → Bool
starts_with [] s = true
starts_with (d ∷ p) [] = false
starts_with (d ∷ p) (c ∷ s) = (c == d) && starts_with p s

-- The prefix comes first.
unfoldable pub strip_prefix : Text → Text → Option Text
strip_prefix [] s = some s
strip_prefix (d ∷ p) [] = none
strip_prefix (d ∷ p) (c ∷ s) = let rest = strip_prefix p s in if c == d then rest else none

unfoldable pub extend_first : ℕ → List Text → List Text
extend_first c [] = (c ∷ []) ∷ []
extend_first c (part ∷ parts) = (c ∷ part) ∷ parts

-- `str::split` at the characters of a test.
unfoldable pub split : (ℕ → Bool) → Text → List Text
unfolding extend_first
split p [] = [] ∷ []
split p (c ∷ s) = let rest = split p s in if p c then [] ∷ rest else extend_first c rest

unfoldable pub filled : List Text → List Text
filled [] = []
filled ([] ∷ parts) = filled parts
filled ((c ∷ s) ∷ parts) = (c ∷ s) ∷ filled parts

unfoldable pub split_whitespace : Text → List Text
unfolding split is_white filled
split_whitespace s = filled (split is_white s)

unfoldable pub is_dot : ℕ → Bool
is_dot c = c == b'.'

unfoldable pub join : Text → List Text → Text
join sep [] = []
join sep (part ∷ []) = part
join sep (part ∷ next ∷ parts) = part ++ (sep ++ join sep (next ∷ parts))
