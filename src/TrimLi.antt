-- ===== src/TrimLi.antt =====
-- trim_li/src: the lines of a text without the empty ones and without white space at their ends,
-- and the text put together again from them. A text is the list of its characters.
pub mod Layout
pub mod Reference
pub mod Restored
mod Tests
use npm.Common.{
  ℕ, zero, suc, ◌+◌, ◌-◌, ◌^◌, ◌%◌, ◌<◌, ◌≡◌, Bool, true, false, ◌&&◌, ◌||◌, Option, none, some,
  List, [], ◌∷◌, ◌++◌, reverse, replicate, All, length, ltb, leb, ◌==◌, if◌then◌else◌,
}

abbrev pub Text : Type 0
Text = List ℕ

-- The crate roaring: a set of words, which `iter` lists in increasing order.
pub record Bitmaps (B : Type 0) : Type 0 where
  pub new : B
  pub insert : ℕ → B → B
  pub iter : B → List ℕ
  pub iter-new : iter new ≡ []
  pub iter-insert :
      (i : ℕ) (b : B) → All (λ j. j < i) (iter b) → iter (insert i b) ≡ iter b ++ (i ∷ [])

unfoldable pub is_blank : ℕ → Bool
is_blank c = (c == 32) || (c == 9)

-- `char::is_whitespace`: White_Space of Unicode.
unfoldable pub is_whitespace : ℕ → Bool
is_whitespace c =
    (leb 9 c && leb c 13)
    || (c == 32)
    || (c == 133)
    || (c == 160)
    || (c == 5760)
    || (leb 8192 c && leb c 8202)
    || (c == 8232)
    || (c == 8233)
    || (c == 8239)
    || (c == 8287)
    || (c == 12288)

unfoldable pub drop_while : (ℕ → Bool) → Text → Text
drop_while p [] = []
drop_while p (c ∷ s) = let rest = drop_while p s in if p c then rest else c ∷ s

-- The rest of `trim_end_space_tab`, on the line from its end, from the last character that is
-- neither a space nor a tab.
unfoldable pub trim_rest : Text → Text
trim_rest [] = []
trim_rest (c ∷ s) =
    if (ltb 127 c || ((c == 11) || (c == 12))) && is_whitespace c
    then drop_while is_whitespace (c ∷ s)
    else c ∷ s

unfoldable pub trim_end_space_tab : Text → Text
unfolding drop_while trim_rest
trim_end_space_tab s = reverse (trim_rest (drop_while is_blank (reverse s)))

unfoldable pub skip_lf : Text → Text
skip_lf [] = []
skip_lf (c ∷ s) = if c == 10 then s else c ∷ s

-- The line up to `\n`, `\r` or `\r\n`, and what follows.
unfoldable pub next_line : Text → Text × Text
unfolding skip_lf
next_line [] = ([], [])
next_line (c ∷ s) =
    let rest = next_line s in
    if c == 10 then ([], s) else if c == 13 then ([], skip_lf s) else (c ∷ rest.0, rest.1)

unfoldable pub gap : Option ℕ → ℕ → ℕ
gap none i = i
gap (some prev) i = i - prev

unfoldable pub emit : Option ℕ → List ℕ → List Text → Text
unfolding gap
emit prev [] li = []
emit prev (i ∷ is) [] = []
emit prev (i ∷ is) (l ∷ li) = replicate (gap prev i) 10 ++ l ++ emit (some i) is li

module _ {B : Type 0} (bitmaps : Bitmaps B) where
  unfoldable pub add_line : ℕ → Text → B × List Text → B × List Text
  add_line i [] (b, li) = (b, li)
  add_line i (c ∷ s) (b, li) = (bitmaps.insert i b, li ++ ((c ∷ s) ∷ []))

  -- One unit of fuel is one line; `none` means that the fuel ran out.
  unfoldable pub trim_loop : ℕ → Text → ℕ → B × List Text → Option (B × List Text)
  unfolding add_line next_line trim_end_space_tab
  trim_loop fuel [] i acc = some acc
  trim_loop zero (c ∷ s) i acc = none
  trim_loop (suc fuel) (c ∷ s) i acc =
      trim_loop fuel (next_line (c ∷ s)).1 ((i + 1) % 2 ^ 32)
        (add_line i (trim_end_space_tab (next_line (c ∷ s)).0) acc)

  unfoldable pub trim_li : Text → Option (B × List Text)
  unfolding trim_loop
  trim_li txt = trim_loop (length txt) txt 0 (bitmaps.new, [])

  unfoldable pub load : B → List Text → Option Text
  unfolding emit
  load b li =
      if length li == length (bitmaps.iter b) then some (emit none (bitmaps.iter b) li) else none
