-- ===== src/DnsParse/Name.antt =====
-- `read_name` and `skip_name` of dns_parse/src/parse.rs. The fuel counts the rounds of a loop.
use npm.Common.{
  ℕ, zero, suc, ◌+◌, ◌*◌, Bool, true, false, Option, none, some, [], ◌∷◌, ◌++◌, ltb, ◌==◌,
  if◌then◌else◌, length, get_elem?,
}
use npm.Text.{Text, is_empty}
use npm.DnsParse.{
  Error, name_out_of_bounds, pointer_out_of_bounds, Run, ok, err, out_of_fuel, Bytes, slice,
}
use Prim.Native.Nat.{bit_and, bit_or}

unfoldable pub is_pointer : ℕ → Bool
is_pointer len = bit_and len 0xC0 == 0xC0

unfoldable pub pointer_offset : ℕ → ℕ → ℕ
pointer_offset len low = bit_or (bit_and len 0x3F * 256) low

unfoldable pub dotted : Text → Text
unfolding is_empty
dotted name = if is_empty name then name else name ++ (b'.' ∷ [])

unfoldable pub push_label : Text → Text → Text
unfolding dotted
push_label name label = dotted name ++ label

-- A label that is not UTF-8 is left out.
unfoldable pub valid_or_empty : Option Text → Text
valid_or_empty none = []
valid_or_empty (some label) = label

-- How a round ends: `break`, `return Err`, or the next round with its `cur`, `jumped`, `end_pos` and
-- `name`.
pub data Round : Type 0 where
  finished : Text → ℕ → Round
  failed : Error → Round
  again : ℕ → Bool → ℕ → Text → Round

unfoldable pub pointer_round : ℕ → ℕ → Bool → ℕ → Text → Option ℕ → Round
unfolding pointer_offset
pointer_round len cur jumped end_pos name none = failed pointer_out_of_bounds
pointer_round len cur jumped end_pos name (some low) =
    again (pointer_offset len low) true (if jumped then end_pos else cur + 2) name

-- `str::from_utf8`.
module _ (from_utf8 : Bytes → Option Text) where
  unfoldable pub label_text : Bytes → ℕ → ℕ → Text
  unfolding valid_or_empty slice
  label_text bytes start len = valid_or_empty (from_utf8 (slice bytes start len))

  unfoldable pub label_round : Bytes → ℕ → ℕ → Bool → ℕ → Text → Round
  unfolding label_text push_label
  label_round bytes len cur jumped end_pos name =
      if ltb (length bytes) (cur + 1 + len)
      then failed name_out_of_bounds
      else again (cur + 1 + len) jumped end_pos (push_label name (label_text bytes (cur + 1) len))

  unfoldable pub name_round : Bytes → ℕ → Bool → ℕ → Text → Round
  unfolding label_round pointer_round is_pointer
  name_round bytes cur jumped end_pos name = elim (get_elem? bytes cur) [
    | none ↦ failed name_out_of_bounds
    | some len ↦
        if len == 0
        then finished name (if jumped then end_pos else cur + 1)
        else if is_pointer len
        then pointer_round len cur jumped end_pos name (get_elem? bytes (cur + 1))
        else label_round bytes len cur jumped end_pos name
  ]

  unfoldable pub read_loop : ℕ → Bytes → ℕ → Bool → ℕ → Text → Run (Text × ℕ)
  unfolding name_round
  read_loop zero bytes cur jumped end_pos name = out_of_fuel
  read_loop (suc fuel) bytes cur jumped end_pos name =
      elim (name_round bytes cur jumped end_pos name) [
        | finished r e ↦ ok (r, e)
        | failed e ↦ err e
        | again c j e r ↦ read_loop fuel bytes c j e r
      ]

  unfoldable pub read_name : ℕ → Bytes → ℕ → Run (Text × ℕ)
  unfolding read_loop
  read_name fuel bytes pos = read_loop fuel bytes pos false pos []

unfoldable pub skip_loop : ℕ → Bytes → ℕ → Run ℕ
unfolding is_pointer
skip_loop zero bytes pos = out_of_fuel
skip_loop (suc fuel) bytes pos = elim (get_elem? bytes pos) [
  | none ↦ err name_out_of_bounds
  | some len ↦
      let rest = skip_loop fuel bytes (pos + 1 + len) in
      if len == 0 then ok (pos + 1) else if is_pointer len then ok (pos + 2) else rest
]

-- Each round moves on by a byte at least.
unfoldable pub skip_name : Bytes → ℕ → Run ℕ
unfolding skip_loop
skip_name bytes pos = skip_loop (suc (length bytes)) bytes pos
