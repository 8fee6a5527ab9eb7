-- ===== src/DnsParse.antt =====
-- dns_parse/src: error.rs, and parse.rs with the reading of names in Name, of a response in Response
-- and the query in Query.
pub mod Name
pub mod Response
pub mod Query
pub mod Labels
pub mod Rounds
pub mod Named
pub mod Reads
pub mod Asked
mod Tests
use npm.Common.{ℕ, zero, suc, ◌+◌, ◌*◌, Option, none, some, List, take, drop, get_elem?}

pub data Error : Type 0 where
  response_too_short : Error
  incomplete_data : Error
  name_out_of_bounds : Error
  pointer_out_of_bounds : Error

-- `Result`, or the fuel of a loop ran out.
pub data Run (A : Type 0) : Type 0 where
  ok : A → Run A
  err : Error → Run A
  out_of_fuel : Run A

infixl 5 ◌>>=◌
abbrev pub ◌>>=◌ : {A B : Type 0} → Run A → (A → Run B) → Run B
ok a >>= f = f a
err e >>= f = err e
out_of_fuel >>= f = out_of_fuel

abbrev pub return : {A : Type 0} → A → Run A
return a = ok a

abbrev pub Bytes : Type 0
Bytes = List ℕ

unfoldable pub slice : Bytes → ℕ → ℕ → Bytes
slice bytes start len = take len (drop start bytes)

-- It is read inside of the data.
unfoldable pub byte_at : Bytes → ℕ → ℕ
byte_at bytes i = elim (get_elem? bytes i) [ none ↦ 0 | some b ↦ b ]

unfoldable pub u16_at : Bytes → ℕ → ℕ
unfolding byte_at
u16_at bytes i = byte_at bytes i * 256 + byte_at bytes (i + 1)
