-- ===== src/DnsParse/Reads.antt =====
-- Where names end, for `skip_name` and for `read_name`.
use npm.Common.{ℕ, zero, suc, ◌+◌, ◌≤◌, ◌<◌, Option, List, ◌≡◌, refl, arith, length}
use npm.Text.{Text}
use npm.DnsParse.{ok, Bytes}
use npm.DnsParse.Name.{read_name, skip_loop, skip_name}
use npm.DnsParse.Rounds.{
  Rounds, root, label, pointer, Rounds-bounds, get_elem?-bound, read_name-Rounds,
}

module _ {from_utf8 : Bytes → Option Text} {bytes : Bytes} where
  skip_loop-Rounds :
      (fuel : ℕ) {n pos e : ℕ} {labels : List Text}
      → length bytes < pos + fuel
      → Rounds from_utf8 bytes n pos labels e
      → skip_loop fuel bytes pos ≡ ok e
  unfolding skip_loop
  skip_loop-Rounds zero h (root n pos at) = absurd (omega (arith, get_elem?-bound bytes pos 0 at))
  skip_loop-Rounds zero h (label n pos len labels e at nonzero plain inside rest) =
      absurd (omega (arith, get_elem?-bound bytes pos len at))
  skip_loop-Rounds zero h (pointer n pos len low labels e at nonzero is low_at rest) =
      absurd (omega (arith, get_elem?-bound bytes pos len at))
  skip_loop-Rounds (suc fuel) h (root n pos at) = rw (at, skip_loop) refl
  skip_loop-Rounds (suc fuel) h (label n pos len labels e at nonzero plain inside rest) =
      rw (at, skip_loop, nonzero, plain) (skip_loop-Rounds fuel (omega arith) rest)
  skip_loop-Rounds (suc fuel) h (pointer n pos len low labels e at nonzero is low_at rest) =
      rw (at, skip_loop, nonzero, is) refl

-- Where reading a name ends, inside of the message and behind its start, skipping it ends too.
pub skip_name-read_name :
    (from_utf8 : Bytes → Option Text) (bytes : Bytes) (fuel pos : ℕ) (name : Text) (e : ℕ)
    → read_name from_utf8 fuel bytes pos ≡ ok (name, e)
    → (skip_name bytes pos ≡ ok e) × (pos < e) × (e ≤ length bytes)
unfolding skip_name
skip_name-read_name from_utf8 bytes fuel pos name e h =
    let at : Rounds from_utf8 bytes fuel pos _ e =
      ((read_name-Rounds from_utf8 bytes fuel pos name e).0 h).1 in
    (
      skip_loop-Rounds (suc (length bytes)) (omega arith) at,
      (Rounds-bounds at).0,
      (Rounds-bounds at).1,
    )
