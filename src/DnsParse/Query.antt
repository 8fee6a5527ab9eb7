-- ===== src/DnsParse/Query.antt =====
-- `build` of dns_parse/src/parse.rs.
use npm.Common.{ℕ, ◌/◌, ◌%◌, List, [], ◌∷◌, ◌++◌, length}
use npm.Text.{Text, split, is_dot}
use npm.DnsParse.{Bytes}

unfoldable pub put_u16 : ℕ → Bytes
put_u16 n = n / 256 ∷ n % 256 ∷ []

unfoldable pub header : ℕ → Bytes
unfolding put_u16
header id = put_u16 id ++ (1 ∷ 0 ∷ 0 ∷ 1 ∷ 0 ∷ 0 ∷ 0 ∷ 0 ∷ 0 ∷ 1 ∷ [])

unfoldable pub trailer : ℕ → Bytes
unfolding put_u16
trailer qtype = put_u16 qtype ++ (0 ∷ 1 ∷ 0 ∷ 0 ∷ 41 ∷ 16 ∷ 0 ∷ 0 ∷ 0 ∷ 0 ∷ 0 ∷ 0 ∷ 0 ∷ [])

-- `str::as_bytes`.
module _ (as_bytes : Text → Bytes) where
  unfoldable pub put_label : Text → Bytes
  put_label label = length (as_bytes label) % 256 ∷ as_bytes label

  unfoldable pub put_labels : List Text → Bytes
  unfolding put_label
  put_labels [] = 0 ∷ []
  put_labels (label ∷ labels) = put_label label ++ put_labels labels

  unfoldable pub build : ℕ → Text → ℕ → Bytes
  unfolding header put_labels split is_dot trailer
  build id domain qtype = header id ++ (put_labels (split is_dot domain) ++ trailer qtype)
