-- ===== src/DnsParse/Tests.antt =====
-- Runs of the parser on messages, and the theorems at concrete inputs.
use npm.Common.{ℕ, ◌+◌, ◌≤◌, ◌<◌, ◌≡◌, refl, arith, some, List, [], ◌∷◌, length, Option, All}
use npm.Text.{Text, codes, split, is_dot, is_empty, join}
use npm.DnsParse.{ok, Bytes, u16_at}
use npm.DnsParse.Name.{read_name, skip_name}
use npm.DnsParse.Labels.{drop_empty}
use npm.DnsParse.Named.{NameAt, read_name_iff}
use npm.DnsParse.Reads.{skip_name-read_name}
use npm.DnsParse.Query.{build}
use npm.DnsParse.Asked.{Utf8, read_name-build}
use npm.DnsParse.Response.{Calls, parse}

abbrev ascii : Bytes → Option Text
ascii bytes = some bytes

abbrev plain : Utf8
plain = record { from_utf8 = ascii; as_bytes = λ s. s; from_utf8-as_bytes = λ s. refl }

-- `ab.c` at 0, and at 6 the name `d` before a pointer to `c`.
abbrev message : Bytes
message = 2 ∷ b'a' ∷ b'b' ∷ 1 ∷ b'c' ∷ 0 ∷ 1 ∷ b'd' ∷ 0xC0 ∷ 3 ∷ []

compressed_run : read_name ascii 4 message 6 ≡ ok (codes "d.c", 10)
unfolding read_name
compressed_run = refl

message_bytes : All (λ b. b < 256) message
message_bytes = ground arith

read_name_iff_example :
    (labels : List Text) × NameAt ascii message 4 6 labels 10
    × (codes "d.c" ≡ join (b'.' ∷ []) (drop_empty labels))
read_name_iff_example =
    (read_name_iff ascii message 4 6 (codes "d.c") 10 message_bytes).0 compressed_run

skip_name-read_name_example : (skip_name message 6 ≡ ok 10) × (6 < 10) × (10 ≤ length message)
skip_name-read_name_example = skip_name-read_name ascii message 4 6 (codes "d.c") 10 compressed_run

read_name-build_example :
    (e : ℕ) × (read_name ascii 4 (build (λ s. s) 7 (codes "a.bc") 15) 12 ≡ ok (codes "a.bc", e))
    × (u16_at (build (λ s. s) 7 (codes "a.bc") 15) e ≡ 15)
unfolding split is_dot is_empty
read_name-build_example =
    read_name-build plain 7 15 (codes "a.bc") 4
      ((refl, omega arith, omega arith), ((refl, omega arith, omega arith), tt)) (omega arith)

abbrev calls : Calls
calls = record {
  from_utf8 = ascii;
  display_v4 = λ bytes. bytes;
  display_v6 = λ bytes. bytes;
  display_u16 = λ n. (48 + n) ∷ [];
  hex = λ bytes. bytes;
  empty_at = λ n. n;
}

-- One question and one MX record for the same name.
abbrev response : Bytes
response =
    0 ∷ 0 ∷ 0x81 ∷ 0x80 ∷ 0 ∷ 1 ∷ 0 ∷ 1 ∷ 0 ∷ 0 ∷ 0 ∷ 0 ∷ 1 ∷ b'a' ∷ 0 ∷ 0 ∷ 15 ∷ 0 ∷ 1 ∷ 0xC0 ∷ 12
    ∷ 0 ∷ 15 ∷ 0 ∷ 1 ∷ 0 ∷ 0 ∷ 1 ∷ 44 ∷ 0 ∷ 6 ∷ 0 ∷ 5 ∷ 1 ∷ b'm' ∷ 0xC0 ∷ 12 ∷ []

response_run :
    parse calls 10 response
    ≡ ok (record { name = codes "a"; val = codes "5 m.a"; type_id = 15; ttl = 300 } ∷ [])
unfolding parse
response_run = refl
