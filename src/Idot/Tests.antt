-- ===== src/Idot/Tests.antt =====
-- A server that answers every question with one address, and the client's queries to it.
use npm.Common.{
  ℕ, ◌+◌, none, some, List, [], ◌∷◌, ◌++◌, inl, inr, ltb, if◌then◌else◌, length, take, drop, All,
  ◌≡◌, refl, arith,
}
use npm.Text.{Text, codes}
use npm.DnsParse.{Bytes, byte_at, u16_at}
use npm.DnsParse.Query.{put_u16, build}
use npm.DnsParse.Response.{Calls}
use npm.Idot.{timeout, Net, new, queries}
use npm.Idot.Exchange.{Serves, Replies, expected, queries-new, Fits}

abbrev reply : Bytes → Bytes
reply msg =
    byte_at msg 0
    ∷ byte_at msg 1
    ∷ 0x81
    ∷ 0x80
    ∷ 0
    ∷ 0
    ∷ 0
    ∷ 1
    ∷ 0
    ∷ 0
    ∷ 0
    ∷ 0
    ∷ 0
    ∷ 0
    ∷ 1
    ∷ 0
    ∷ 1
    ∷ 0
    ∷ 0
    ∷ 0
    ∷ 60
    ∷ 0
    ∷ 4
    ∷ 1
    ∷ 2
    ∷ 3
    ∷ 4
    ∷ []

-- A stream is what can be read of it.
abbrev net : Net (Unit {0}) Bytes ℕ
net = record {
  dial = λ world. (inl [], world);
  write_all =
      λ s bytes. (none, s ++ (put_u16 (length (reply (drop 2 bytes))) ++ reply (drop 2 bytes)));
  flush = λ s. (none, s);
  read_exact = λ s n. if ltb (length s) n then (inr timeout, s) else (inl (take n s), drop n s);
}

abbrev IsIdle : Bytes → Type 0
IsIdle s = s ≡ []

serves : Serves net IsIdle reply
unfolding put_u16
serves = record {
  dials = λ world. ([], refl, refl);
  exchange = λ s msg idle small.
      let bytes : Bytes = put_u16 (length (reply msg)) ++ reply msg in
      (bytes, bytes, reply msg, [], rw idle refl, refl, refl, refl, refl);
}

replies : Replies reply
unfolding u16_at byte_at
replies = record { long = λ msg. omega arith; short = λ msg. omega arith; same_id = λ msg. refl }

abbrev calls : Calls
calls = record {
  from_utf8 = λ bytes. some bytes;
  display_v4 = λ bytes. bytes;
  display_v6 = λ bytes. bytes;
  display_u16 = λ n. (48 + n) ∷ [];
  hex = λ bytes. bytes;
  empty_at = λ n. n;
}

abbrev questions : List (Text × ℕ)
questions = (codes "a.bc", 1) ∷ ((codes "d", 28) ∷ [])

fits : All (Fits net calls 9 (λ s. s) IsIdle reply serves replies) questions
unfolding build
fits = (λ id. omega arith, (λ id. omega arith, tt))

queries-new_example :
    queries net calls 9 (λ s. s) questions new tt ≡ expected net calls 9 (λ s. s) reply 1 questions
queries-new_example = queries-new net calls 9 (λ s. s) IsIdle reply serves replies questions tt fits
