-- ===== src/AutoZstd/Tests.antt =====
-- A crate that compresses the data with a 7 in front, by leaving the 7 out, and fails on other data.
use npm.Common.{
  ℕ, suc, none, some, List, [], ◌∷◌, ◌⊎◌, inl, inr, leb, ◌==◌, ==_iff, if◌then◌else◌, length, ◌≡◌,
  ◌≢◌, refl, arith, Bool-cases, le→leb, gt→leb,
}
use npm.AutoZstd.{Zstd, encode, decode}
use npm.AutoZstd.Tries.{all_tries, decode_ends}
use npm.AutoZstd.RoundTrip.{Inverts, decode-encode_small}

abbrev drop_seven : List ℕ → List ℕ ⊎ ℕ
drop_seven [] = inr 1
drop_seven (b ∷ bytes) = if b == 7 then inl bytes else inr 1

abbrev sevens : Zstd ℕ ℕ
sevens = record {
  default_level = 6;
  compressor = inl tt;
  decompressor = inl tt;
  set_level = λ level. inl tt;
  compress = λ level bytes. drop_seven bytes;
  decompress =
      λ capacity payload. if leb (suc (length payload)) capacity then inl (7 ∷ payload) else inr 0;
  says_too_small = λ e. e == 0;
}

seven_first : (bytes payload : List ℕ) → drop_seven bytes ≡ inl payload → bytes ≡ 7 ∷ payload
seven_first [] payload h = absurd (cc)
seven_first (b ∷ bytes) payload h = elim (Bool-cases (b == 7)) [
  | inl is ↦ let rest : bytes ≡ payload = cc (rw is at h) in rw (rest, (==_iff b 7).0 is) refl
  | inr other ↦ absurd (cc (rw other at h))
]

sevens-Inverts : Inverts sevens
sevens-Inverts = record {
  fits = λ level bytes payload capacity made enough.
      let is : bytes ≡ 7 ∷ payload = seven_first bytes payload made in
      rw (is, le→leb (suc (length payload)) capacity (rw is at enough)) refl;
  too_small = λ level bytes payload capacity made short.
      let is : bytes ≡ 7 ∷ payload = seven_first bytes payload made in
      (0, rw (gt→leb (suc (length payload)) capacity (rw is at short)) refl, refl);
}

abbrev bytes : List ℕ
bytes = 7 ∷ (8 ∷ (9 ∷ []))

encoded : encode sevens bytes none ≡ inl (1 ∷ (8 ∷ (9 ∷ [])))
unfolding encode
encoded = refl

decode-encode_small_example : decode sevens all_tries (1 ∷ (8 ∷ (9 ∷ []))) ≡ some (inl bytes)
decode-encode_small_example =
    decode-encode_small sevens sevens-Inverts bytes none (1 ∷ (8 ∷ (9 ∷ []))) (omega arith) refl
      encoded

decode_ends_example : decode sevens all_tries bytes ≢ none
decode_ends_example = decode_ends sevens bytes
