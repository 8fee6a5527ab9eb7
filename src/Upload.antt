-- ===== src/Upload.antt =====
-- upload/src/s3/sign.rs, and the prefix of an S3 in mod.rs: the headers of a request that is signed
-- with version 4 of the signature of AWS. The hash functions, the printing of a number and what a
-- header may hold are parameters. A panic, or an index that is not there, is `none`.
pub mod Values
pub mod Spec
pub mod Signed
pub mod Date
mod Tests
use npm.Common.{
  ℕ, ◌+◌, ◌-◌, ◌/◌, ◌%◌, ◌≤◌, Bool, true, false, Option, none, some, List, [], ◌∷◌, ◌++◌, ◌⊎◌, inl,
  inr, leb, ◌==◌, if◌then◌else◌, length, take, drop, replicate,
}
use npm.Text.{Text, codes, split_once}

pub record Crates : Type 0 where
  pub hmac : Text → Text → Text
  pub sha256 : Text → Text
  pub hex : Text → Text
  pub display : ℕ → Text
  pub is_header_value : Text → Bool

pub record S3 : Type 0 where
  pub s3_id : Text
  pub s3_sk : Text
  pub s3_region : Text
  pub url_prefix : Text

-- A time of UTC.
pub record DateTime : Type 0 where
  pub year : ℕ
  pub month : ℕ
  pub day : ℕ
  pub hour : ℕ
  pub minute : ℕ
  pub second : ℕ

pub data Error : Type 0 where
  invalid_header_value : Text → Error

unfoldable pub prefix_of : Text → Text → Text
prefix_of host bucket = codes "https://" ++ (host ++ (codes "/" ++ (bucket ++ codes "/")))

-- `b'0' + n` on bytes.
unfoldable pub digit : ℕ → ℕ
digit n = (48 + n % 256) % 256

unfoldable pub amz_date : DateTime → Text
unfolding digit
amz_date t =
    digit (t.year / 1000)
    ∷ digit (t.year / 100 % 10)
    ∷ digit (t.year / 10 % 10)
    ∷ digit (t.year % 10)
    ∷ digit (t.month / 10)
    ∷ digit (t.month % 10)
    ∷ digit (t.day / 10)
    ∷ digit (t.day % 10)
    ∷ b'T'
    ∷ digit (t.hour / 10)
    ∷ digit (t.hour % 10)
    ∷ digit (t.minute / 10)
    ∷ digit (t.minute % 10)
    ∷ digit (t.second / 10)
    ∷ digit (t.second % 10)
    ∷ b'Z'
    ∷ []

-- The host, and the bucket without the slash at its end.
unfoldable pub bucket_of : Text → Text → Option (Text × Text)
bucket_of host [] = none
bucket_of host (c ∷ rest) = some (host, take (length rest) (c ∷ rest))

unfoldable pub host_bucket : Text → Option (Text × Text)
unfolding bucket_of split_once
host_bucket url_prefix = elim (split_once b'/' (drop 8 url_prefix)) [
  | none ↦ none
  | some (host, rest) ↦ bucket_of host rest
]

unfoldable pub insert_all : (Text → Bool) → List (Bool × Text × Text) → List (Text × Text) ⊎ Error
insert_all valid [] = inl []
insert_all valid ((free, name, value) ∷ headers) =
    let rest = insert_all valid headers in
    if free
    then (elim rest [ inl hs ↦ inl ((name, value) ∷ hs) | inr e ↦ inr e ])
    else if valid value
    then (elim rest [ inl hs ↦ inl ((name, value) ∷ hs) | inr e ↦ inr e ])
    else inr (invalid_header_value value)

module _ (crates : Crates) where
  unfoldable pub sha256_hex : Text → Text
  sha256_hex bytes = crates.hex (crates.sha256 bytes)

  -- A short key is put together in a buffer.
  unfoldable pub date_key : Text → Text → Text
  date_key sk date =
      if leb (length sk + 4) 128
      then crates.hmac
          (take (4 + length sk) (codes "AWS4" ++ (sk ++ replicate (124 - length sk) 0))) date
      else crates.hmac (codes "AWS4" ++ sk) date

  unfoldable pub canonical_request : Text → Text → Text → Text → Text → Text → Text → Text → Text
  canonical_request method bucket path cache_control mime host payload date =
      method
      ++ (codes "\n/"
          ++ (bucket
              ++ (codes "/"
                  ++ (path
                      ++ (codes "\n\ncache-control:"
                          ++ (cache_control
                              ++ (codes "\ncontent-type:"
                                  ++ (mime
                                      ++ (codes "\nhost:"
                                          ++ (host
                                              ++ (codes "\nx-amz-content-sha256:"
                                                  ++ (payload
                                                      ++ (codes "\nx-amz-date:"
                                                          ++ (date
                                                            ++ (codes
                                                            "\n\ncache-control;content-type;host;x-amz-content-sha256;x-amz-date\n"
                                                            ++ payload)))))))))))))))

  unfoldable pub scope_of : S3 → Text → Text
  scope_of s3 date_only = date_only ++ (codes "/" ++ (s3.s3_region ++ codes "/s3/aws4_request"))

  unfoldable pub string_to_sign : Text → Text → Text → Text
  string_to_sign date scope hash =
      codes "AWS4-HMAC-SHA256\n" ++ (date ++ (codes "\n" ++ (scope ++ (codes "\n" ++ hash))))

  unfoldable pub authorization : Text → Text → Text → Text
  authorization id scope signature =
      codes "AWS4-HMAC-SHA256 Credential="
      ++ (id
          ++ (codes "/"
              ++ (scope
                  ++ (codes
                        ",SignedHeaders=cache-control;content-type;host;x-amz-content-sha256;x-amz-date, Signature="
                      ++ signature))))

  unfoldable pub sign_key : S3 → Text → Text
  unfolding date_key
  sign_key s3 date_only =
      crates.hmac
        (crates.hmac (crates.hmac (date_key s3.s3_sk date_only) s3.s3_region) (codes "s3"))
        (codes "aws4_request")

  unfoldable pub sign_at :
      Text → S3 → Text → Text → Text → Text → DateTime → Text × Text → List (Text × Text) ⊎ Error
  unfolding amz_date sha256_hex canonical_request scope_of string_to_sign sign_key authorization
      insert_all
  sign_at method s3 buf path mime cache_control now (host, bucket) =
      let date = amz_date now in
      let date_only = take 8 date in
      let payload = sha256_hex buf in
      let request = canonical_request method bucket path cache_control mime host payload date in
      let scope = scope_of s3 date_only in
      let to_sign = string_to_sign date scope (sha256_hex request) in
      let signature = crates.hex (crates.hmac (sign_key s3 date_only) to_sign) in
      insert_all crates.is_header_value (
        (false, codes "cache-control", cache_control)
        ∷ (false, codes "content-type", mime)
        ∷ (true, codes "content-length", crates.display (length buf))
        ∷ (false, codes "authorization", authorization s3.s3_id scope signature)
        ∷ (false, codes "x-amz-content-sha256", payload)
        ∷ (false, codes "x-amz-date", date)
        ∷ [])

  unfoldable pub sign_on :
      Text
      → S3
      → Text
      → Text
      → Text
      → Text
      → DateTime
      → Option (Text × Text)
      → Option (List (Text × Text) ⊎ Error)
  unfolding sign_at
  sign_on method s3 buf path mime cache_control now none = none
  sign_on method s3 buf path mime cache_control now (some hb) =
      some (sign_at method s3 buf path mime cache_control now hb)

  unfoldable pub sign :
      Text → S3 → Text → Text → Text → Text → DateTime → Option (List (Text × Text) ⊎ Error)
  unfolding host_bucket sign_on
  sign method s3 buf path mime cache_control now =
      sign_on method s3 buf path mime cache_control now (host_bucket s3.url_prefix)
