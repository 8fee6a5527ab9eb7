-- ===== src/Upload/Signed.antt =====
-- The headers that sign returns, against the documentation of AWS.
use npm.Common.{
  ◌+◌, ◌-◌, ◌≤◌, true, false, some, List, [], ◌∷◌, ◌++◌, ◌⊎◌, inl, inr, leb, length, take,
  replicate, ◌≡◌, refl, sym, ap, ◌∙◌, arith, append_assoc, Bool-cases, length-append, take-prefix,
  leb→le, Bool, All-append,
}
use npm.Text.{Text, codes}
use npm.Text.Cut.{Lacks, split_once-append}
use npm.Upload.Values.{
  stays, Stays, uri_encode, uri_encode-Stays, trim_all, headers_or, first_refused, insert_all_lem,
}
use npm.Upload.Spec.{
  spec_request, spec_scope, spec_to_sign, spec_authorization, signed_list, request-spec,
  authorization-spec, to_sign-spec, scope-spec,
}
use npm.Upload.{
  Crates, S3, DateTime, Error, prefix_of, amz_date, bucket_of, host_bucket, insert_all, sha256_hex,
  date_key, canonical_request, scope_of, string_to_sign, authorization, sign_key, sign_at, sign_on,
  sign,
}

key_of :
    (bytes : Text)
    → length bytes + 4 ≤ 128
    → take (4 + length bytes) (codes "AWS4" ++ (bytes ++ replicate (124 - length bytes) 0))
      ≡ codes "AWS4" ++ bytes
key_of bytes h = rw (sym (append_assoc (codes "AWS4") bytes (replicate (124 - length bytes) 0))) (
    take-prefix (codes "AWS4" ++ bytes) (replicate (124 - length bytes) 0) (4 + length bytes)
      (omega arith))

bucket-prefix : (host bucket : Text) → bucket_of host (bucket ++ codes "/") ≡ some (host, bucket)
unfolding bucket_of
bucket-prefix host [] = refl
bucket-prefix host (c ∷ bucket) =
    ap (λ b. some (host, b))
      (take-prefix (c ∷ bucket) (codes "/") (length (bucket ++ codes "/"))
        (omega (arith, length-append bucket (codes "/"))))

host_bucket-prefix :
    (host bucket : Text)
    → Lacks b'/' host
    → host_bucket (prefix_of host bucket) ≡ some (host, bucket)
unfolding host_bucket prefix_of
host_bucket-prefix host bucket h =
    rw (host_bucket, split_once-append b'/' host (bucket ++ codes "/") h)
      (bucket-prefix host bucket)

date_key_lem :
    (crates : Crates) (bytes date : Text)
    → date_key crates bytes date ≡ crates.hmac (codes "AWS4" ++ bytes) date
unfolding date_key
date_key_lem crates bytes date = elim (Bool-cases (leb (length bytes + 4) 128)) [
  | inl short ↦ rw (short, key_of bytes (leb→le (length bytes + 4) 128 short)) refl
  | inr long ↦ rw long refl
]

module _ (crates : Crates) (s3 : S3) where
  spec_key : Text → Text
  spec_key date_only =
      crates.hmac
        (crates.hmac (crates.hmac (crates.hmac (codes "AWS4" ++ s3.s3_sk) date_only) s3.s3_region)
          (codes "s3"))
        (codes "aws4_request")

  key-spec : (date_only : Text) → sign_key crates s3 date_only ≡ spec_key date_only
  unfolding sign_key spec_key
  key-spec date_only =
      ap
        (λ k.
          crates.hmac (crates.hmac (crates.hmac k s3.s3_region) (codes "s3"))
            (codes "aws4_request"))
        (date_key_lem crates s3.s3_sk date_only)

  spec_signature : Text → Text → Text → List (Text × Text) → Text → Text → Text
  spec_signature date_only date method headers uri payload =
      let request : Text = spec_request method uri [] headers payload in
      crates.hex (
        crates.hmac (spec_key date_only) (
          spec_to_sign date (spec_scope date_only s3.s3_region)
            (crates.hex (crates.sha256 request))))

  plain_header : Text → Text → Text → Text → Text → Text → Text → Text → Text → Text
  plain_header method host bucket path mime cache_control payload date date_only =
      let headers : List (Text × Text) = signed_list cache_control mime host payload date in
      spec_authorization s3.s3_id (spec_scope date_only s3.s3_region) headers (
        spec_signature date_only date method headers (codes "/" ++ (bucket ++ (codes "/" ++ path)))
          payload)

  authorization-plain_header :
      (method host bucket path mime cache_control payload date date_only : Text)
      → authorization crates s3.s3_id (scope_of crates s3 date_only) (
          crates.hex (
            crates.hmac (sign_key crates s3 date_only) (
              string_to_sign crates date (scope_of crates s3 date_only) (
                sha256_hex crates (
                  canonical_request crates method bucket path cache_control mime host payload
                    date)))))
        ≡ plain_header method host bucket path mime cache_control payload date date_only
  unfolding plain_header spec_signature signed_list sha256_hex
  authorization-plain_header method host bucket path mime cache_control payload date date_only =
      rw
        (
          request-spec method bucket path cache_control mime host payload date crates,
          key-spec date_only,
          scope-spec crates s3 date_only,
          to_sign-spec crates date (spec_scope date_only s3.s3_region) (
              crates.hex (
                crates.sha256 (
                  spec_request method (codes "/" ++ (bucket ++ (codes "/" ++ path))) []
                    (signed_list cache_control mime host payload date) payload))),
        )
        (authorization-spec crates s3.s3_id (spec_scope date_only s3.s3_region)
          (spec_signature date_only date method (signed_list cache_control mime host payload date)
            (codes "/" ++ (bucket ++ (codes "/" ++ path))) payload)
          cache_control mime host payload date)

  -- The header of the documentation, for a request with the headers to sign.
  pub spec_header : Text → Text → Text → Text → Text → Text → Text → Text → Text → Text
  spec_header method host bucket path mime cache_control payload date date_only =
      let headers : List (Text × Text) =
        signed_list (trim_all cache_control) (trim_all mime) (trim_all host) payload date in
      spec_authorization s3.s3_id (spec_scope date_only s3.s3_region) headers (
        spec_signature date_only date method headers
          (uri_encode (codes "/" ++ (bucket ++ (codes "/" ++ path)))) payload)

  plain_header-spec_header :
      (method host bucket path mime cache_control payload date date_only : Text)
      → Stays bucket
      → Stays path
      → trim_all cache_control ≡ cache_control
      → trim_all mime ≡ mime
      → trim_all host ≡ host
      → plain_header method host bucket path mime cache_control payload date date_only
        ≡ spec_header method host bucket path mime cache_control payload date date_only
  unfolding spec_header plain_header
  plain_header-spec_header method host bucket path mime cache_control payload date date_only hb hp
        hc hm hh =
      let uri : Text = codes "/" ++ (bucket ++ (codes "/" ++ path)) in
      let same : uri_encode uri ≡ uri =
        uri_encode-Stays uri
          (refl, All-append (λ c. stays c ≡ true) bucket (codes "/" ++ path) hb (refl, hp)) in
      rw (hc, hm, hh, same) refl

  -- The headers of the documentation, or the error of the first value that no header may hold.
  pub spec_sign :
      Text → Text → Text → Text → Text → Text → Text → DateTime → List (Text × Text) ⊎ Error
  spec_sign method host bucket buf path mime cache_control now =
      let date : Text = amz_date now in
      let payload : Text = crates.hex (crates.sha256 buf) in
      let header : Text =
        spec_header method host bucket path mime cache_control payload date (take 8 date) in
      headers_or
        ((codes "cache-control", cache_control)
          ∷ (codes "content-type", mime)
          ∷ (codes "content-length", crates.display (length buf))
          ∷ (codes "authorization", header)
          ∷ (codes "x-amz-content-sha256", payload)
          ∷ (codes "x-amz-date", date)
          ∷ [])
        (first_refused crates.is_header_value (cache_control ∷ mime ∷ header ∷ payload ∷ date ∷ []))

  sign_at-spec :
      (method host bucket buf path mime cache_control : Text) (now : DateTime)
      → Stays bucket
      → Stays path
      → trim_all cache_control ≡ cache_control
      → trim_all mime ≡ mime
      → trim_all host ≡ host
      → sign_at crates method s3 buf path mime cache_control now (host, bucket)
        ≡ spec_sign method host bucket buf path mime cache_control now
  unfolding sign_at spec_sign sha256_hex
  sign_at-spec method host bucket buf path mime cache_control now hb hp hc hm hh =
      let date : Text = amz_date now in
      let payload : Text = crates.hex (crates.sha256 buf) in
      let headers : Text → List (Bool × Text × Text) = λ x.
        (false, codes "cache-control", cache_control)
        ∷ (false, codes "content-type", mime)
        ∷ (true, codes "content-length", crates.display (length buf))
        ∷ (false, codes "authorization", x)
        ∷ (false, codes "x-amz-content-sha256", payload)
        ∷ (false, codes "x-amz-date", date)
        ∷ [] in
      ap (λ x. insert_all crates.is_header_value (headers x))
        (authorization-plain_header method host bucket path mime cache_control payload date
            (take 8 date)
          ∙ plain_header-spec_header method host bucket path mime cache_control payload date
              (take 8 date) hb hp hc hm hh)
      ∙ insert_all_lem crates.is_header_value (
          headers
            (spec_header method host bucket path mime cache_control payload date (take 8 date)))

  -- For a bucket of a host without a slash, where bucket and path have no character that is
  -- percent-encoded, and the host, the type and the cache control no space at their ends or before
  -- another: sign returns the headers of the request with the one that version 4 of the signature
  -- asks for, made of the headers to sign, or the error of the first value that no header may hold.
  pub sign_lem :
      (method host bucket buf path mime cache_control : Text) (now : DateTime)
      → Lacks b'/' host
      → s3.url_prefix ≡ prefix_of host bucket
      → Stays bucket
      → Stays path
      → trim_all cache_control ≡ cache_control
      → trim_all mime ≡ mime
      → trim_all host ≡ host
      → sign crates method s3 buf path mime cache_control now
        ≡ some (spec_sign method host bucket buf path mime cache_control now)
  unfolding sign sign_on
  sign_lem method host bucket buf path mime cache_control now lacks is hb hp hc hm hh =
      ap (sign_on crates method s3 buf path mime cache_control now)
        (ap host_bucket is ∙ host_bucket-prefix host bucket lacks)
      ∙ ap some (sign_at-spec method host bucket buf path mime cache_control now hb hp hc hm hh)
