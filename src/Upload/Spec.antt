-- ===== src/Upload/Spec.antt =====
-- The texts of version 4 of the signature, as the documentation of AWS makes them of any list of
-- headers, and those of the code.
use npm.Common.{List, [], ◌∷◌, ◌++◌, map, ◌≡◌, refl, append_assoc}
use npm.Text.{Text, codes, join}
use npm.Upload.{Crates, S3, canonical_request, scope_of, string_to_sign, authorization}

unfoldable pub canonical_headers : List (Text × Text) → Text
canonical_headers [] = []
canonical_headers ((name, value) ∷ headers) =
    (name ++ (codes ":" ++ (value ++ codes "\n"))) ++ canonical_headers headers

unfoldable pub signed_headers : List (Text × Text) → Text
unfolding join
signed_headers headers = join (codes ";") (map (λ h. h.0) headers)

unfoldable pub spec_request : Text → Text → Text → List (Text × Text) → Text → Text
unfolding canonical_headers signed_headers join
spec_request method uri query headers payload =
    join (codes "\n")
      (method ∷ uri ∷ query ∷ canonical_headers headers ∷ signed_headers headers ∷ payload ∷ [])

pub request-spec :
    (method bucket path cache_control mime host payload date : Text) (crates : Crates)
    → canonical_request crates method bucket path cache_control mime host payload date
      ≡ spec_request method
          (codes "/" ++ (bucket ++ (codes "/" ++ path)))
          []
          ((codes "cache-control", cache_control)
            ∷ (codes "content-type", mime)
            ∷ (codes "host", host)
            ∷ (codes "x-amz-content-sha256", payload)
            ∷ (codes "x-amz-date", date)
            ∷ [])
          payload
unfolding canonical_request spec_request canonical_headers signed_headers join
request-spec method bucket path cache_control mime host payload date crates =
    simp (append_assoc) refl

-- The headers that are signed: those of the request, and the host.
unfoldable pub signed_list : Text → Text → Text → Text → Text → List (Text × Text)
signed_list cache_control mime host payload date =
    (codes "cache-control", cache_control)
    ∷ (codes "content-type", mime)
    ∷ (codes "host", host)
    ∷ (codes "x-amz-content-sha256", payload)
    ∷ (codes "x-amz-date", date)
    ∷ []

unfoldable pub spec_scope : Text → Text → Text
spec_scope date region = join (codes "/") (date ∷ region ∷ codes "s3" ∷ codes "aws4_request" ∷ [])

unfoldable pub spec_to_sign : Text → Text → Text → Text
spec_to_sign date scope hash =
    join (codes "\n") (codes "AWS4-HMAC-SHA256" ∷ date ∷ scope ∷ hash ∷ [])

unfoldable pub spec_authorization : Text → Text → List (Text × Text) → Text → Text
spec_authorization id scope headers signature = join [] (
    codes "AWS4-HMAC-SHA256 Credential="
    ∷ join (codes "/") (id ∷ scope ∷ [])
    ∷ codes ",SignedHeaders="
    ∷ signed_headers headers
    ∷ codes ", Signature="
    ∷ signature
    ∷ [])

pub authorization-spec :
    (crates : Crates) (id scope signature cache_control mime host payload date : Text)
    → authorization crates id scope signature
      ≡ spec_authorization id scope
          ((codes "cache-control", cache_control)
            ∷ (codes "content-type", mime)
            ∷ (codes "host", host)
            ∷ (codes "x-amz-content-sha256", payload)
            ∷ (codes "x-amz-date", date)
            ∷ [])
          signature
unfolding authorization spec_authorization signed_headers join
authorization-spec crates id scope signature cache_control mime host payload date =
    simp (append_assoc) refl

pub to_sign-spec :
    (crates : Crates) (date scope hash : Text)
    → string_to_sign crates date scope hash ≡ spec_to_sign date scope hash
unfolding string_to_sign spec_to_sign join
to_sign-spec crates date scope hash = refl

pub scope-spec :
    (crates : Crates) (s3 : S3) (date : Text)
    → scope_of crates s3 date ≡ spec_scope date s3.s3_region
unfolding scope_of spec_scope join
scope-spec crates s3 date = refl
