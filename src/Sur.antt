-- ===== src/Sur.antt =====
-- sur/src: a client of SurrealDB, with auth.rs and error.rs here, client.rs and the queries of db.rs
-- in Query, and record_id.rs in RecordId. The crates for HTTP, CBOR, JSON and base64 are a record; the
-- headers that name the type of the body are the same in every request, and are left out.
pub mod Query
pub mod RecordId
pub mod Sends
pub mod Issued
pub mod Tokens
pub mod Items
pub mod Ids
mod Tests
use npm.Common.{
  ℕ, zero, suc, ◌-◌, Option, none, some, List, [], ◌∷◌, ◌++◌, ◌⊎◌, inl, inr, Bool, true, false,
  ◌==◌, if◌then◌else◌,
}
use npm.Text.{Text, codes, split_once, trim_start_matches}
use npm.Common as Common

pub data Error (E : Type 0) : Type 0 where
  http : E → Error E
  cbor_encode : E → Error E
  cbor_decode : E → Error E
  json : E → Error E
  jwt_decode : Error E
  bad_status : ℕ → Text → Error E
  rpc : Text → Error E
  bad_record_id : Text → Error E
  query_failed : Text → Error E

pub record Request : Type 0 where
  pub url : Text
  pub authorization : Option Text
  pub ns : Option Text
  pub db : Option Text
  pub body : Text

pub record Response (E : Type 0) : Type 0 where
  pub status : ℕ
  pub bytes : Text ⊎ E
  pub text : Text ⊎ E

pub record QueryItem (T : Type 0) : Type 0 where
  pub status : Text
  pub time : Option Text
  pub result : Option T
  pub detail : Option Text

-- The fields `result` and `error` of an answer.
pub record Answer (A : Type 0) : Type 0 where
  pub result : Option A
  pub error : Option Text

pub record Crates (W P T E : Type 0) : Type 0 where
  pub send : Request → W → (Response E ⊎ E) × W
  pub encode_signin : Text → Text → Option Text → Text ⊎ E
  pub encode_query : Text → P → Text ⊎ E
  pub decode_signin : Text → Answer Text ⊎ E
  pub decode_query : Text → Answer (List (QueryItem T)) ⊎ E
  pub decode_base64 : Text → Option Text
  pub decode_exp : Text → ℕ ⊎ E

pub record TokenState : Type 0 where
  pub token : Text
  pub header : Text
  pub expire_at : ℕ

abbrev pub expiry_margin : ℕ
expiry_margin = 60

unfoldable pub trim_end_equals : Text → Text
trim_end_equals s = Common.reverse (trim_start_matches (λ c. c == b'=') (Common.reverse s))

-- `split_once` gives the part before the second dot.
unfoldable pub before_dot : Text → Option (Text × Text) → Text
before_dot rest none = rest
before_dot rest (some (p, q)) = p

module _ {W P T E : Type 0} (crates : Crates W P T E) where
  unfoldable pub exp_of : Option Text → ℕ ⊎ Error E
  exp_of none = inr jwt_decode
  exp_of (some bin) = elim (crates.decode_exp bin) [ inl exp ↦ inl exp | inr e ↦ inr (json e) ]

  unfoldable pub payload_exp : Option (Text × Text) → ℕ ⊎ Error E
  unfolding exp_of before_dot trim_end_equals split_once
  payload_exp none = inr jwt_decode
  payload_exp (some (head, rest)) =
      exp_of (crates.decode_base64 (trim_end_equals (before_dot rest (split_once b'.' rest))))

  unfoldable pub token_exp : Text → ℕ ⊎ Error E
  unfolding payload_exp split_once
  token_exp token = payload_exp (split_once b'.' token)

  unfoldable pub expire_of : ℕ ⊎ Error E → ℕ
  expire_of (inl exp) = exp - expiry_margin
  expire_of (inr e) = 0

  unfoldable pub state_of : Text → TokenState
  unfolding expire_of token_exp
  state_of token = record {
    token = token;
    header = codes "Bearer " ++ token;
    expire_at = expire_of (token_exp token);
  }

  unfoldable pub signed_in : Answer Text ⊎ E → TokenState ⊎ Error E
  unfolding state_of
  signed_in (inr e) = inr (cbor_decode e)
  signed_in (inl answer) = elim answer.error [
    | some message ↦ inr (rpc message)
    | none ↦ elim answer.result [
      | some token ↦ inl (state_of token)
      | none ↦ inr (rpc (codes "signin failed: empty result"))
    ]
  ]

  unfoldable pub signin_answer : Text ⊎ E → TokenState ⊎ Error E
  unfolding signed_in
  signin_answer (inr e) = inr (http e)
  signin_answer (inl bytes) = signed_in (crates.decode_signin bytes)

  -- `last_err` is the error of the try before.
  unfoldable pub exhausted : Option E → Error E
  exhausted none = rpc (codes "signin failed: retry exhausted")
  exhausted (some e) = http e

  unfoldable pub after_try :
      (Response E ⊎ E) × W
      → (Option E → W → (TokenState ⊎ Error E) × W)
      → (TokenState ⊎ Error E) × W
  unfolding signin_answer
  after_try (inl resp, w) again = (signin_answer resp.bytes, w)
  after_try (inr e, w) again = again (some e) w

  unfoldable pub signin_loop : ℕ → Request → Option E → W → (TokenState ⊎ Error E) × W
  unfolding after_try exhausted
  signin_loop zero req last_err w = (inr (exhausted last_err), w)
  signin_loop (suc tries) req last_err w =
      let again = signin_loop tries req in after_try (crates.send req w) again

  unfoldable pub signin_with : Text → Text ⊎ E → W → (TokenState ⊎ Error E) × W
  unfolding signin_loop
  signin_with rpc_url (inr e) w = (inr (cbor_encode e), w)
  signin_with rpc_url (inl body) w =
      signin_loop 3
        (record { url = rpc_url; authorization = none; ns = none; db = none; body = body }) none w

  unfoldable pub signin : Text → Text → Text → Option Text → W → (TokenState ⊎ Error E) × W
  unfolding signin_with
  signin rpc_url user pass ns w = signin_with rpc_url (crates.encode_signin user pass ns) w
