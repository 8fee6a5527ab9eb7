-- ===== src/Sur/Query.antt =====
-- sur/src/client.rs and the queries of db.rs. The state is the token and what the crates change. The
-- log of a query and its times are left out.
use npm.Common.{
  ℕ, Option, none, some, List, [], ◌∷◌, ◌++◌, ◌⊎◌, inl, inr, Bool, true, false, ◌&&◌, not, ltb, leb,
  ◌==◌, if◌then◌else◌, reverse,
}
use npm.Text.{Text, codes, text_eq, is_empty, strip_prefix, trim_start_matches}
use npm.Sur.{
  Error, http, cbor_encode, cbor_decode, bad_status, rpc, query_failed, Response, QueryItem, Answer,
  Crates, TokenState, signin,
}

pub record Sur : Type 0 where
  pub rpc_url : Text
  pub user : Text
  pub pass : Text
  pub ns : Option Text

unfoldable pub ends_with : Text → Text → Bool
ends_with p s = elim (strip_prefix (reverse p) (reverse s)) [ none ↦ false | some rest ↦ true ]

unfoldable pub url_of : Text → Text
unfolding ends_with trim_start_matches
url_of url =
    if ends_with (codes "/rpc") url
    then url
    else reverse (trim_start_matches (λ c. c == b'/') (reverse url)) ++ codes "/rpc"

unfoldable pub open_sur : Text → Text → Text → Option Text → Sur × TokenState
unfolding url_of
open_sur url user pass ns = (
  record { rpc_url = url_of url; user = user; pass = pass; ns = ns },
  record { token = []; header = []; expire_at = 0 },
)

module _ {W P T E : Type 0} (crates : Crates W P T E) (sur : Sur) where
  -- The token that a request uses, and the state of the client after it: token and world.
  unfoldable pub store :
      TokenState → (TokenState ⊎ Error E) × W → (TokenState ⊎ Error E) × TokenState × W
  store old (inl state, w) = (inl state, state, w)
  store old (inr e, w) = (inr e, old, w)

  unfoldable pub signin_ns : Option Text
  signin_ns = if text_eq sur.user (codes "root") then none else sur.ns

  unfoldable pub is_fresh : ℕ → TokenState → Bool
  is_fresh now state = not (is_empty state.token) && ltb now state.expire_at

  unfoldable pub auth_state : ℕ → Bool → TokenState → W → (TokenState ⊎ Error E) × TokenState × W
  unfolding store signin signin_ns is_fresh
  auth_state now force state w =
      let fresh = store state (signin crates sur.rpc_url sur.user sur.pass signin_ns w) in
      if not force && is_fresh now state then (inl state, state, w) else fresh

  unfoldable pub sent : TokenState → (Response E ⊎ E) × W → (Response E ⊎ Error E) × TokenState × W
  sent state (inl resp, w) = (inl resp, state, w)
  sent state (inr e, w) = (inr (http e), state, w)

  unfoldable pub with_token :
      Text
      → Text
      → (TokenState ⊎ Error E) × TokenState × W
      → (Response E ⊎ Error E) × TokenState × W
  unfolding sent
  with_token db payload (inr e, state, w) = (inr e, state, w)
  with_token db payload (inl token, state, w) = sent state (
      crates.send
        (record {
          url = sur.rpc_url;
          authorization = some token.header;
          ns = sur.ns;
          db = some db;
          body = payload;
        })
        w)

  unfoldable pub req_raw :
      ℕ → Text → Text → Bool → TokenState → W → (Response E ⊎ Error E) × TokenState × W
  unfolding with_token auth_state
  req_raw now db payload force_auth state w =
      with_token db payload (auth_state now force_auth state w)

  unfoldable pub again_on_401 :
      ℕ
      → Text
      → Text
      → (Response E ⊎ Error E) × TokenState × W
      → (Response E ⊎ Error E) × TokenState × W
  unfolding req_raw
  again_on_401 now db payload (inr e, state, w) = (inr e, state, w)
  again_on_401 now db payload (inl resp, state, w) =
      if resp.status == 401 then req_raw now db payload true state w else (inl resp, state, w)

  unfoldable pub req : ℕ → Text → Text → TokenState → W → (Response E ⊎ Error E) × TokenState × W
  unfolding again_on_401 req_raw
  req now db payload state w = again_on_401 now db payload (req_raw now db payload false state w)

  unfoldable pub is_success : ℕ → Bool
  is_success status = leb 200 status && ltb status 300

  unfoldable pub or_default : Text ⊎ E → Text
  or_default (inl s) = s
  or_default (inr e) = []

  unfoldable pub items_of : Answer (List (QueryItem T)) ⊎ E → List (QueryItem T) ⊎ Error E
  items_of (inr e) = inr (cbor_decode e)
  items_of (inl answer) = elim answer.error [
    | some message ↦ inr (rpc message)
    | none ↦ elim answer.result [
      | some items ↦ inl items
      | none ↦ inr (rpc (codes "empty query result"))
    ]
  ]

  unfoldable pub body_items : Text ⊎ E → List (QueryItem T) ⊎ Error E
  unfolding items_of
  body_items (inr e) = inr (http e)
  body_items (inl bytes) = items_of (crates.decode_query bytes)

  unfoldable pub read_response : Response E ⊎ Error E → List (QueryItem T) ⊎ Error E
  unfolding body_items is_success or_default
  read_response (inr e) = inr e
  read_response (inl resp) =
      if not (is_success resp.status)
      then inr (bad_status resp.status (or_default resp.text))
      else body_items resp.bytes

  unfoldable pub query_with :
      ℕ → Text → Text ⊎ E → TokenState → W → (List (QueryItem T) ⊎ Error E) × TokenState × W
  unfolding req read_response
  query_with now db (inr e) state w = (inr (cbor_encode e), state, w)
  query_with now db (inl payload) state w =
      let (resp, then_state, then_w) = req now db payload state w in
      (read_response resp, then_state, then_w)

  unfoldable pub query_raw :
      ℕ → Text → Text → P → TokenState → W → (List (QueryItem T) ⊎ Error E) × TokenState × W
  unfolding query_with
  query_raw now db sql params state w = query_with now db (crates.encode_query sql params) state w

  unfoldable pub detail_or : Option Text → Text
  detail_or none = codes "query execution failed"
  detail_or (some msg) = msg

  unfoldable pub push_result : Option T → List T → List T
  push_result none out = out
  push_result (some res) out = res ∷ out

  -- The loop over the items, whose `out` is made from the end.
  unfoldable pub results : List (QueryItem T) → List T ⊎ Error E
  unfolding detail_or push_result
  results [] = inl []
  results (item ∷ items) =
      let rest = results items in
      if text_eq item.status (codes "ERR")
      then inr (query_failed (detail_or item.detail))
      else elim rest [ inl out ↦ inl (push_result item.result out) | inr e ↦ inr e ]

  unfoldable pub q_of : List (QueryItem T) ⊎ Error E → List T ⊎ Error E
  unfolding results
  q_of (inr e) = inr e
  q_of (inl items) = results items

  unfoldable pub q : ℕ → Text → Text → P → TokenState → W → (List T ⊎ Error E) × TokenState × W
  unfolding query_raw q_of
  q now db sql params state w =
      let (r, then_state, then_w) = query_raw now db sql params state w in
      (q_of r, then_state, then_w)

  unfoldable pub first : List T ⊎ Error E → Option T ⊎ Error E
  first (inr e) = inr e
  first (inl []) = inl none
  first (inl (res ∷ out)) = inl (some res)

  unfoldable pub q1 : ℕ → Text → Text → P → TokenState → W → (Option T ⊎ Error E) × TokenState × W
  unfolding q first
  q1 now db sql params state w =
      let (r, then_state, then_w) = q now db sql params state w in (first r, then_state, then_w)
