-- ===== src/Sur/Tests.antt =====
-- Queries to a server that denies the first, and record ids.
use npm.Common.{
  false, ◌⊎◌, ℕ, suc, ◌≤◌, none, some, List, [], ◌∷◌, inl, ◌==◌, if◌then◌else◌, ◌≡◌, refl, ◌↔◌,
}
use npm.Text.{Text, codes}
use npm.Sur.{Error, Request, Response, QueryItem, Answer, Crates, TokenState}
use npm.Sur.Query.{Sur, open_sur, auth_state, q}
use npm.Sur.Issued.{signin_result}
use npm.Sur.Tokens.{Lasts, after_queries, auth_state-queries}
use npm.Sur.Sends.{q-sends}
use npm.Sur.RecordId.{RecordId, fmt, from_str}
use npm.Text.Cut.{Lacks}
use npm.Sur.Ids.{from_str_iff}

abbrev ok_item : ℕ → QueryItem ℕ
ok_item n = record { status = codes "OK"; time = none; result = some n; detail = none }

-- The world counts the requests; the second is denied.
abbrev crates : Crates ℕ (Unit {0}) ℕ ℕ
crates = record {
  send = λ r w.
      (inl (record { status = if w == 1 then 401 else 200; bytes = inl []; text = inl [] }), suc w);
  encode_signin = λ user pass ns. inl user;
  encode_query = λ sql params. inl sql;
  decode_signin = λ bytes. inl (record { result = some (codes "a.b.c"); error = none });
  decode_query = λ bytes. inl (record { result = some (ok_item 5 ∷ []); error = none });
  decode_base64 = λ s. some s;
  decode_exp = λ bytes. inl 1000;
}

abbrev client : Sur × TokenState
client = open_sur (codes "http://h/") (codes "root") (codes "p") none

denied_once : (q crates client.0 10 (codes "db") (codes "sql") tt client.1 0).2 ≡ 4
unfolding q npm.Sur.Query.query_with npm.Sur.Query.req npm.Sur.Query.auth_state npm.Sur.signin_with
    npm.Sur.Query.store npm.Sur.Query.with_token npm.Sur.Query.again_on_401 npm.Text.is_empty
    open_sur
denied_once = refl

q-sends_example : (q crates client.0 10 (codes "db") (codes "sql") tt client.1 0).2 ≤ 8
q-sends_example =
    q-sends crates (λ w. w) (λ r w. refl) client.0 10 (codes "db") (codes "sql") tt client.1 0

abbrev items : List (QueryItem ℕ)
items = ok_item 5 ∷ (ok_item 7 ∷ [])

abbrev user_id : RecordId
user_id = record { tb = codes "user"; id = codes "a:b" }

from_str_iff_example :
    (from_str {E = ℕ} (codes "user:a:b") ≡ inl user_id)
    ↔ ((fmt user_id ≡ codes "user:a:b") × Lacks b':' (codes "user"))
from_str_iff_example = from_str_iff {E = ℕ} (codes "user:a:b") user_id

abbrev one_query : List (ℕ × Text × Text × Unit {0})
one_query = (10, codes "db", codes "sql", tt) ∷ []

abbrev held : TokenState × ℕ
held = after_queries crates client.0 one_query client.1 0

abbrev issued : TokenState
issued = record { token = codes "a.b.c"; header = codes "Bearer a.b.c"; expire_at = 940 }

token_kept : (auth_state crates client.0 500 false held.0 held.1).0 ≡ inl issued
unfolding auth_state after_queries open_sur npm.Sur.Query.query_with npm.Sur.Query.req
    npm.Sur.signin_with npm.Sur.Query.store npm.Sur.Query.with_token npm.Sur.Query.again_on_401
    npm.Text.is_empty
token_kept = refl

auth_state-queries_example :
    Lasts crates client.0 500 (codes "a.b.c")
    ⊎ ((signin_result crates client.0 held.1).0 ≡ inl issued)
auth_state-queries_example =
    auth_state-queries crates client.0 (codes "http://h/") (codes "root") (codes "p") none one_query
      500 0 issued token_kept
