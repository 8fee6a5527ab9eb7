-- ===== src/Sur/Sends.antt =====
-- How many requests a query sends.
use npm.Common.{
  ℕ, zero, suc, ◌+◌, ◌≤◌, Option, none, some, ◌⊎◌, inl, inr, Bool, true, false, ◌&&◌, not, ◌==◌,
  ◌≡◌, refl, arith, Bool-cases,
}
use npm.Text.{Text}
use npm.Sur.{
  Error, Request, Response, Crates, TokenState, after_try, signin_loop, signin_with, signin,
}
use npm.Sur.Query.{
  Sur, store, signin_ns, is_fresh, auth_state, sent, with_token, req_raw, again_on_401, req,
  query_with, query_raw, q,
}

-- For a count of the requests in the world.
module _ {W P T E : Type 0} (crates : Crates W P T E) (sends : W → ℕ)
    (counts : (r : Request) (w : W) → sends (crates.send r w).1 ≡ suc (sends w)) where
  after_try-sends :
      (r : (Response E ⊎ E) × W) (again : Option E → W → (TokenState ⊎ Error E) × W) (n : ℕ)
      → ((e : Option E) (w : W) → sends (again e w).1 ≤ sends w + n)
      → sends (after_try crates r again).1 ≤ sends r.1 + n
  unfolding after_try
  after_try-sends (inl resp, w) again n h = omega arith
  after_try-sends (inr e, w) again n h = h (some e) w

  loop-sends :
      (tries : ℕ) (r : Request) (e : Option E) (w : W)
      → sends (signin_loop crates tries r e w).1 ≤ sends w + tries
  unfolding signin_loop
  loop-sends zero r e w = omega arith
  loop-sends (suc tries) r e w = omega (
    arith,
    after_try-sends (crates.send r w) (signin_loop crates tries r) tries
        (λ o v. loop-sends tries r o v),
    counts r w,
  )

  signin-sends :
      (url : Text) (r : Text ⊎ E) (w : W) → sends (signin_with crates url r w).1 ≤ sends w + 3
  unfolding signin_with
  signin-sends url (inr e) w = omega arith
  signin-sends url (inl body) w =
      loop-sends 3 (record { url = url; authorization = none; ns = none; db = none; body = body })
        none w

  module _ (sur : Sur) where
    store-sends :
        (old : TokenState) (r : (TokenState ⊎ Error E) × W)
        → sends (store crates sur old r).2 ≡ sends r.1
    unfolding store
    store-sends old (inl state, w) = refl
    store-sends old (inr e, w) = refl

    auth-sends :
        (now : ℕ) (force : Bool) (state : TokenState) (w : W)
        → sends (auth_state crates sur now force state w).2 ≤ sends w + 3
    unfolding auth_state signin
    auth-sends now force state w =
        let r : (TokenState ⊎ Error E) × W =
          signin_with crates sur.rpc_url
            (crates.encode_signin sur.user sur.pass (signin_ns crates sur)) w in
        let fresh : sends (store crates sur state r).2 ≤ sends w + 3 = rw (store-sends state r) (
          signin-sends sur.rpc_url (crates.encode_signin sur.user sur.pass (signin_ns crates sur))
            w) in
        elim (Bool-cases (not force && is_fresh crates sur now state)) [
          | inl kept ↦ rw kept (omega arith)
          | inr old ↦ rw old fresh
        ]

    sent-sends :
        (state : TokenState) (r : (Response E ⊎ E) × W)
        → sends (sent crates sur state r).2 ≡ sends r.1
    unfolding sent
    sent-sends state (inl resp, w) = refl
    sent-sends state (inr e, w) = refl

    token-sends :
        (db payload : Text) (r : (TokenState ⊎ Error E) × TokenState × W)
        → sends (with_token crates sur db payload r).2 ≤ sends r.2 + 1
    unfolding with_token
    token-sends db payload (inr e, state, w) = omega arith
    token-sends db payload (inl token, state, w) =
        let r : Request = record {
          url = sur.rpc_url;
          authorization = some token.header;
          ns = sur.ns;
          db = some db;
          body = payload;
        } in
        omega (arith, sent-sends state (crates.send r w), counts r w)

    raw-sends :
        (now : ℕ) (db payload : Text) (force : Bool) (state : TokenState) (w : W)
        → sends (req_raw crates sur now db payload force state w).2 ≤ sends w + 4
    unfolding req_raw
    raw-sends now db payload force state w = omega (
      arith,
      token-sends db payload (auth_state crates sur now force state w),
      auth-sends now force state w,
    )

    again-sends :
        (now : ℕ) (db payload : Text) (r : (Response E ⊎ Error E) × TokenState × W)
        → sends (again_on_401 crates sur now db payload r).2 ≤ sends r.2 + 4
    unfolding again_on_401
    again-sends now db payload (inr e, state, w) = omega arith
    again-sends now db payload (inl resp, state, w) = elim (Bool-cases (resp.status == 401)) [
      | inl denied ↦ rw denied (raw-sends now db payload true state w)
      | inr other ↦ rw other (omega arith)
    ]

    query-sends :
        (now : ℕ) (db : Text) (payload : Text ⊎ E) (state : TokenState) (w : W)
        → sends (query_with crates sur now db payload state w).2 ≤ sends w + 8
    unfolding query_with req
    query-sends now db (inr e) state w = omega arith
    query-sends now db (inl payload) state w = omega (
      arith,
      again-sends now db payload (req_raw crates sur now db payload false state w),
      raw-sends now db payload false state w,
    )

    -- A query sends at most eight requests, whatever the server answers: twice up to three to sign in
    -- and the query itself.
    pub q-sends :
        (now : ℕ) (db sql : Text) (params : P) (state : TokenState) (w : W)
        → sends (q crates sur now db sql params state w).2 ≤ sends w + 8
    unfolding q query_raw
    q-sends now db sql params state w = query-sends now db (crates.encode_query sql params) state w
