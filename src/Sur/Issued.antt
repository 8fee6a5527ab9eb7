-- ===== src/Sur/Issued.antt =====
-- The token that a client holds is one that was issued to it.
use npm.Common.{
  ℕ, zero, suc, Option, none, some, ◌⊎◌, inl, inr, Bool, true, false, ◌&&◌, not, ◌==◌, ◌≡◌, refl,
  sym, Bool-cases, Option-cases,
}
use npm.Text.{Text, is_empty}
use npm.Sur.{
  Error, Request, Response, Answer, Crates, TokenState, exhausted, state_of, signed_in,
  signin_answer, after_try, signin_loop, signin_with, signin,
}
use npm.Sur.Query.{
  Sur, store, signin_ns, is_fresh, auth_state, sent, with_token, req_raw, again_on_401, req,
  query_with,
}

module _ {W P T E : Type 0} (crates : Crates W P T E) where
  -- A token that came from signing in, with the time until which it is used.
  abbrev pub IsIssued : TokenState → Type 0
  IsIssued t = t ≡ state_of crates t.token

  Gives : TokenState ⊎ Error E → Type 0
  Gives r = (t : TokenState) → r ≡ inl t → IsIssued t

  signed_in-Gives : (r : Answer Text ⊎ E) → Gives (signed_in crates r)
  unfolding Gives signed_in state_of
  signed_in-Gives (inr e) t h = absurd (cc)
  signed_in-Gives (inl answer) t h = elim (Option-cases answer.error) [
    | inr (message, is) ↦ absurd (cc (rw (signed_in, is) at h))
    | inl fine ↦ elim (Option-cases answer.result) [
      | inl nothing ↦ absurd (cc (rw (signed_in, fine, nothing) at h))
      | inr (token, is) ↦
          let made : state_of crates token ≡ t = cc (rw (signed_in, fine, is) at h) in
          rw (sym made) refl
    ]
  ]

  answer-Gives : (r : Text ⊎ E) → Gives (signin_answer crates r)
  unfolding signin_answer Gives
  answer-Gives (inr e) t h = absurd (cc)
  answer-Gives (inl bytes) t h = signed_in-Gives (crates.decode_signin bytes) t h

  try-Gives :
      (r : (Response E ⊎ E) × W) (again : Option E → W → (TokenState ⊎ Error E) × W)
      → ((e : Option E) (w : W) → Gives (again e w).0)
      → Gives (after_try crates r again).0
  unfolding after_try
  try-Gives (inl resp, w) again h = answer-Gives resp.bytes
  try-Gives (inr e, w) again h = h (some e) w

  loop-Gives :
      (tries : ℕ) (r : Request) (e : Option E) (w : W) → Gives (signin_loop crates tries r e w).0
  unfolding signin_loop exhausted Gives
  loop-Gives zero r e w t h = absurd (cc)
  loop-Gives (suc tries) r e w t h =
      try-Gives (crates.send r w) (signin_loop crates tries r) (λ o v. loop-Gives tries r o v) t h

  signin-Gives : (url : Text) (r : Text ⊎ E) (w : W) → Gives (signin_with crates url r w).0
  unfolding signin_with Gives
  signin-Gives url (inr e) w t h = absurd (cc)
  signin-Gives url (inl body) w t h =
      loop-Gives 3 (record { url = url; authorization = none; ns = none; db = none; body = body })
        none w t h

  -- The token of the client is one that was issued, or there is none.
  unfoldable pub IsHeld : TokenState → Type 0
  IsHeld state = (is_empty state.token ≡ true) ⊎ IsIssued state

  module _ (sur : Sur) where
    store-IsHeld :
        (old : TokenState) (r : (TokenState ⊎ Error E) × W)
        → IsHeld old
        → Gives r.0
        → IsHeld (store crates sur old r).1
    unfolding store Gives IsHeld
    store-IsHeld old (inl state, w) held gives = inr (gives state refl)
    store-IsHeld old (inr e, w) held gives = held

    abbrev pub signin_result : W → (TokenState ⊎ Error E) × W
    signin_result w = signin crates sur.rpc_url sur.user sur.pass (signin_ns crates sur) w

    signin_result-Gives : (w : W) → Gives (signin_result w).0
    unfolding signin
    signin_result-Gives w =
        signin-Gives sur.rpc_url (crates.encode_signin sur.user sur.pass (signin_ns crates sur)) w

    auth-IsHeld :
        (now : ℕ) (force : Bool) (state : TokenState) (w : W)
        → IsHeld state
        → IsHeld (auth_state crates sur now force state w).1
    unfolding auth_state
    auth-IsHeld now force state w held =
        elim (Bool-cases (not force && is_fresh crates sur now state)) [
          | inl kept ↦ rw kept held
          | inr old ↦ rw old (store-IsHeld state (signin_result w) held (signin_result-Gives w))
        ]

    sent-IsHeld :
        (state : TokenState) (r : (Response E ⊎ E) × W)
        → IsHeld state
        → IsHeld (sent crates sur state r).1
    unfolding sent
    sent-IsHeld state (inl resp, w) held = held
    sent-IsHeld state (inr e, w) held = held

    token-IsHeld :
        (db payload : Text) (r : (TokenState ⊎ Error E) × TokenState × W)
        → IsHeld r.1
        → IsHeld (with_token crates sur db payload r).1
    unfolding with_token
    token-IsHeld db payload (inr e, state, w) held = held
    token-IsHeld db payload (inl token, state, w) held =
        sent-IsHeld state
          (crates.send
            (record {
              url = sur.rpc_url;
              authorization = some token.header;
              ns = sur.ns;
              db = some db;
              body = payload;
            })
            w)
          held

    raw-IsHeld :
        (now : ℕ) (db payload : Text) (force : Bool) (state : TokenState) (w : W)
        → IsHeld state
        → IsHeld (req_raw crates sur now db payload force state w).1
    unfolding req_raw
    raw-IsHeld now db payload force state w held =
        token-IsHeld db payload (auth_state crates sur now force state w)
          (auth-IsHeld now force state w held)

    again-IsHeld :
        (now : ℕ) (db payload : Text) (r : (Response E ⊎ Error E) × TokenState × W)
        → IsHeld r.1
        → IsHeld (again_on_401 crates sur now db payload r).1
    unfolding again_on_401
    again-IsHeld now db payload (inr e, state, w) held = held
    again-IsHeld now db payload (inl resp, state, w) held = elim (Bool-cases (resp.status == 401)) [
      | inl denied ↦ rw denied (raw-IsHeld now db payload true state w held)
      | inr other ↦ rw other held
    ]

    pub query-IsHeld :
        (now : ℕ) (db : Text) (payload : Text ⊎ E) (state : TokenState) (w : W)
        → IsHeld state
        → IsHeld (query_with crates sur now db payload state w).1
    unfolding query_with req
    query-IsHeld now db (inr e) state w held = held
    query-IsHeld now db (inl payload) state w held =
        again-IsHeld now db payload (req_raw crates sur now db payload false state w)
          (raw-IsHeld now db payload false state w held)
