-- ===== src/Sur/Tokens.antt =====
-- Which tokens a client uses again.
use npm.Common.{
  ℕ, ◌+◌, ◌<◌, Option, List, [], ◌∷◌, ◌⊎◌, inl, inr, Bool, true, false, ◌&&◌, not, ltb, ◌≡◌, refl,
  sym, ap, ◌∙◌, arith, ltb→lt,
}
use npm.Text.{Text, is_empty}
use npm.Sur.{Error, Crates, TokenState, token_exp, expire_of, state_of}
use npm.Sur.Issued.{IsHeld, signin_result, query-IsHeld}
use npm.Sur.Query.{Sur, open_sur, store, is_fresh, auth_state, query_raw, q}

module _ {W P T E : Type 0} (crates : Crates W P T E) where
  module _ (sur : Sur) where
    -- Queries one after the other, each with its time.
    unfoldable pub after_queries : List (ℕ × Text × Text × P) → TokenState → W → TokenState × W
    unfolding q query_raw
    after_queries [] state w = (state, w)
    after_queries ((now, db, sql, params) ∷ queries) state w =
        let (r, then_state, then_w) = q crates sur now db sql params state w in
        after_queries queries then_state then_w

    queries-IsHeld :
        (queries : List (ℕ × Text × Text × P)) (state : TokenState) (w : W)
        → IsHeld crates state
        → IsHeld crates (after_queries queries state w).0
    unfolding after_queries
    queries-IsHeld [] state w held = held
    queries-IsHeld ((now, db, sql, params) ∷ queries) state w held =
        let r = q crates sur now db sql params state w in
        queries-IsHeld queries r.1 r.2
          (query-IsHeld crates sur now db (crates.encode_query sql params) state w held)

    -- The token says that it ends more than a minute later.
    abbrev pub Lasts : ℕ → Text → Type 0
    Lasts now token = (exp : ℕ) × (token_exp crates token ≡ inl exp) × (now + 60 < exp)

    Lasts-of :
        (now : ℕ) (token : Text) (r : ℕ ⊎ Error E)
        → token_exp crates token ≡ r
        → now < expire_of crates r
        → Lasts now token
    unfolding expire_of
    Lasts-of now token (inl exp) is h = (exp, is, omega (arith, h))
    Lasts-of now token (inr e) is h = absurd (omega (arith, h))

    and_parts : (a b : Bool) → a && b ≡ true → (a ≡ true) × (b ≡ true)
    and_parts true true h = (refl, refl)
    and_parts true false h = absurd (cc)
    and_parts false b h = absurd (cc)

    fresh-Lasts :
        (now : ℕ) (state : TokenState)
        → IsHeld crates state
        → is_fresh crates sur now state ≡ true
        → Lasts now state.token
    unfolding is_fresh IsHeld state_of
    fresh-Lasts now state held h =
        let (filled, early) = and_parts (not (is_empty state.token)) (ltb now state.expire_at) h in
        elim held [
          | inl nothing ↦ absurd (cc)
          | inr issued ↦
              let until : state.expire_at ≡ expire_of crates (token_exp crates state.token) =
                ap (λ t. t.expire_at) issued in
              Lasts-of now state.token (token_exp crates state.token) refl
                (rw until at (ltb→lt now state.expire_at early))
        ]

    result-store :
        (old : TokenState) (r : (TokenState ⊎ Error E) × W) → (store crates sur old r).0 ≡ r.0
    unfolding store
    result-store old (inl state, w) = refl
    result-store old (inr e, w) = refl

    unforced :
        (b : Bool) (now : ℕ) (state t : TokenState) (w : W)
        → not false && is_fresh crates sur now state ≡ b
        → IsHeld crates state
        → (auth_state crates sur now false state w).0 ≡ inl t
        → Lasts now t.token ⊎ ((signin_result crates sur w).0 ≡ inl t)
    unfolding auth_state
    unforced true now state t w is held h =
        let same : state ≡ t = cc (rw (auth_state, is) at h) in
        inl (rw (sym same) (fresh-Lasts now state held is))
    unforced false now state t w is held h =
        inr (sym (result-store state (signin_result crates sur w)) ∙ (rw (auth_state, is) at h))

    -- After queries one after the other from a new client, at whatever times, a token with which the
    -- next query goes out says that it ends more than a minute later, or the query has signed in for
    -- it.
    pub auth_state-queries :
        (url user pass : Text) (ns : Option Text) (queries : List (ℕ × Text × Text × P)) (now : ℕ)
        (w : W) (t : TokenState)
        → (auth_state crates sur now false
            (after_queries queries (open_sur url user pass ns).1 w).0
            (after_queries queries (open_sur url user pass ns).1 w).1).0
          ≡ inl t
        → Lasts now t.token
          ⊎ ((signin_result crates sur (after_queries queries (open_sur url user pass ns).1 w).1).0
              ≡ inl t)
    unfolding IsHeld open_sur is_empty
    auth_state-queries url user pass ns queries now w t h =
        let start : TokenState = (open_sur url user pass ns).1 in
        let (state, v) = after_queries queries start w in
        unforced (not false && is_fresh crates sur now state) now state t v refl
          (queries-IsHeld queries start w (inl refl)) h
