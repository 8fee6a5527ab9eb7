-- ===== src/Idot/Exchange.antt =====
-- Queries to a server that answers each message with a message under the same id.
use npm.Common.{
  ℕ, ◌+◌, ◌%◌, ◌^◌, ◌≤◌, ◌<◌, Option, none, some, List, [], ◌∷◌, ◌++◌, ◌⊎◌, inl, inr, length, All,
  ◌≡◌, refl, ap, ap₂, ◌∙◌, arith, ==_iff, le→leb,
}
use npm.Text.{Text}
use npm.DnsParse.{Bytes, byte_at, u16_at}
use npm.DnsParse.Query.{put_u16, header, build}
use npm.DnsParse.Response.{Calls, parse}
use npm.Idot.{
  Error, Got, answered, failed, endless, Net, Dot, new, min_msg_len, max_msg_len, answers_of,
  check_response, body_read, len_read, flushed, written, framed, send, take_conn, return_conn,
  next_id, query_on, query, queries,
}

-- What RFC 7858 asks of a server: on an idle connection a message with its length in front is taken,
-- and what can be read then is the answer with its length in front, after which the connection is
-- idle again. A connection that is dialled is idle.
pub record Serves {W S Io : Type 0} (net : Net W S Io) (IsIdle : S → Type 0) (reply : Bytes → Bytes)
    : Type 0 where
  pub dials : (world : W) → (s : S) × IsIdle s × ((net.dial world).0 ≡ inl s)
  pub exchange :
      (s : S) (msg : Bytes)
      → IsIdle s
      → length msg < 65536
      → (sent : S) × (answer : S) × (body : S) × (after : S) × (net.write_all s
            (put_u16 (length msg) ++ msg)
          ≡ (none, sent))
        × (net.flush sent ≡ (none, answer))
        × (net.read_exact answer 2 ≡ (inl (put_u16 (length (reply msg))), body))
        × (net.read_exact body (length (reply msg)) ≡ (inl (reply msg), after))
        × IsIdle after

-- The answer to a message has a header, and the message's id.
pub record Replies (reply : Bytes → Bytes) : Type 0 where
  pub long : (msg : Bytes) → min_msg_len ≤ length (reply msg)
  pub short : (msg : Bytes) → length (reply msg) ≤ max_msg_len
  pub same_id : (msg : Bytes) → u16_at (reply msg) 0 ≡ u16_at msg 0

u16-put_u16 : (n : ℕ) → u16_at (put_u16 n) 0 ≡ n
unfolding u16_at put_u16 byte_at
u16-put_u16 n = omega arith

u16-build :
    (as_bytes : Text → Bytes) (id : ℕ) (domain : Text) (qtype : ℕ)
    → u16_at (build as_bytes id domain qtype) 0 ≡ id
unfolding build header u16_at put_u16 byte_at
u16-build as_bytes id domain qtype = omega arith

module _ {W S Io : Type 0} (net : Net W S Io) (calls : Calls) (fuel : ℕ)
    (as_bytes : Text → Bytes) where
  -- The answers to the questions, with the ids from `id` on.
  unfoldable pub expected : (Bytes → Bytes) → ℕ → List (Text × ℕ) → List (Got Io)
  unfolding answers_of
  expected reply id [] = []
  expected reply id ((domain, qtype) ∷ questions) =
      answers_of (parse calls fuel (reply (build as_bytes id domain qtype)))
      ∷ expected reply ((id + 1) % 2 ^ 16) questions

  module _ (IsIdle : S → Type 0) (reply : Bytes → Bytes) (serves : Serves net IsIdle reply)
      (replies : Replies reply) where
    exchanged :
        (id : ℕ) (msg : Bytes) (s : S)
        → IsIdle s
        → length msg < 65536
        → u16_at msg 0 ≡ id
        → (after : S) × (written net calls fuel as_bytes id
              (net.write_all s (framed net calls fuel as_bytes msg))
            ≡ (answers_of (parse calls fuel (reply msg)), after))
          × IsIdle after
    unfolding written flushed len_read body_read check_response framed
    exchanged id msg s idle small same =
        let (sent, answer, body, after, wrote, flush, read_len, read_body, still) =
          serves.exchange s msg idle small in
        let kept : length msg % 2 ^ 16 ≡ length msg = omega (arith, small) in
        let id_is : u16_at (reply msg) 0 ≡ id = replies.same_id msg ∙ same in
        (
          after,
          rw
              (
                kept,
                wrote,
                written,
                flush,
                flushed,
                read_len,
                len_read,
                u16-put_u16 (length (reply msg)),
                le→leb min_msg_len (length (reply msg)) (replies.long msg),
                le→leb (length (reply msg)) max_msg_len (replies.short msg),
                read_body,
                body_read,
                check_response,
                id_is,
                (==_iff id id).1 refl,
              )
              refl,
          still,
        )

    send_answers :
        (id : ℕ) (domain : Text) (qtype : ℕ) (s : S)
        → IsIdle s
        → length (build as_bytes id domain qtype) < 65536
        → (after : S) × (send net calls fuel as_bytes id domain qtype s
            ≡ (answers_of (parse calls fuel (reply (build as_bytes id domain qtype))), after))
          × IsIdle after
    unfolding send
    send_answers id domain qtype s idle small =
        exchanged id (build as_bytes id domain qtype) s idle small
          (u16-build as_bytes id domain qtype)

    -- A connection that is kept is idle.
    abbrev IsReady : Option S → Type 0
    IsReady none = Unit
    IsReady (some s) = IsIdle s

    taken :
        (conn : Option S) (world : W)
        → IsReady conn
        → (s : S) × IsIdle s × ((take_conn net calls fuel as_bytes conn world).0 ≡ inl s)
    unfolding take_conn
    taken none world h = serves.dials world
    taken (some s) world h = (s, h, refl)

    returned :
        (got : Got Io) (s : S) (dot : Dot S)
        → IsIdle s
        → ((return_conn net calls fuel as_bytes (got, s) dot).0 ≡ got)
          × IsReady (return_conn net calls fuel as_bytes (got, s) dot).1.conn
          × ((return_conn net calls fuel as_bytes (got, s) dot).1.id ≡ dot.id)
    unfolding return_conn
    returned (answered r) s dot h = (refl, h, refl)
    returned (failed e) s dot h = (refl, tt, refl)
    returned endless s dot h = (refl, tt, refl)

    Answers : ℕ → Text → ℕ → Got Io × Dot S × W → Type 0
    Answers id domain qtype r =
        (r.0 ≡ answers_of (parse calls fuel (reply (build as_bytes id domain qtype))))
        × IsReady r.1.conn
        × (r.1.id ≡ (id + 1) % 2 ^ 16)

    on_stream :
        (domain : Text) (qtype : ℕ) (dot : Dot S) (taken_is : (S ⊎ Error Io) × W) (s : S)
        → taken_is.0 ≡ inl s
        → IsIdle s
        → length (build as_bytes dot.id domain qtype) < 65536
        → Answers dot.id domain qtype (query_on net calls fuel as_bytes domain qtype dot taken_is)
    unfolding Answers query_on next_id
    on_stream domain qtype dot (inr e, world) s is idle small = absurd (cc)
    on_stream domain qtype dot (inl stream, world) s is idle small =
        let same : stream ≡ s = cc in
        let (after, sent_is, still) =
          send_answers dot.id domain qtype stream (rw same idle) small in
        let got : Got Io =
          answers_of (parse calls fuel (reply (build as_bytes dot.id domain qtype))) in
        rw sent_is (returned got after (next_id net calls fuel as_bytes dot) still)

    query-Answers :
        (domain : Text) (qtype : ℕ) (dot : Dot S) (world : W)
        → IsReady dot.conn
        → length (build as_bytes dot.id domain qtype) < 65536
        → Answers dot.id domain qtype (query net calls fuel as_bytes domain qtype dot world)
    unfolding query
    query-Answers domain qtype dot world ready small =
        let (s, idle, is) = taken dot.conn world ready in
        on_stream domain qtype dot (take_conn net calls fuel as_bytes dot.conn world) s is idle
          small

    abbrev pub Fits : Text × ℕ → Type 0
    Fits question = (id : ℕ) → length (build as_bytes id question.0 question.1) < 65536

    queries-from :
        (questions : List (Text × ℕ)) (dot : Dot S) (world : W)
        → All Fits questions
        → IsReady dot.conn
        → queries net calls fuel as_bytes questions dot world ≡ expected reply dot.id questions
    unfolding queries expected Answers
    queries-from [] dot world fits ready = refl
    queries-from ((domain, qtype) ∷ questions) dot world fits ready =
        let r : Got Io × Dot S × W = query net calls fuel as_bytes domain qtype dot world in
        let (got, ready_then, next) = query-Answers domain qtype dot world ready (fits.0 dot.id) in
        ap₂ (λ a b. a ∷ b) got
          (queries-from questions r.1 r.2 fits.1 ready_then
            ∙ ap (λ i. expected reply i questions) next)

    -- Queries of a new client, one after the other, to a server that keeps to the framing and answers
    -- each message with one under its id: each query gets what the parser reads in the answer to its
    -- own message, whether an earlier answer was refused or not, if the messages are shorter than
    -- 2^16 bytes.
    pub queries-new :
        (questions : List (Text × ℕ)) (world : W)
        → All Fits questions
        → queries net calls fuel as_bytes questions new world ≡ expected reply 1 questions
    unfolding new
    queries-new questions world fits = queries-from questions new world fits tt
