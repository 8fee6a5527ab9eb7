-- ===== src/Idot.antt =====
-- idot/src/dot.rs, error.rs, and lib.rs up to its lists of servers: queries over TLS, one after the
-- other, with the connection kept for the next. The network is a record: the world that `dial`
-- changes, and what a stream does. A read is one with its timeout.
pub mod Exchange
mod Tests
use npm.Common.{
  ℕ, ◌+◌, ◌%◌, ◌^◌, Bool, true, false, ◌&&◌, Option, none, some, List, [], ◌∷◌, ◌++◌, ◌⊎◌, inl, inr,
  leb, ◌==◌, if◌then◌else◌, length,
}
use npm.Text.{Text}
use npm.Idns.Records.{Answer}
use npm.DnsParse.{Bytes, Run, ok, err, out_of_fuel, u16_at}
use npm.DnsParse as DnsParse
use npm.DnsParse.Query.{put_u16, build}
use npm.DnsParse.Response.{Calls, parse}

pub data Error (Io : Type 0) : Type 0 where
  io : Io → Error Io
  parse_error : DnsParse.Error → Error Io
  timeout : Error Io
  invalid_address : Error Io
  invalid_length : Error Io
  id_mismatch : Error Io

-- A result, or the parser ran out of its fuel.
pub data Got (Io : Type 0) : Type 0 where
  answered : Option (List Answer) → Got Io
  failed : Error Io → Got Io
  endless : Got Io

pub record Net (W S Io : Type 0) : Type 0 where
  pub dial : W → (S ⊎ Error Io) × W
  pub write_all : S → Bytes → Option (Error Io) × S
  pub flush : S → Option (Error Io) × S
  pub read_exact : S → ℕ → (Bytes ⊎ Error Io) × S

pub record Dot (S : Type 0) : Type 0 where
  pub conn : Option S
  pub id : ℕ

abbrev pub max_msg_len : ℕ
max_msg_len = 65535

abbrev pub min_msg_len : ℕ
min_msg_len = 12

unfoldable pub new : {S : Type 0} → Dot S
new = record { conn = none; id = 1 }

unfoldable pub answers_of : {Io : Type 0} → Run (List Answer) → Got Io
answers_of (ok []) = answered none
answers_of (ok (a ∷ answers)) = answered (some (a ∷ answers))
answers_of (err e) = failed (parse_error e)
answers_of out_of_fuel = endless

module _ {W S Io : Type 0} (net : Net W S Io) (calls : Calls) (fuel : ℕ)
    (as_bytes : Text → Bytes) where
  unfoldable pub check_response : ℕ → Bytes → Got Io
  unfolding u16_at answers_of parse
  check_response id resp =
      if u16_at resp 0 == id then answers_of (parse calls fuel resp) else failed id_mismatch

  unfoldable pub body_read : ℕ → (Bytes ⊎ Error Io) × S → Got Io × S
  unfolding check_response
  body_read id (inr e, stream) = (failed e, stream)
  body_read id (inl resp, stream) = (check_response id resp, stream)

  unfoldable pub len_read : ℕ → (Bytes ⊎ Error Io) × S → Got Io × S
  unfolding body_read u16_at
  len_read id (inr e, stream) = (failed e, stream)
  len_read id (inl len_buf, stream) =
      let len = u16_at len_buf 0 in
      if leb min_msg_len len && leb len max_msg_len
      then body_read id (net.read_exact stream len)
      else (failed invalid_length, stream)

  unfoldable pub flushed : ℕ → Option (Error Io) × S → Got Io × S
  unfolding len_read
  flushed id (some e, stream) = (failed e, stream)
  flushed id (none, stream) = len_read id (net.read_exact stream 2)

  unfoldable pub written : ℕ → Option (Error Io) × S → Got Io × S
  unfolding flushed
  written id (some e, stream) = (failed e, stream)
  written id (none, stream) = flushed id (net.flush stream)

  unfoldable pub framed : Bytes → Bytes
  unfolding put_u16
  framed msg = put_u16 (length msg % 2 ^ 16) ++ msg

  unfoldable pub send : ℕ → Text → ℕ → S → Got Io × S
  unfolding written framed build
  send id domain qtype stream =
      written id (net.write_all stream (framed (build as_bytes id domain qtype)))

  -- The connection is taken from its place, or is a new one.
  unfoldable pub take_conn : Option S → W → (S ⊎ Error Io) × W
  take_conn (some stream) world = (inl stream, world)
  take_conn none world = net.dial world

  -- It goes back to its place after a success only.
  unfoldable pub return_conn : Got Io × S → Dot S → Got Io × Dot S
  return_conn (answered r, stream) dot = (answered r, record dot { conn = some stream })
  return_conn (failed e, stream) dot = (failed e, record dot { conn = none })
  return_conn (endless, stream) dot = (endless, record dot { conn = none })

  unfoldable pub next_id : Dot S → Dot S
  next_id dot = record dot { id = (dot.id + 1) % 2 ^ 16 }

  unfoldable pub query_on : Text → ℕ → Dot S → (S ⊎ Error Io) × W → Got Io × Dot S × W
  unfolding send return_conn next_id
  query_on domain qtype dot (inr e, world) = (failed e, record dot { conn = none }, world)
  query_on domain qtype dot (inl stream, world) =
      let (got, after) = return_conn (send dot.id domain qtype stream) (next_id dot) in
      (got, after, world)

  unfoldable pub query : Text → ℕ → Dot S → W → Got Io × Dot S × W
  unfolding take_conn query_on
  query domain qtype dot world = query_on domain qtype dot (take_conn dot.conn world)

  unfoldable pub queries : List (Text × ℕ) → Dot S → W → List (Got Io)
  unfolding query
  queries [] dot world = []
  queries ((domain, qtype) ∷ questions) dot world =
      let (got, after, then_world) = query domain qtype dot world in
      got ∷ queries questions after then_world
