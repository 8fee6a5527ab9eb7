-- ===== src/DnsParse/Response.antt =====
-- `parse` of dns_parse/src/parse.rs.
use npm.Common.{
  ℕ, zero, suc, ◌+◌, ◌*◌, Bool, true, false, ◌&&◌, Option, none, some, List, [], ◌∷◌, ◌++◌, ltb,
  leb, ◌==◌, if◌then◌else◌, length, get_elem?,
}
use npm.Text.{Text, is_empty}
use npm.Idns.Records.{Answer}
use npm.DnsParse.{
  response_too_short, incomplete_data, Run, ok, err, ◌>>=◌, return, Bytes, slice, byte_at, u16_at,
}
use npm.DnsParse.Name.{read_name, skip_name}
use Prim.Native.Nat.{bit_and}

-- What the parser calls: `str::from_utf8`, `Ipv4Addr::to_string` and `Ipv6Addr::to_string` of an
-- address's bytes, the printing of a u16, `hex::encode`, and where an empty `Bytes::slice` stands in
-- the data that it was taken from.
pub record Calls : Type 0 where
  pub from_utf8 : Bytes → Option Text
  pub display_v4 : Bytes → Text
  pub display_v6 : Bytes → Text
  pub display_u16 : ℕ → Text
  pub hex : Bytes → Text
  pub empty_at : ℕ → ℕ

-- Between two strings that are not empty stands a space.
unfoldable pub push_spaced : Text → Option Text → Text
unfolding is_empty
push_spaced result none = result
push_spaced result (some s) = if is_empty result then s else result ++ (b' ' ∷ s)

unfoldable pub spaced : Text → Text → Text
spaced a b = a ++ (b' ' ∷ b)

module _ (calls : Calls) where
  -- Each round takes the byte of a length, so the bytes are enough fuel.
  unfoldable pub txt_loop : ℕ → Bytes → ℕ → Text → Text
  unfolding slice push_spaced
  txt_loop zero rdata i result = result
  txt_loop (suc fuel) rdata i result = elim (get_elem? rdata i) [
    | none ↦ result
    | some len ↦
        let rest =
          txt_loop fuel rdata (i + 1 + len)
            (push_spaced result (calls.from_utf8 (slice rdata (i + 1) len))) in
        if ltb (length rdata) (i + 1 + len) then result else rest
  ]

  unfoldable pub parse_txt : Bytes → Text
  unfolding txt_loop
  parse_txt rdata = txt_loop (length rdata) rdata 0 []

  -- The record's data is the `len` bytes of the message from `start`.
  module _ (fuel : ℕ) (full : Bytes) where
    unfoldable pub read_name_at : ℕ → ℕ → ℕ → Run Text
    unfolding read_name
    read_name_at start len offset = do
      r ←
          read_name calls.from_utf8 fuel full
            ((if len == 0 then calls.empty_at start else start) + offset)
      return r.0

    unfoldable pub parse_mx : ℕ → ℕ → Run Text
    unfolding read_name_at u16_at spaced
    parse_mx start len = do
      name ← read_name_at start len 2
      return (spaced (calls.display_u16 (u16_at full start)) name)

    unfoldable pub parse_srv : ℕ → ℕ → Run Text
    unfolding read_name_at u16_at spaced
    parse_srv start len = do
      name ← read_name_at start len 6
      return (
          spaced (calls.display_u16 (u16_at full start)) (
            spaced (calls.display_u16 (u16_at full (start + 2)))
              (spaced (calls.display_u16 (u16_at full (start + 4))) name)))

    unfoldable pub is_name_type : ℕ → Bool
    is_name_type type_id = elim (type_id == 2) [
      | true ↦ true
      | false ↦ elim (type_id == 5) [ true ↦ true | false ↦ type_id == 12 ]
    ]

    unfoldable pub parse_rdata : ℕ → ℕ → ℕ → Run Text
    unfolding parse_mx parse_srv parse_txt read_name_at slice is_name_type
    parse_rdata type_id start len =
        if (type_id == 1) && (len == 4)
        then ok (calls.display_v4 (slice full start len))
        else if (type_id == 28) && (len == 16)
        then ok (calls.display_v6 (slice full start len))
        else if is_name_type type_id
        then read_name_at start len 0
        else if (type_id == 15) && leb 3 len
        then parse_mx start len
        else if type_id == 16
        then ok (parse_txt (slice full start len))
        else if (type_id == 33) && leb 7 len
        then parse_srv start len
        else ok (calls.hex (slice full start len))

    -- The type, the class, four bytes of time to live, and the length stand before the data.
    unfoldable pub parse_data : Text → ℕ → Run (Answer × ℕ)
    unfolding parse_rdata u16_at
    parse_data name pos =
        if ltb (length full) (pos + 10)
        then err incomplete_data
        else let rd_len = u16_at full (pos + 8) in
          if ltb (length full) (pos + 10 + rd_len) then err incomplete_data else (do
            val ← parse_rdata (u16_at full pos) (pos + 10) rd_len
            return (
              record {
                name = name;
                val = val;
                type_id = u16_at full pos;
                ttl = u16_at full (pos + 4) * 65536 + u16_at full (pos + 6);
              },
              pos + 10 + rd_len,
            ))

    unfoldable pub parse_rr : ℕ → Run (Answer × ℕ)
    unfolding parse_data read_name
    parse_rr pos = do
      (name, end_pos) ← read_name calls.from_utf8 fuel full pos
      parse_data name end_pos

    unfoldable pub skip_questions : ℕ → ℕ → Run ℕ
    unfolding skip_name
    skip_questions zero pos = return pos
    skip_questions (suc n) pos = do end_pos ← skip_name full pos; skip_questions n (end_pos + 4)

    unfoldable pub parse_answers : ℕ → ℕ → Run (List Answer)
    unfolding parse_rr
    parse_answers zero pos = return []
    parse_answers (suc n) pos = do
      (answer, end_pos) ← parse_rr pos
      answers ← parse_answers n end_pos
      return (answer ∷ answers)

    -- The response codes are 0 and, for a domain that does not exist, 3.
    unfoldable pub is_answered : ℕ → Bool
    is_answered rcode = elim (rcode == 0) [ true ↦ true | false ↦ rcode == 3 ]

    unfoldable pub parse : Run (List Answer)
    unfolding skip_questions parse_answers is_answered byte_at u16_at
    parse =
        if ltb (length full) 12
        then err response_too_short
        else if is_answered (bit_and (byte_at full 3) 0x0F)
        then (do pos ← skip_questions (u16_at full 4) 12; parse_answers (u16_at full 6) pos)
        else ok []
