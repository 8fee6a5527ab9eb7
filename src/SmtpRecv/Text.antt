-- ===== src/SmtpRecv/Text.antt =====
-- The string functions of smtp_recv/src/session.rs.
unfoldable pub use npm.Text.{
  Text, to_upper, to_lower, is_white, text_eq, eq_ignore_ascii_case, trim_start_matches,
  trim_matches, trim, split_once, is_empty,
}
use npm.Common.{ℕ, Bool, ◌||◌, Option, none, some, [], map, ◌==◌, if◌then◌else◌}

unfoldable pub is_angle : ℕ → Bool
is_angle c = (c == b'<') || (c == b'>')

-- `EmailAddress::from_str` and `to_string` of its result, of the crate email_address.
module _ (email_of : Text → Option Text) where
  unfoldable pub address_part : Text → Text
  address_part args = elim (split_once b':' (trim args)) [
    | none ↦ args
    | some (word, addr) ↦ trim_start_matches is_white addr
  ]

  unfoldable pub parse_address : Text → Option Text
  parse_address args =
      let clean = trim (trim_matches is_angle (address_part args)) in
      if is_empty clean then none else email_of clean

unfoldable pub parse_command : Text → Text × Text
parse_command line = elim (split_once 32 line) [
  | none ↦ (map to_upper line, [])
  | some (cmd, args) ↦ (map to_upper cmd, args)
]
