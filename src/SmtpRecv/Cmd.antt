-- ===== src/SmtpRecv/Cmd.antt =====
-- smtp_recv/src/cmd.rs, on the words that the sessions know.
use npm.Common.{Bool, Option, none, some, [], ◌∷◌, if◌then◌else◌}
use npm.SmtpRecv.Text.{Text, text_eq, eq_ignore_ascii_case, parse_address}
use npm.SmtpRecv.Reply.{Reply, Action, reply, start_data}
use npm.SmtpRecv.SendTo.{SendTo, reset, set_sender, add_to, has_sender, is_ready}

pub data Command : Type 0 where
  ehlo : Command
  helo : Command
  starttls : Command
  auth : Command
  mail : Command
  rcpt : Command
  data_mail : Command
  rset : Command
  noop : Command
  quit : Command
  other : Command

unfoldable pub command : Text → Command
command cmd =
    if text_eq cmd (b'E' ∷ b'H' ∷ b'L' ∷ b'O' ∷ [])
    then ehlo
    else if text_eq cmd (b'H' ∷ b'E' ∷ b'L' ∷ b'O' ∷ [])
    then helo
    else if text_eq cmd (b'S' ∷ b'T' ∷ b'A' ∷ b'R' ∷ b'T' ∷ b'T' ∷ b'L' ∷ b'S' ∷ [])
    then starttls
    else if text_eq cmd (b'A' ∷ b'U' ∷ b'T' ∷ b'H' ∷ [])
    then auth
    else if text_eq cmd (b'M' ∷ b'A' ∷ b'I' ∷ b'L' ∷ [])
    then mail
    else if text_eq cmd (b'R' ∷ b'C' ∷ b'P' ∷ b'T' ∷ [])
    then rcpt
    else if text_eq cmd (b'D' ∷ b'A' ∷ b'T' ∷ b'A' ∷ [])
    then data_mail
    else if text_eq cmd (b'R' ∷ b'S' ∷ b'E' ∷ b'T' ∷ [])
    then rset
    else if text_eq cmd (b'N' ∷ b'O' ∷ b'O' ∷ b'P' ∷ [])
    then noop
    else if text_eq cmd (b'Q' ∷ b'U' ∷ b'I' ∷ b'T' ∷ [])
    then Command.quit
    else other

unfoldable pub handle_data_cmd : SendTo → Action × SendTo
handle_data_cmd s =
    if is_ready s then (start_data Reply.data_start, s) else (reply Reply.bad_sequence_mail_rcpt, s)

-- `handle_cmd`
unfoldable pub handle_common : Command → SendTo → Action × SendTo
unfolding handle_data_cmd
handle_common data_mail s = handle_data_cmd s
handle_common rset s = (Action.ok, reset s)
handle_common noop s = (Action.ok, s)
handle_common Command.quit s = (Action.quit Reply.bye, s)
handle_common _ s = (reply Reply.command_not_recognized, s)

unfoldable pub add_rcpt : Option Text → SendTo → Action × SendTo
add_rcpt none s = (reply Reply.invalid_rcpt_syntax, s)
add_rcpt (some a) s = (Action.ok, add_to a s)

module _ (email_of : Text → Option Text) where
  unfoldable pub handle_forward_rcpt : Text → SendTo → Action × SendTo
  unfolding add_rcpt
  handle_forward_rcpt args s =
      if has_sender s
      then add_rcpt (parse_address email_of args) s
      else (reply Reply.bad_sequence_mail, s)

  unfoldable pub send_mail_from : Option Text → Text → SendTo → Action × SendTo
  send_mail_from none auth_email s = (reply Reply.invalid_mail_syntax, s)
  send_mail_from (some a) auth_email s =
      if eq_ignore_ascii_case a auth_email
      then (Action.ok, set_sender a s)
      else (reply Reply.sender_rejected, s)

  unfoldable pub handle_send_mail : Text → Bool → Text → SendTo → Action × SendTo
  unfolding send_mail_from
  handle_send_mail args authenticated auth_email s =
      if authenticated
      then send_mail_from (parse_address email_of args) auth_email s
      else (reply Reply.auth_required, s)

  unfoldable pub handle_send_rcpt : Text → Bool → SendTo → Action × SendTo
  unfolding handle_forward_rcpt
  handle_send_rcpt args authenticated s =
      if authenticated then handle_forward_rcpt args s else (reply Reply.auth_required, s)
