-- ===== src/SmtpRecv/Send.antt =====
-- smtp_recv/src/send/session.rs: the session on port 465, which wants its client to log in.
pub mod Guard
pub mod Answers
use npm.Common.{ℕ, Bool, true, false, Option, none, some, List, [], ◌∷◌, ◌++◌, map}
use npm.SmtpRecv.Text.{Text, to_upper, text_eq, trim, split_once}
use npm.SmtpRecv.Reply.{Reply, SmtpError, Action, reply, handled}
use npm.SmtpRecv.Outcome.{Op, ◌>>=◌, ◌>>◌, return, throw, modify, done}
use npm.SmtpRecv.Stream.{Conn, StreamOps, conn_ops, field_ops}
use npm.SmtpRecv.ReadMail.{read_mail}
use npm.SmtpRecv.SendTo
use npm.SmtpRecv.SendTo.{SendTo, take_sender, take_to_li}
use npm.SmtpRecv.Cmd.{Command, ehlo, helo, handle_common, handle_send_mail, handle_send_rcpt}
use npm.SmtpRecv.Mail
use npm.SmtpRecv.Mail.{Mail}
use npm.SmtpRecv.Run.{Session}
use npm.Common.{if◌then◌else◌}

pub record UserMail : Type 0 where
  pub mail : Mail
  pub user_id : ℕ

-- The session. Of the mailer it keeps the mails that were handed to it, in order.
pub record SendSession : Type 0 where
  pub stream : Conn
  pub mailer : List UserMail
  pub authenticated : Bool
  pub user_id : ℕ
  pub email : Text
  pub send_to : SendTo

unfoldable pub load : Conn → SendSession
load stream = record {
  stream = stream;
  mailer = [];
  authenticated = false;
  user_id = 0;
  email = [];
  send_to = SendTo.new;
}

unfoldable pub stream_ops : StreamOps SendSession
unfolding field_ops conn_ops
stream_ops = field_ops (λ s. s.stream) (λ c s. record s { stream = c }) conn_ops

-- The crates: email_address, base64 with the test for UTF-8, xstr and punycode, the verdict of the
-- login service (`none` is its failure) and whether the mailer takes a mail.
pub record Services : Type 0 where
  pub email_of : Text → Option Text
  pub base64 : Text → Option Text
  pub lowtrim : Text → Text
  pub cut : Text → Text
  pub decode_label : Text → Option Text
  pub verify : Text → Text → Text → Option (Option ℕ)
  pub accepts : UserMail → Bool

-- `splitn(3, '\0')`, with exactly three parts.
unfoldable pub split_plain : Text → Option (Text × Text)
split_plain decoded = elim (split_once 0 decoded) [
  | none ↦ none
  | some (authzid, rest) ↦ split_once 0 rest
]

-- The action of a command that only changes `send_to`.
unfoldable pub with_send_to :
    (SendTo → Action × SendTo) → List Reply → Op SendSession (Action × List Reply)
with_send_to f pending s = done ((f s.send_to).0, pending) (record s { send_to = (f s.send_to).1 })

module _ (services : Services) (host : Text) where
  unfoldable pub decode_base64 : Text → Option Text
  decode_base64 encoded = services.base64 (trim encoded)

  unfoldable pub decode_auth_plain : Text → Option (Text × Text)
  unfolding decode_base64 split_plain
  decode_auth_plain encoded = elim (decode_base64 encoded) [
    | none ↦ none
    | some decoded ↦ split_plain decoded
  ]

  unfoldable pub log_in : Text → Option (Option ℕ) → Op SendSession (Unit {0})
  log_in username none = throw SmtpError.anyhow
  log_in username (some none) = stream_ops.send Reply.auth_failed
  log_in username (some (some id)) = do
    modify (λ s. record s { authenticated = true; user_id = id; email = username })
    stream_ops.send Reply.auth_success

  unfoldable pub verify_auth : Text → Text → Op SendSession (Unit {0})
  unfolding log_in
  verify_auth username password = log_in username (services.verify host username password)

  unfoldable pub check_plain : Option (Text × Text) → Op SendSession (Unit {0})
  unfolding verify_auth
  check_plain none = stream_ops.send Reply.invalid_auth_plain
  check_plain (some (username, password)) = verify_auth username password

  unfoldable pub handle_auth_plain : Text → Op SendSession (Unit {0})
  unfolding check_plain decode_auth_plain
  handle_auth_plain [] = do
    stream_ops.send Reply.auth_plain_prompt
    line ← stream_ops.read_line
    check_plain (decode_auth_plain line)
  handle_auth_plain (c ∷ s) = check_plain (decode_auth_plain (c ∷ s))

  unfoldable pub read_base64_response : Op SendSession Text
  unfolding decode_base64
  read_base64_response = do
    line ← stream_ops.read_line
    return (elim (decode_base64 line) [ none ↦ [] | some t ↦ t ])

  unfoldable pub handle_auth_login : Op SendSession (Unit {0})
  unfolding read_base64_response verify_auth
  handle_auth_login = do
    stream_ops.send Reply.auth_username_prompt
    username ← read_base64_response
    stream_ops.send Reply.auth_password_prompt
    password ← read_base64_response
    verify_auth username password

  unfoldable pub mechanism : Text → Text × Text
  mechanism args = elim (split_once 32 args) [ none ↦ (args, []) | some p ↦ p ]

  unfoldable pub handle_auth : Text → Op SendSession (Unit {0})
  unfolding handle_auth_plain handle_auth_login mechanism
  handle_auth args =
      let name = map to_upper (mechanism args).0 in
      if text_eq name (b'P' ∷ b'L' ∷ b'A' ∷ b'I' ∷ b'N' ∷ [])
      then handle_auth_plain (mechanism args).1
      else if text_eq name (b'L' ∷ b'O' ∷ b'G' ∷ b'I' ∷ b'N' ∷ [])
      then handle_auth_login
      else stream_ops.send Reply.auth_mechanism_not_supported

  unfoldable pub handle_mail_cmd : Text → List Reply → Op SendSession (Action × List Reply)
  unfolding with_send_to handle_send_mail
  handle_mail_cmd args pending s =
      with_send_to (handle_send_mail services.email_of args s.authenticated s.email) pending s

  unfoldable pub handle_rcpt_cmd : Text → List Reply → Op SendSession (Action × List Reply)
  unfolding with_send_to handle_send_rcpt
  handle_rcpt_cmd args pending s =
      with_send_to (handle_send_rcpt services.email_of args s.authenticated) pending s

  unfoldable pub handle_cmd : Command → Text → List Reply → Op SendSession (Action × List Reply)
  unfolding handle_auth handle_mail_cmd handle_rcpt_cmd with_send_to handle_common
  handle_cmd ehlo args pending = return (reply (Reply.hello_auth host), pending)
  handle_cmd helo args pending = return (reply (Reply.hello_auth host), pending)
  handle_cmd Command.auth args pending = do
    stream_ops.flush pending
    handle_auth args
    return (handled, [])
  handle_cmd Command.mail args pending = handle_mail_cmd args pending
  handle_cmd Command.rcpt args pending = handle_rcpt_cmd args pending
  handle_cmd c args pending = with_send_to (handle_common c) pending

  -- The mailer is called, and its answer tells the reply.
  unfoldable pub hand_over : UserMail → Op SendSession (Unit {0})
  hand_over m = do
    modify (λ s. record s { mailer = s.mailer ++ (m ∷ []) })
    if services.accepts m
        then stream_ops.send Reply.message_accepted
        else stream_ops.send Reply.local_error

  unfoldable pub send_new : Option Mail → Op SendSession (Unit {0})
  unfolding hand_over
  send_new none = stream_ops.send Reply.message_accepted
  send_new (some m) = λ s. hand_over (record { mail = m; user_id = s.user_id }) s

  unfoldable pub send_from : Option Text → Text → Op SendSession (Unit {0})
  unfolding send_new
  send_from none body = stream_ops.send Reply.message_accepted
  send_from (some sender) body = λ s.
      send_new
        (Mail.new services.lowtrim services.cut services.decode_label sender s.send_to.to_li body)
        (record s { send_to = (take_to_li s.send_to).1 })

  unfoldable pub read_and_send_mail : ℕ → Op SendSession (Unit {0})
  unfolding send_from read_mail
  read_and_send_mail fuel = do
    body ← read_mail stream_ops fuel
    λ s. send_from s.send_to.sender body (record s { send_to = (take_sender s.send_to).1 })

  unfoldable pub session : Session SendSession
  unfolding stream_ops handle_cmd read_and_send_mail
  session = record {
    stream = stream_ops;
    handle_cmd = handle_cmd;
    handle_data = read_and_send_mail;
  }
