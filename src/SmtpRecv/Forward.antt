-- ===== src/SmtpRecv/Forward.antt =====
-- smtp_recv/src/forward/session.rs: the session on port 25, which takes mails for the users of
-- the host and forwards them.
pub mod Checked
pub mod Answers
use npm.Common.{
  ℕ, ◌/◌, ◌%◌, ◌^◌, Bool, true, false, ◌&&◌, ◌||◌, Option, some, ◌⊎◌, inl, inr, List, [], ◌∷◌, ◌++◌,
  ◌==◌, if◌then◌else◌,
}
use npm.SmtpRecv.Text.{Text, parse_address}
use npm.SmtpRecv.Reply.{Reply, SmtpError, Action, reply, handled}
use npm.SmtpRecv.Outcome.{settled, Op, ◌>>=◌, ◌>>◌, return, throw, gets, modify, done, failed}
use npm.SmtpRecv.Stream.{Conn, Event, StreamEnum, StreamOps, enum_ops, field_ops, is_tls}
use npm.SmtpRecv.ReadMail.{read_mail}
use npm.SmtpRecv.SendTo
use npm.SmtpRecv.SendTo.{SendTo, set_sender, take_sender, take_to_li}
use npm.SmtpRecv.Cmd.{Command, handle_common, handle_forward_rcpt}
use npm.SmtpRecv.Mail
use npm.SmtpRecv.Mail.{Mail, norm_user_host}
use npm.SmtpRecv.Run.{Session}
use npm.Idns.Address.{IpAddr, v4, v6}
use npm.Idns.Spf.{Status}

-- 127.0.0.0/8; ::1, and ::ffff:127.0.0.0/104.
unfoldable pub is_local : IpAddr → Bool
is_local (v4 a) = a / 2 ^ 24 == 127
is_local (v6 a) = (a == 1) || ((a / 2 ^ 32 == 65535) && (a % 2 ^ 32 / 2 ^ 24 == 127))

-- Of the mailer the session keeps the mails that were handed to it, in order.
pub record ForwardSession : Type 0 where
  pub stream : StreamEnum
  pub mailer : List Mail
  pub sni_host : Option Text
  pub send_to : SendTo
  pub ip : IpAddr

unfoldable pub new : Conn → IpAddr → ForwardSession
new stream ip = record {
  stream = StreamEnum.plain stream;
  mailer = [];
  sni_host = Option.none;
  send_to = SendTo.new;
  ip = ip;
}

unfoldable pub stream_ops : StreamOps ForwardSession
unfolding field_ops enum_ops
stream_ops = field_ops (λ s. s.stream) (λ c s. record s { stream = c }) enum_ops

-- The crates email_address, xstr and punycode; the check of a sender's host against an address;
-- the lookups of the forward service (`none` is a failure); whether the mailer takes a mail; and
-- the handshake, which returns what the client sends over TLS, and the name of the host.
pub record Services : Type 0 where
  pub email_of : Text → Option Text
  pub lowtrim : Text → Text
  pub cut : Text → Text
  pub decode_label : Text → Option Text
  pub verify_spf : Text → IpAddr → Status
  pub forward : Text → Option (Option Text)
  pub forward_set : List Text → Option (List Text)
  pub accepts : Mail → Bool
  pub handshake : List Event → SmtpError ⊎ (List Event × Text)

unfoldable pub localhost : Text
localhost = b'l' ∷ b'o' ∷ b'c' ∷ b'a' ∷ b'l' ∷ b'h' ∷ b'o' ∷ b's' ∷ b't' ∷ []

unfoldable pub host_of : Option Text → Bool → Op ForwardSession Text
unfolding localhost
host_of (some h) b = return h
host_of Option.none true = throw SmtpError.no_sni
host_of Option.none false = return localhost

unfoldable pub handle_ehlo : Op ForwardSession Reply
unfolding host_of is_tls
handle_ehlo = do
  secure ← gets (λ s. is_tls s.stream)
  sni ← gets (λ s. s.sni_host)
  host ← host_of sni secure
  return (if secure then Reply.hello_tls host else Reply.hello_starttls host)

-- The `match status` of `handle_mail`: the reply of a refusal.
unfoldable pub refusal : Status → Option Reply
refusal Status.fail = some Reply.spf_fail
refusal Status.perm_error = some Reply.spf_fail
refusal Status.temp_error = some Reply.spf_temp_error
refusal _ = Option.none

-- The receivers after the lookup. The lookups are told apart by the number of receivers; the
-- reply is the one that is sent in place of a result.
pub data Target : Type 0 where
  found : List Text → Target
  answer : Reply → Target
  nobody : Target

module _ (services : Services) where
  unfoldable pub spf_refusal : Text → IpAddr → Option Reply
  unfolding refusal
  spf_refusal sender ip =
      if is_local ip
      then Option.none
      else elim (norm_user_host services.lowtrim services.cut services.decode_label sender) [
        | Option.none ↦ Option.none
        | some (user, host) ↦ refusal (services.verify_spf host ip)
      ]

  unfoldable pub accept_sender : Text → Option Reply → SendTo → Action × SendTo
  accept_sender sender (some r) s = (reply r, s)
  accept_sender sender Option.none s = (Action.ok, set_sender sender s)

  unfoldable pub mail_from : IpAddr → Option Text → SendTo → Action × SendTo
  unfolding spf_refusal accept_sender
  mail_from ip Option.none s = (reply Reply.invalid_mail_syntax, s)
  mail_from ip (some sender) s = accept_sender sender (spf_refusal sender ip) s

  unfoldable pub with_send_to :
      (SendTo → Action × SendTo) → List Reply → Op ForwardSession (Action × List Reply)
  with_send_to f pending s =
      done ((f s.send_to).0, pending) (record s { send_to = (f s.send_to).1 })

  unfoldable pub handle_mail : Text → List Reply → Op ForwardSession (Action × List Reply)
  unfolding mail_from with_send_to
  handle_mail args pending s =
      with_send_to (mail_from s.ip (parse_address services.email_of args)) pending s

  unfoldable pub shake : Conn → SmtpError ⊎ (List Event × Text) → Op ForwardSession (Unit {0})
  shake c (inl e) s = failed e (record s { stream = StreamEnum.none })
  shake c (inr (input, sni)) s = done tt (record s {
    stream = StreamEnum.tls (record { input = input; more = false; output = c.output });
    sni_host = some sni;
  })

  unfoldable pub upgrade : StreamEnum → Op ForwardSession (Unit {0})
  unfolding shake
  upgrade (StreamEnum.plain c) = shake c (services.handshake c.input)
  upgrade _ = λ s. failed SmtpError.stream_none (record s { stream = StreamEnum.none })

  unfoldable pub handle_starttls : Op ForwardSession (Unit {0})
  unfolding upgrade
  handle_starttls = do stream_ops.send Reply.starttls_ready; λ s. upgrade s.stream s

  unfoldable pub starttls_cmd : Bool → List Reply → Op ForwardSession (Action × List Reply)
  unfolding handle_starttls
  starttls_cmd true pending = return (reply Reply.tls_already_active, pending)
  starttls_cmd false pending = do stream_ops.flush pending; handle_starttls; return (handled, [])

  unfoldable pub greet : List Reply → Op ForwardSession (Action × List Reply)
  unfolding handle_ehlo
  greet pending = do r ← handle_ehlo; return (reply r, pending)

  unfoldable pub handle_cmd : Command → Text → List Reply → Op ForwardSession (Action × List Reply)
  unfolding greet starttls_cmd handle_mail with_send_to handle_common handle_forward_rcpt
  handle_cmd Command.ehlo args pending = greet pending
  handle_cmd Command.helo args pending = greet pending
  handle_cmd Command.starttls args pending = λ s. starttls_cmd (is_tls s.stream) pending s
  handle_cmd Command.mail args pending = handle_mail args pending
  handle_cmd Command.rcpt args pending =
      with_send_to (handle_forward_rcpt services.email_of args) pending
  handle_cmd c args pending = with_send_to (handle_common c) pending

  unfoldable pub of_one : Option (Option Text) → Target
  of_one Option.none = answer Reply.local_error
  of_one (some Option.none) = answer Reply.no_such_user
  of_one (some (some t)) = found (t ∷ [])

  unfoldable pub of_set : Option (List Text) → Target
  of_set Option.none = answer Reply.local_error
  of_set (some []) = answer Reply.no_such_user
  of_set (some (t ∷ ts)) = found (t ∷ ts)

  unfoldable pub forward_li : List Text → Target
  unfolding of_one of_set
  forward_li [] = nobody
  forward_li (a ∷ []) = of_one (services.forward a)
  forward_li (a ∷ b ∷ li) = of_set (services.forward_set (a ∷ b ∷ li))

  unfoldable pub send_mail : Option Mail → Op ForwardSession (Unit {0})
  send_mail Option.none = stream_ops.send Reply.local_error
  send_mail (some m) = do
    modify (λ s. record s { mailer = s.mailer ++ (m ∷ []) })
    stream_ops.send
        (if services.accepts m then Reply.message_accepted_forwarding else Reply.local_error)

  unfoldable pub send_target : Text → Text → Target → Op ForwardSession (Unit {0})
  unfolding send_mail
  send_target sender body (found li) =
      send_mail (Mail.new services.lowtrim services.cut services.decode_label sender li body)
  send_target sender body (answer r) = λ s. settled (stream_ops.send r s)
  send_target sender body nobody = return tt

  unfoldable pub forward_from : Option Text → Text → Op ForwardSession (Unit {0})
  unfolding send_target forward_li
  forward_from Option.none body = return tt
  forward_from (some sender) body = λ s.
      send_target sender body (forward_li s.send_to.to_li)
        (record s { send_to = (take_to_li s.send_to).1 })

  unfoldable pub read_and_forward_mail : ℕ → Op ForwardSession (Unit {0})
  unfolding forward_from read_mail
  read_and_forward_mail fuel = do
    body ← read_mail stream_ops fuel
    λ s. forward_from s.send_to.sender body (record s { send_to = (take_sender s.send_to).1 })

  unfoldable pub session : Session ForwardSession
  unfolding stream_ops handle_cmd read_and_forward_mail
  session = record {
    stream = stream_ops;
    handle_cmd = handle_cmd;
    handle_data = read_and_forward_mail;
  }
