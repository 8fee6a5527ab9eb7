-- ===== src/SmtpRecv/Tests.antt =====
-- Runs of the two sessions, and the theorems at concrete inputs.
use npm.Common.{◌≡◌, refl, arith, true, false, Option, none, some, List, [], ◌∷◌, ◌++◌, inr}
use npm.Text.{codes}
use npm.SmtpRecv.Text.{Text}
use npm.SmtpRecv.Text.{to_lower, parse_address, address_part, is_angle, eq_ignore_ascii_case}
use npm.SmtpRecv.Reply.{Reply}
use npm.SmtpRecv.Outcome.{Outcome, done, Ends}
use npm.SmtpRecv.Stream.{StreamEnum, Event, line, Conn, conn_ops, field_ops, lift_outcome}
use npm.SmtpRecv.ReadMail.{read_mail, at, read_mail-stuffed}
use npm.SmtpRecv.Text.{
  text_eq, trim, trim_matches, trim_start_matches, is_white, split_once, to_upper, is_empty,
  parse_command,
}
use npm.SmtpRecv.Cmd.{command, handle_send_mail, handle_common}
use npm.SmtpRecv.Run.{run_loop, push_command, take_action}
use npm.SmtpRecv.Send
use npm.SmtpRecv.Send.Guard.{IsGuarded}
use npm.SmtpRecv.Send.Answers.{IsAnswered, run_loop-IsGuarded, send_from_answers}
use npm.SmtpRecv.Forward
use npm.Idns.Address.{IpAddr}
use npm.Idns.Spf.{Status}
use npm.SmtpRecv.Forward.Answers
use npm.SmtpRecv.Forward.Answers.{forward_from_answers}
use npm.SmtpRecv.Forward.Checked.{IsChecked, run_loop-IsChecked}

-- ".a\r\n" and "b\r\n"
abbrev dotted : Text
dotted = b'.' ∷ b'a' ∷ 13 ∷ 10 ∷ []

abbrev bare : Text
bare = b'b' ∷ 13 ∷ 10 ∷ []

read_mail-stuffed_example :
    read_mail conn_ops 5 (
      at
        (line (b'.' ∷ dotted) true ∷ line bare true ∷ line (b'.' ∷ 13 ∷ 10 ∷ []) false ∷ [])
        true
        [])
    ≡ done (b'.' ∷ b'a' ∷ 13 ∷ 10 ∷ b'b' ∷ 13 ∷ 10 ∷ []) (at [] false [])
read_mail-stuffed_example =
    read_mail-stuffed ((dotted, true) ∷ (bare, true) ∷ []) 5 false true [] [] (omega arith)

-- "a@b.c"
abbrev address : Text
address = b'a' ∷ b'@' ∷ b'b' ∷ b'.' ∷ b'c' ∷ []

-- "QUIT\r\n", and "MAIL FROM:<a@b.c>\r\n" before it
abbrev quit_line : Event
quit_line = line (b'Q' ∷ b'U' ∷ b'I' ∷ b'T' ∷ 13 ∷ 10 ∷ []) false

abbrev mail_line : Event
mail_line =
    line
      (b'M' ∷ b'A' ∷ b'I' ∷ b'L' ∷ 32 ∷ b'F' ∷ b'R' ∷ b'O' ∷ b'M' ∷ b':' ∷ b'<' ∷ b'a' ∷ b'@' ∷ b'b'
        ∷ b'.' ∷ b'c' ∷ b'>' ∷ 13 ∷ 10 ∷ [])
      false

abbrev client : Conn
client = at (mail_line ∷ quit_line ∷ []) false []

abbrev send_services : Send.Services
send_services = record {
  email_of = λ t. some t;
  base64 = λ t. some t;
  lowtrim = λ t. t;
  cut = λ t. t;
  decode_label = λ t. none;
  verify = λ host user password. some (some 7);
  accepts = λ m. true;
}

abbrev forward_services : Forward.Services
forward_services = record {
  email_of = λ t. some t;
  lowtrim = λ t. t;
  cut = λ t. t;
  decode_label = λ t. none;
  verify_spf = λ host ip. Status.fail;
  forward = λ t. some (some t);
  forward_set = λ li. some li;
  accepts = λ m. true;
  handshake = λ es. inr (es, []);
}

-- A login by "AUTH PLAIN" before the two.
abbrev user : Conn
user =
    at
      (line (codes "AUTH PLAIN " ++ (b'x' ∷ 0 ∷ (address ++ (0 ∷ b'p' ∷ 13 ∷ 10 ∷ [])))) false
        ∷ mail_line
        ∷ quit_line
        ∷ [])
      false []

run_loop-IsGuarded_example :
    Ends
      (IsGuarded send_services address)
      (run_loop (Send.session send_services address) 9 (Send.load user))
run_loop-IsGuarded_example = run_loop-IsGuarded send_services address 9 user

run_loop-IsChecked_example :
    Ends
      (IsChecked forward_services (IpAddr.v4 1))
      (run_loop (Forward.session forward_services) 9 (Forward.new client (IpAddr.v4 1)))
run_loop-IsChecked_example = run_loop-IsChecked forward_services (IpAddr.v4 1) 9 client

-- A sender without a host.
abbrev ready : Send.SendSession
ready = record {
  stream = at [] false [];
  mailer = [];
  authenticated = true;
  user_id = 7;
  email = address;
  send_to = record { to_li = address ∷ []; sender = none };
}

send_from_answers_example :
    Ends
      (IsAnswered (λ m. true) ready)
      (Send.send_from send_services address (some address) bare ready)
send_from_answers_example = send_from_answers send_services address (some address) bare ready

-- What was sent when a run ends.
abbrev replies : {S : Type 0} → (S → List Reply) → Outcome S (Unit {0}) → Option (List Reply)
replies output (Outcome.done u s) = some (output s)
replies output (Outcome.failed e s) = none
replies output Outcome.unfinished = none

without_login :
    replies
      (λ s. s.stream.output)
      (run_loop (Send.session send_services address) 9 (Send.load client))
    ≡ some (Reply.welcome ∷ Reply.auth_required ∷ Reply.bye ∷ [])
unfolding run_loop Send.session Send.load conn_ops field_ops lift_outcome push_command take_action
    parse_command trim trim_matches trim_start_matches is_white split_once to_upper is_empty text_eq
    command handle_send_mail handle_common
without_login = refl

abbrev receiving : Forward.ForwardSession
receiving = record {
  stream = StreamEnum.plain client;
  mailer = [];
  sni_host = none;
  send_to = record { to_li = address ∷ []; sender = none };
  ip = IpAddr.v4 1;
}

forward_from_answers_example :
    Ends
      (Answers.IsAnswered (λ m. true) receiving)
      (Forward.forward_from forward_services (some address) bare receiving)
forward_from_answers_example =
    forward_from_answers forward_services address bare receiving (λ e. ground arith)
      (λ e. ground arith)

with_login :
    replies
      (λ s. s.stream.output)
      (run_loop (Send.session send_services address) 9 (Send.load user))
    ≡ some (Reply.welcome ∷ Reply.auth_success ∷ Reply.ok ∷ Reply.bye ∷ [])
unfolding run_loop Send.session Send.load conn_ops field_ops lift_outcome push_command take_action
    parse_command trim trim_matches trim_start_matches is_white split_once to_upper is_empty text_eq
    command handle_send_mail handle_common parse_address address_part is_angle eq_ignore_ascii_case
    to_lower
with_login = refl
