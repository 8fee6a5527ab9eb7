-- ===== src/SmtpRecv/Forward/Checked.antt =====
-- The senders that the session on port 25 lets through.
use npm.Common.{
  ℕ, ◌≡◌, refl, Bool, true, false, Bool-cases, ◌⊎◌, inl, inr, Option, none, some, List, [], ◌∷◌,
  All, All-append,
}
use npm.SmtpRecv.Text.{Text, parse_address}
use npm.SmtpRecv.Reply.{Reply, SmtpError, Action}
use npm.SmtpRecv.Outcome.{Ends-settled, Ends, Keeps, Keeps-bind}
use npm.SmtpRecv.SendTo
use npm.SmtpRecv.SendTo.{SendTo}
use npm.SmtpRecv.Stream.{Conn, Event, StreamEnum, enum_ops, field_ops, is_tls}
use npm.SmtpRecv.ReadMail.{read_mail}
use npm.SmtpRecv.Cmd.{Command, handle_common, handle_data_cmd, handle_forward_rcpt, add_rcpt}
use npm.SmtpRecv.Mail
use npm.SmtpRecv.Mail.{Mail}
use npm.SmtpRecv.Run.{run_loop}
use npm.SmtpRecv.Invariants.{IsKept, run_loop-Keeps, lift_outcome-Ends, read_lines-Keeps}
use npm.Idns.Address.{IpAddr}
use npm.SmtpRecv.Forward.{
  ForwardSession, Services, Target, found, answer, nobody, stream_ops, host_of, handle_ehlo,
  spf_refusal, accept_sender, mail_from, with_send_to, handle_mail, shake, upgrade, handle_starttls,
  starttls_cmd, greet, handle_cmd, forward_li, send_mail, send_target, forward_from,
  read_and_forward_mail, session, new,
}

abbrev stream_of : ForwardSession → StreamEnum
stream_of s = s.stream

abbrev put_stream : StreamEnum → ForwardSession → ForwardSession
put_stream c s = record s { stream = c }

module _ (services : Services) (ip : IpAddr) where
  -- The check of the sender against the address of the client did not refuse it.
  abbrev pub Passed : Text → Type 0
  Passed a = spf_refusal services a ip ≡ none

  abbrev pub IsClean : Option Text → Type 0
  IsClean none = Unit {0}
  IsClean (some a) = Passed a

  -- A mail made of such a sender.
  abbrev pub FromPassed : Mail → Type 0
  FromPassed m =
      (a : Text) × (li : List Text) × (body : Text) × Passed a
      × (Mail.new services.lowtrim services.cut services.decode_label a li body ≡ some m)

  abbrev pub IsChecked : ForwardSession → Type 0
  IsChecked s = (s.ip ≡ ip) × IsClean s.send_to.sender × All FromPassed s.mailer

  send-Checked : (r : Reply) → Keeps IsChecked (stream_ops.send r)
  unfolding stream_ops field_ops
  send-Checked r s h =
      lift_outcome-Ends stream_of put_stream IsChecked s (enum_ops.send r s.stream) (λ t. h)

  read-Checked : Keeps IsChecked stream_ops.read_line
  unfolding stream_ops field_ops
  read-Checked s h =
      lift_outcome-Ends stream_of put_stream IsChecked s (enum_ops.read_line s.stream) (λ t. h)

  flush-Checked : (rs : List Reply) → Keeps IsChecked (stream_ops.flush rs)
  unfolding stream_ops field_ops
  flush-Checked rs s h =
      lift_outcome-Ends stream_of put_stream IsChecked s (enum_ops.flush rs s.stream) (λ t. h)

  abbrev KeepsClean : (SendTo → Action × SendTo) → Type 0
  KeepsClean f = (t : SendTo) → IsClean t.sender → IsClean (f t).1.sender

  with_send_to-Checked :
      (f : SendTo → Action × SendTo) (rs : List Reply)
      → KeepsClean f
      → Keeps IsChecked (with_send_to services f rs)
  unfolding with_send_to
  with_send_to-Checked f rs hf s h = (h.0, hf s.send_to h.1, h.2)

  common-KeepsClean : (c : Command) → KeepsClean (handle_common c)
  unfolding handle_common handle_data_cmd SendTo.reset
  common-KeepsClean Command.data_mail t h = elim (Bool-cases (SendTo.is_ready t)) [
    | inl e ↦ rw e h
    | inr e ↦ rw e h
  ]
  common-KeepsClean Command.rset t h = tt
  common-KeepsClean _ t h = h

  add_rcpt-KeepsClean : (o : Option Text) → KeepsClean (add_rcpt o)
  unfolding add_rcpt SendTo.add_to
  add_rcpt-KeepsClean none t h = h
  add_rcpt-KeepsClean (some a) t h = h

  rcpt-KeepsClean : (args : Text) → KeepsClean (handle_forward_rcpt services.email_of args)
  unfolding handle_forward_rcpt
  rcpt-KeepsClean args t h = elim (Bool-cases (SendTo.has_sender t)) [
    | inl e ↦ rw e (add_rcpt-KeepsClean (parse_address services.email_of args) t h)
    | inr e ↦ rw e h
  ]

  accept-KeepsClean :
      (a : Text) (o : Option Reply)
      → spf_refusal services a ip ≡ o
      → KeepsClean (accept_sender services a o)
  unfolding accept_sender SendTo.set_sender
  accept-KeepsClean a none e t h = e
  accept-KeepsClean a (some r) e t h = h

  mail-KeepsClean : (o : Option Text) → KeepsClean (mail_from services ip o)
  unfolding mail_from
  mail-KeepsClean none t h = h
  mail-KeepsClean (some a) t h = accept-KeepsClean a (spf_refusal services a ip) refl t h

  mail-Checked : (args : Text) (rs : List Reply) → Keeps IsChecked (handle_mail services args rs)
  unfolding handle_mail with_send_to
  mail-Checked args rs s h =
      (h.0, rw h.0 (mail-KeepsClean (parse_address services.email_of args) s.send_to h.1), h.2)

  shake-Checked :
      (c : Conn) (r : SmtpError ⊎ (List Event × Text)) → Keeps IsChecked (shake services c r)
  unfolding shake
  shake-Checked c (inl e) s h = h
  shake-Checked c (inr p) s h = h

  upgrade-Checked : (t : StreamEnum) → Keeps IsChecked (upgrade services t)
  unfolding upgrade
  upgrade-Checked (StreamEnum.plain c) = shake-Checked c (services.handshake c.input)
  upgrade-Checked _ = λ s h. h

  starttls-Checked : (b : Bool) (rs : List Reply) → Keeps IsChecked (starttls_cmd services b rs)
  unfolding starttls_cmd handle_starttls
  starttls-Checked true rs = λ s h. h
  starttls-Checked false rs = Keeps-bind IsChecked (stream_ops.flush rs) _ (flush-Checked rs) (λ u.
      Keeps-bind IsChecked (handle_starttls services) _
        (Keeps-bind IsChecked (stream_ops.send Reply.starttls_ready) _
          (send-Checked Reply.starttls_ready) (λ v s. upgrade-Checked s.stream s))
        (λ v t k. k))

  host_of-Checked : (o : Option Text) (b : Bool) → Keeps IsChecked (host_of o b)
  unfolding host_of
  host_of-Checked none true s h = h
  host_of-Checked none false s h = h
  host_of-Checked (some a) b s h = h

  ehlo-Checked : Keeps IsChecked handle_ehlo
  unfolding handle_ehlo
  ehlo-Checked s =
      Keeps-bind IsChecked (host_of s.sni_host (is_tls s.stream)) _
        (host_of-Checked s.sni_host (is_tls s.stream)) (λ host t k. k) s

  greet-Checked : (rs : List Reply) → Keeps IsChecked (greet services rs)
  unfolding greet
  greet-Checked rs = Keeps-bind IsChecked handle_ehlo _ ehlo-Checked (λ r t k. k)

  other-Checked :
      (c : Command) (rs : List Reply) → Keeps IsChecked (with_send_to services (handle_common c) rs)
  other-Checked c rs = with_send_to-Checked (handle_common c) rs (common-KeepsClean c)

  cmd-Checked :
      (c : Command) (args : Text) (rs : List Reply)
      → Keeps IsChecked (handle_cmd services c args rs)
  unfolding handle_cmd
  cmd-Checked Command.ehlo args rs = greet-Checked rs
  cmd-Checked Command.helo args rs = greet-Checked rs
  cmd-Checked Command.starttls args rs = λ s. starttls-Checked (is_tls s.stream) rs s
  cmd-Checked Command.mail args rs = mail-Checked args rs
  cmd-Checked Command.rcpt args rs =
      with_send_to-Checked (handle_forward_rcpt services.email_of args) rs (rcpt-KeepsClean args)
  cmd-Checked Command.auth args rs = other-Checked Command.auth rs
  cmd-Checked Command.data_mail args rs = other-Checked Command.data_mail rs
  cmd-Checked Command.rset args rs = other-Checked Command.rset rs
  cmd-Checked Command.noop args rs = other-Checked Command.noop rs
  cmd-Checked Command.quit args rs = other-Checked Command.quit rs
  cmd-Checked Command.other args rs = other-Checked Command.other rs

  send_mail-Checked :
      (a : Text) (li : List Text) (body : Text) (o : Option Mail)
      → Passed a
      → Mail.new services.lowtrim services.cut services.decode_label a li body ≡ o
      → Keeps IsChecked (send_mail services o)
  unfolding send_mail
  send_mail-Checked a li body none p e = send-Checked Reply.local_error
  send_mail-Checked a li body (some m) p e = λ s h.
      send-Checked _ _
        (h.0, h.1, All-append FromPassed s.mailer (m ∷ []) h.2 ((a, li, body, p, e), tt))

  target-Checked :
      (a body : Text) (t : Target) → Passed a → Keeps IsChecked (send_target services a body t)
  unfolding send_target
  target-Checked a body (found li) p =
      send_mail-Checked a li body
        (Mail.new services.lowtrim services.cut services.decode_label a li body) p refl
  target-Checked a body (answer r) p =
      λ s h. Ends-settled IsChecked (stream_ops.send r s) (send-Checked r s h)
  target-Checked a body nobody p = λ s h. h

  forward-Checked :
      (o : Option Text) (body : Text) → IsClean o → Keeps IsChecked (forward_from services o body)
  unfolding forward_from SendTo.take_to_li
  forward-Checked none body p = λ s h. h
  forward-Checked (some a) body p =
      λ s h. target-Checked a body (forward_li services s.send_to.to_li) p _ h

  data-Checked : (fuel : ℕ) → Keeps IsChecked (read_and_forward_mail services fuel)
  unfolding read_and_forward_mail read_mail SendTo.take_sender
  data-Checked fuel =
      Keeps-bind IsChecked (read_mail stream_ops fuel) _
        (read_lines-Keeps stream_ops IsChecked read-Checked fuel [])
        (λ body s h. forward-Checked s.send_to.sender body h.1 _ (h.0, tt, h.2))

  kept : IsKept (session services) IsChecked
  unfolding session
  kept = record {
    send_kept = send-Checked;
    read_kept = read-Checked;
    flush_kept = flush-Checked;
    cmd_kept = cmd-Checked;
    data_kept = data-Checked;
  }

  -- Whatever the client at an address sends, and on any fuel: in the state in which a session on
  -- port 25 ends, when it ends, every mail that went to the mailer was made of a sender that the
  -- check against that address did not refuse, and so is the sender that is set, if one is.
  pub run_loop-IsChecked :
      (fuel : ℕ) (stream : Conn) → Ends IsChecked (run_loop (session services) fuel (new stream ip))
  unfolding new
  run_loop-IsChecked fuel stream =
      run_loop-Keeps (session services) IsChecked kept fuel _ (refl, tt, tt)
