-- ===== src/SmtpRecv/Send/Answers.antt =====
-- What the session on port 465 lets through, and how it answers a mail.
use npm.Common.{
  Bool, ℕ, ◌≡◌, ◌⊎◌, inl, inr, refl, arith, Option, none, some, List, [], ◌∷◌, ◌++◌, All-append,
  Bool-cases, if◌then◌else◌,
}
use npm.SmtpRecv.Text.{Text}
use npm.SmtpRecv.Reply.{Reply}
use npm.SmtpRecv.Outcome.{Ends, Keeps, Keeps-bind}
use npm.SmtpRecv.SendTo
use npm.SmtpRecv.SendTo.{SendTo}
use npm.SmtpRecv.Stream.{Conn, conn_ops, field_ops, lift_outcome}
use npm.SmtpRecv.ReadMail.{read_mail, read_lines}
use npm.SmtpRecv.Cmd.{Command}
use npm.SmtpRecv.Mail
use npm.SmtpRecv.Mail.{Mail}
use npm.SmtpRecv.Run.{run_loop}
use npm.SmtpRecv.Invariants.{IsKept, run_loop-Keeps, Keeps-if}
use npm.SmtpRecv.Send.{
  SendSession, UserMail, Services, stream_ops, handle_auth, handle_cmd, hand_over, send_new,
  send_from, read_and_send_mail, session, load,
}
use npm.SmtpRecv.Send.Guard.{
  IsGuarded, read-Guarded, send-Guarded, flush-Guarded, read_lines-Guarded, common-Guarded,
  auth-Guarded, mail-Guarded, rcpt-Guarded, sender_cases, take_sender-Guarded, mailed, IsUser,
  IsLoggedIn, sender-IsOwn,
}

module _ (services : Services) (host : Text) where
  cmd-Guarded :
      (c : Command) (args : Text) (rs : List Reply)
      → Keeps (IsGuarded services host) (handle_cmd services host c args rs)
  unfolding handle_cmd
  cmd-Guarded Command.ehlo args rs = λ s h. h
  cmd-Guarded Command.helo args rs = λ s h. h
  cmd-Guarded Command.auth args rs =
      Keeps-bind (IsGuarded services host) (stream_ops.flush rs) _ (flush-Guarded services host rs)
        (λ u.
          Keeps-bind (IsGuarded services host) (handle_auth services host args) _
            (auth-Guarded services host args) (λ v t k. k))
  cmd-Guarded Command.mail args rs = mail-Guarded services host args rs
  cmd-Guarded Command.rcpt args rs = rcpt-Guarded services host args rs
  cmd-Guarded Command.starttls args rs = common-Guarded services host Command.starttls rs
  cmd-Guarded Command.data_mail args rs = common-Guarded services host Command.data_mail rs
  cmd-Guarded Command.rset args rs = common-Guarded services host Command.rset rs
  cmd-Guarded Command.noop args rs = common-Guarded services host Command.noop rs
  cmd-Guarded Command.quit args rs = common-Guarded services host Command.quit rs
  cmd-Guarded Command.other args rs = common-Guarded services host Command.other rs

  hand_over-Guarded :
      (m : UserMail) (s : SendSession)
      → IsGuarded services host s
      → IsLoggedIn services host s
      → m.user_id ≡ s.user_id
      → Ends ((IsGuarded services host)) (hand_over services host m s)
  unfolding hand_over
  hand_over-Guarded m s h login is =
      Keeps-if (IsGuarded services host) (services.accepts m) _ _
        (send-Guarded services host Reply.message_accepted)
        (send-Guarded services host Reply.local_error) _
        (inr (
          login,
          sender-IsOwn services host s h,
          All-append (λ m. IsUser services host m.user_id) s.mailer (m ∷ [])
              (mailed services host s h) ((s.email, login.1.0, rw is login.1.1), tt),
        ))

  send_new-Guarded :
      (m : Option Mail) (s : SendSession)
      → IsGuarded services host s
      → IsLoggedIn services host s
      → Ends (IsGuarded services host) (send_new services host m s)
  unfolding send_new
  send_new-Guarded none s h login = send-Guarded services host Reply.message_accepted s h
  send_new-Guarded (some m) s h login = hand_over-Guarded _ s h login refl

  send_from-Guarded :
      (o : Option Text) (body : Text) (s : SendSession)
      → IsGuarded services host s
      → IsLoggedIn services host s ⊎ (o ≡ none)
      → Ends (IsGuarded services host) (send_from services host o body s)
  unfolding send_from SendTo.take_to_li
  send_from-Guarded none body s h k = send-Guarded services host Reply.message_accepted s h
  send_from-Guarded (some a) body s h (inl k) = send_new-Guarded _ _ h k
  send_from-Guarded (some a) body s h (inr k) = absurd (ground arith)

  data-Guarded :
      (fuel : ℕ) → Keeps (IsGuarded services host) (read_and_send_mail services host fuel)
  unfolding read_and_send_mail read_mail
  data-Guarded fuel =
      Keeps-bind (IsGuarded services host) (read_lines stream_ops fuel []) _
        (read_lines-Guarded services host fuel [])
        (λ body s h.
          send_from-Guarded s.send_to.sender body _ (take_sender-Guarded services host s h)
            (sender_cases services host s h))

  kept : IsKept (session services host) (IsGuarded services host)
  unfolding session
  kept = record {
    send_kept = send-Guarded services host;
    read_kept = read-Guarded services host;
    flush_kept = flush-Guarded services host;
    cmd_kept = cmd-Guarded;
    data_kept = data-Guarded;
  }

  -- Whatever the client sends, and on any fuel: in the state in which a session on port 465 ends,
  -- when it ends, either the flag of the login is not set, no sender is set and the mailer got
  -- nothing; or it is set and the login service confirmed the user whose address and id the session
  -- keeps, a sender that is set is, up to the case of letters, the address of a user whom the login
  -- service confirmed, and every mail that the mailer got bears the id of such a user.
  pub run_loop-IsGuarded :
      (fuel : ℕ) (stream : Conn)
      → Ends (IsGuarded services host) (run_loop (session services host) fuel (load stream))
  unfolding load
  run_loop-IsGuarded fuel stream =
      run_loop-Keeps (session services host) (IsGuarded services host) kept fuel _
        (inl (refl, refl, refl))

-- The session has sent one more reply, and handed at most one more mail to the mailer, which then
-- decided on the reply.
abbrev pub IsAnswered : (UserMail → Bool) → SendSession → SendSession → Type 0
IsAnswered accepts s t =
    ((t.stream.output ≡ s.stream.output ++ (Reply.message_accepted ∷ [])) × (t.mailer ≡ s.mailer))
    ⊎ ((m : UserMail) × (t.mailer ≡ s.mailer ++ (m ∷ []))
        × (t.stream.output
            ≡ s.stream.output
              ++ ((if accepts m then Reply.message_accepted else Reply.local_error) ∷ [])))

module _ (services : Services) (host : Text) where
  hand_over_lem :
      (m : UserMail) (s : SendSession)
      → Ends (IsAnswered services.accepts s) (hand_over services host m s)
  unfolding hand_over stream_ops field_ops lift_outcome conn_ops
  hand_over_lem m s = elim (Bool-cases (services.accepts m)) [
    | inl e ↦ rw e (inr (m, refl, rw e refl))
    | inr e ↦ rw e (inr (m, refl, rw e refl))
  ]

  send_new_lem :
      (o : Option Mail) (s : SendSession)
      → Ends (IsAnswered services.accepts s) (send_new services host o s)
  unfolding send_new stream_ops field_ops lift_outcome conn_ops
  send_new_lem none s = inl (refl, refl)
  send_new_lem (some m) s = hand_over_lem (record { mail = m; user_id = s.user_id }) s

  -- A mail that was read is answered with exactly one reply, whatever its sender and receivers; at
  -- most one mail goes to the mailer, and if one goes, the reply is the success exactly when the
  -- mailer takes it.
  pub send_from_answers :
      (sender : Option Text) (body : Text) (s : SendSession)
      → Ends (IsAnswered services.accepts s) (send_from services host sender body s)
  unfolding send_from stream_ops field_ops lift_outcome conn_ops
  send_from_answers none body s = inl (refl, refl)
  send_from_answers (some a) body s =
      send_new_lem
        (Mail.new services.lowtrim services.cut services.decode_label a s.send_to.to_li body)
        (record s { send_to = (SendTo.take_to_li s.send_to).1 })
