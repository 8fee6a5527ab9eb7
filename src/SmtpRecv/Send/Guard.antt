-- ===== src/SmtpRecv/Send/Guard.antt =====
-- The commands of the session on port 465 keep its guard.
use npm.Common.{
  ℕ, zero, suc, true, false, ◌≡◌, ◌⊎◌, inl, inr, refl, arith, Option, none, some, List, [], ◌∷◌,
  ◌++◌, map, All, Bool, Bool-cases, if◌then◌else◌,
}
use npm.SmtpRecv.Text.{Text, to_upper, text_eq, eq_ignore_ascii_case, parse_address}
use npm.SmtpRecv.Reply.{Reply, Action}
use npm.SmtpRecv.Outcome.{Ends, Keeps, Keeps-bind}
use npm.SmtpRecv.SendTo
use npm.SmtpRecv.SendTo.{SendTo}
use npm.SmtpRecv.Stream.{read_event, conn_ops, field_ops, lift_outcome, Event, line, broken}
use npm.SmtpRecv.ReadMail.{read_lines, is_end, unstuff}
use npm.SmtpRecv.Cmd.{
  Command, handle_common, handle_data_cmd, handle_send_mail, handle_send_rcpt, handle_forward_rcpt,
  send_mail_from, add_rcpt,
}
use npm.SmtpRecv.Invariants.{Keeps-if}
use npm.SmtpRecv.Send.{
  SendSession, Services, stream_ops, with_send_to, log_in, verify_auth, check_plain,
  handle_auth_plain, read_base64_response, handle_auth_login, mechanism, handle_auth,
  handle_mail_cmd, handle_rcpt_cmd, decode_auth_plain,
}

-- A command that keeps the sender or clears it.
abbrev KeepsSender : (SendTo → Action × SendTo) → Type 0
KeepsSender f = (t : SendTo) → ((f t).1.sender ≡ t.sender) ⊎ ((f t).1.sender ≡ none)

handle_common-KeepsSender : (c : Command) → KeepsSender (handle_common c)
unfolding handle_common handle_data_cmd SendTo.reset
handle_common-KeepsSender Command.data_mail t = elim (Bool-cases (SendTo.is_ready t)) [
  | inl e ↦ rw e (inl refl)
  | inr e ↦ rw e (inl refl)
]
handle_common-KeepsSender Command.rset t = inr refl
handle_common-KeepsSender _ t = inl refl

module _ (services : Services) (host : Text) where
  abbrev pub IsUser : ℕ → Type 0
  IsUser id = (user : Text) × (p : Text) × (services.verify host user p ≡ some (some id))

  -- A sender, if there is one, is the name of a user whose login was checked.
  abbrev pub IsOwn : Option Text → Type 0
  IsOwn none = Unit {0}
  IsOwn (some a) =
      (user : Text) × (p : Text) × (id : ℕ) × (eq_ignore_ascii_case a user ≡ true)
      × (services.verify host user p ≡ some (some id))

  abbrev pub IsLoggedIn : SendSession → Type 0
  IsLoggedIn s =
      (s.authenticated ≡ true)
      × ((p : Text) × (services.verify host s.email p ≡ some (some s.user_id)))

  -- The login service has confirmed the user of the session, or the flag is not set, there is no
  -- sender and nothing was handed to the mailer.
  abbrev pub IsGuarded : SendSession → Type 0
  IsGuarded s =
      ((s.authenticated ≡ false) × (s.send_to.sender ≡ none) × (s.mailer ≡ []))
      ⊎ (IsLoggedIn s × IsOwn s.send_to.sender × All (λ m. IsUser m.user_id) s.mailer)

  no_login :
      (s : SendSession)
      → IsGuarded s
      → s.authenticated ≡ false
      → (s.send_to.sender ≡ none) × (s.mailer ≡ [])
  no_login s (inl h) f = (h.1, h.2)
  no_login s (inr h) f = absurd (ground (arith, h.0.0))

  logged_in :
      (s : SendSession)
      → IsGuarded s
      → s.authenticated ≡ true
      → IsLoggedIn s × IsOwn s.send_to.sender × All (λ m. IsUser m.user_id) s.mailer
  logged_in s (inl h) f = absurd (ground (arith, h.0))
  logged_in s (inr h) f = h

  pub mailed : (s : SendSession) → IsGuarded s → All (λ m. IsUser m.user_id) s.mailer
  mailed s (inl h) = rw h.2 tt
  mailed s (inr h) = h.2

  -- The mail's sender is taken out.
  pub take_sender-Guarded :
      (s : SendSession)
      → IsGuarded s
      → IsGuarded (record s { send_to = (SendTo.take_sender s.send_to).1 })
  unfolding SendTo.take_sender
  take_sender-Guarded s (inl h) = inl (h.0, refl, h.2)
  take_sender-Guarded s (inr h) = inr (h.0, tt, h.2)

  pub sender_cases : (s : SendSession) → IsGuarded s → IsLoggedIn s ⊎ (s.send_to.sender ≡ none)
  sender_cases s (inl h) = inr h.1
  sender_cases s (inr h) = inl h.0

  read_event-Guarded :
      (s : SendSession)
      → IsGuarded s
      → (es : List Event)
      → Ends IsGuarded (
          lift_outcome
            (λ t. t.stream)
            (λ c t. record t { stream = c })
            s
            (read_event es s.stream.output))
  unfolding lift_outcome read_event
  read_event-Guarded s h [] = h
  read_event-Guarded s h (line t b ∷ es) = h
  read_event-Guarded s h (broken ∷ es) = h

  pub read-Guarded : Keeps IsGuarded stream_ops.read_line
  unfolding stream_ops field_ops conn_ops
  read-Guarded s h = read_event-Guarded s h s.stream.input

  pub send-Guarded : (r : Reply) → Keeps IsGuarded (stream_ops.send r)
  unfolding stream_ops field_ops lift_outcome conn_ops
  send-Guarded r s h = h

  pub flush-Guarded : (rs : List Reply) → Keeps IsGuarded (stream_ops.flush rs)
  unfolding stream_ops field_ops lift_outcome conn_ops
  flush-Guarded rs s h = h

  pub read_lines-Guarded :
      (fuel : ℕ) (body : Text) → Keeps IsGuarded (read_lines stream_ops fuel body)
  unfolding read_lines
  read_lines-Guarded zero body = λ s h. tt
  read_lines-Guarded (suc fuel) body =
      Keeps-bind IsGuarded stream_ops.read_line _ read-Guarded (λ l.
        Keeps-if IsGuarded (is_end l) _ _ (λ t k. k) (read_lines-Guarded fuel (body ++ unstuff l)))

  changed_sender :
      (s : SendSession) (t : SendTo)
      → IsGuarded s
      → (t.sender ≡ s.send_to.sender) ⊎ (t.sender ≡ none)
      → IsGuarded (record s { send_to = t })
  changed_sender s t (inl h) (inl e) = inl (h.0, rw e h.1, h.2)
  changed_sender s t (inl h) (inr e) = inl (h.0, e, h.2)
  changed_sender s t (inr h) (inl e) = inr (h.0, rw e h.1, h.2)
  changed_sender s t (inr h) (inr e) = inr (h.0, rw e tt, h.2)

  with_send_to-Guarded :
      (f : SendTo → Action × SendTo) (rs : List Reply)
      → KeepsSender f
      → Keeps IsGuarded (with_send_to f rs)
  unfolding with_send_to
  with_send_to-Guarded f rs hf s h = changed_sender s (f s.send_to).1 h (hf s.send_to)

  pub common-Guarded :
      (c : Command) (rs : List Reply) → Keeps IsGuarded (with_send_to (handle_common c) rs)
  common-Guarded c rs = with_send_to-Guarded (handle_common c) rs (handle_common-KeepsSender c)

  pub sender-IsOwn : (s : SendSession) → IsGuarded s → IsOwn s.send_to.sender
  sender-IsOwn s (inl h) = rw h.1 tt
  sender-IsOwn s (inr h) = h.1

  log_in-Guarded :
      (u p : Text) (v : Option (Option ℕ))
      → services.verify host u p ≡ v
      → Keeps IsGuarded (log_in services host u v)
  unfolding log_in
  log_in-Guarded u p none is s h = h
  log_in-Guarded u p (some none) is s h = send-Guarded Reply.auth_failed s h
  log_in-Guarded u p (some (some id)) is s h =
      send-Guarded Reply.auth_success (record s { authenticated = true; user_id = id; email = u })
        (inr ((refl, (p, is)), sender-IsOwn s h, mailed s h))

  check_plain-Guarded : (c : Option (Text × Text)) → Keeps IsGuarded (check_plain services host c)
  unfolding check_plain verify_auth
  check_plain-Guarded none = send-Guarded Reply.invalid_auth_plain
  check_plain-Guarded (some (u, p)) = log_in-Guarded u p (services.verify host u p) refl

  plain-Guarded : (t : Text) → Keeps IsGuarded (handle_auth_plain services host t)
  unfolding handle_auth_plain
  plain-Guarded [] =
      Keeps-bind IsGuarded (stream_ops.send Reply.auth_plain_prompt) _
        (send-Guarded Reply.auth_plain_prompt)
        (λ u.
          Keeps-bind IsGuarded stream_ops.read_line _ read-Guarded
            (λ l. check_plain-Guarded (decode_auth_plain services host l)))
  plain-Guarded (c ∷ t) = check_plain-Guarded (decode_auth_plain services host (c ∷ t))

  base64-Guarded : Keeps IsGuarded (read_base64_response services host)
  unfolding read_base64_response
  base64-Guarded = Keeps-bind IsGuarded stream_ops.read_line _ read-Guarded (λ l t k. k)

  login-Guarded : Keeps IsGuarded (handle_auth_login services host)
  unfolding handle_auth_login verify_auth
  login-Guarded =
      Keeps-bind IsGuarded (stream_ops.send Reply.auth_username_prompt) _
        (send-Guarded Reply.auth_username_prompt)
        (λ a. Keeps-bind IsGuarded (read_base64_response services host) _ base64-Guarded (λ u.
          Keeps-bind IsGuarded (stream_ops.send Reply.auth_password_prompt) _
            (send-Guarded Reply.auth_password_prompt)
            (λ b.
              Keeps-bind IsGuarded (read_base64_response services host) _ base64-Guarded
                (λ p. log_in-Guarded u p (services.verify host u p) refl))))

  pub auth-Guarded : (args : Text) → Keeps IsGuarded (handle_auth services host args)
  unfolding handle_auth
  auth-Guarded args =
      let name = map to_upper (mechanism services host args).0 in
      Keeps-if IsGuarded (text_eq name (b'P' ∷ b'L' ∷ b'A' ∷ b'I' ∷ b'N' ∷ []))
        (handle_auth_plain services host (mechanism services host args).1)
        (if text_eq name (b'L' ∷ b'O' ∷ b'G' ∷ b'I' ∷ b'N' ∷ [])
          then handle_auth_login services host
          else stream_ops.send Reply.auth_mechanism_not_supported)
        (plain-Guarded (mechanism services host args).1)
        (Keeps-if IsGuarded (text_eq name (b'L' ∷ b'O' ∷ b'G' ∷ b'I' ∷ b'N' ∷ []))
          (handle_auth_login services host) (stream_ops.send Reply.auth_mechanism_not_supported)
          login-Guarded (send-Guarded Reply.auth_mechanism_not_supported))

  mail_from_lem :
      (o : Option Text) (s : SendSession)
      → IsGuarded s
      → s.authenticated ≡ true
      → IsGuarded (record s { send_to = (send_mail_from services.email_of o s.email s.send_to).1 })
  unfolding send_mail_from SendTo.set_sender
  mail_from_lem none s h e = h
  mail_from_lem (some a) s h e =
      let (login, own, mails) = logged_in s h e in
      elim (Bool-cases (eq_ignore_ascii_case a s.email)) [
        | inl same ↦ rw same (inr (login, (s.email, login.1.0, s.user_id, same, login.1.1), mails))
        | inr other ↦ rw other h
      ]

  send_mail-Guarded :
      (args : Text) (b : Bool) (s : SendSession)
      → IsGuarded s
      → s.authenticated ≡ b
      → IsGuarded
          (record s { send_to = (handle_send_mail services.email_of args b s.email s.send_to).1 })
  unfolding handle_send_mail
  send_mail-Guarded args true s h e = mail_from_lem (parse_address services.email_of args) s h e
  send_mail-Guarded args false s h e = h

  pub mail-Guarded :
      (args : Text) (rs : List Reply) → Keeps IsGuarded (handle_mail_cmd services host args rs)
  unfolding handle_mail_cmd with_send_to
  mail-Guarded args rs s h = send_mail-Guarded args s.authenticated s h refl

  add_rcpt-KeepsSender : (o : Option Text) → KeepsSender (add_rcpt o)
  unfolding add_rcpt SendTo.add_to
  add_rcpt-KeepsSender none t = inl refl
  add_rcpt-KeepsSender (some a) t = inl refl

  handle_rcpt-KeepsSender :
      (args : Text) (b : Bool) → KeepsSender (handle_send_rcpt services.email_of args b)
  unfolding handle_send_rcpt handle_forward_rcpt
  handle_rcpt-KeepsSender args false t = inl refl
  handle_rcpt-KeepsSender args true t = elim (Bool-cases (SendTo.has_sender t)) [
    | inl e ↦ rw e (add_rcpt-KeepsSender (parse_address services.email_of args) t)
    | inr e ↦ rw e (inl refl)
  ]

  pub rcpt-Guarded :
      (args : Text) (rs : List Reply) → Keeps IsGuarded (handle_rcpt_cmd services host args rs)
  unfolding handle_rcpt_cmd
  rcpt-Guarded args rs s h =
      with_send_to-Guarded (handle_send_rcpt services.email_of args s.authenticated) rs
        (handle_rcpt-KeepsSender args s.authenticated) s h
