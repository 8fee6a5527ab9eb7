-- ===== src/SmtpRecv/Forward/Answers.antt =====
-- How the session on port 25 answers a mail.
use npm.Common.{
  ◌≡◌, ◌≢◌, ◌⊎◌, inl, inr, refl, Bool, Option, none, some, List, [], ◌∷◌, ◌++◌, if◌then◌else◌,
}
use npm.SmtpRecv.Text.{Text}
use npm.SmtpRecv.Reply.{Reply}
use npm.SmtpRecv.Outcome.{Ends-settled, Ends}
use npm.SmtpRecv.SendTo
use npm.SmtpRecv.Stream.{StreamEnum, conn_ops, enum_ops, field_ops, lift_outcome, dispatch, wrap}
use npm.SmtpRecv.Mail
use npm.SmtpRecv.Mail.{Mail}
use npm.SmtpRecv.Forward.{
  ForwardSession, Services, Target, found, answer, nobody, stream_ops, of_one, of_set, forward_li,
  send_mail, send_target, forward_from,
}

abbrev pub sent : StreamEnum → List Reply
sent StreamEnum.none = []
sent (StreamEnum.plain c) = c.output
sent (StreamEnum.tls c) = c.output

-- One reply was sent: a refusal with nothing handed to the mailer, or the mailer's answer.
abbrev pub IsAnswered : (Mail → Bool) → ForwardSession → ForwardSession → Type 0
IsAnswered accepts s t =
    ((r : Reply) × ((r ≡ Reply.no_such_user) ⊎ (r ≡ Reply.local_error))
      × (sent t.stream ≡ sent s.stream ++ (r ∷ []))
      × (t.mailer ≡ s.mailer))
    ⊎ ((m : Mail) × (t.mailer ≡ s.mailer ++ (m ∷ []))
        × (sent t.stream
            ≡ sent s.stream
              ++ ((if accepts m then Reply.message_accepted_forwarding else Reply.local_error)
                  ∷ [])))

-- A send on an open stream appends the reply and changes nothing else.
send-Ends :
    (P : ForwardSession → Type 0) (r : Reply) (e : StreamEnum) (s : ForwardSession)
    → e ≢ StreamEnum.none
    → ((f : StreamEnum) → sent f ≡ sent e ++ (r ∷ []) → P (record s { stream = f }))
    → Ends P (lift_outcome (λ t. t.stream) (λ c t. record t { stream = c }) s (enum_ops.send r e))
unfolding lift_outcome enum_ops dispatch wrap conn_ops
send-Ends P r StreamEnum.none s h k = absurd (h refl)
send-Ends P r (StreamEnum.plain c) s h k =
    k (StreamEnum.plain (record c { output = c.output ++ (r ∷ []) })) refl
send-Ends P r (StreamEnum.tls c) s h k =
    k (StreamEnum.tls (record c { output = c.output ++ (r ∷ []) })) refl

module _ (services : Services) where
  refuses :
      (r : Reply) (s : ForwardSession)
      → s.stream ≢ StreamEnum.none
      → (r ≡ Reply.no_such_user) ⊎ (r ≡ Reply.local_error)
      → Ends (IsAnswered services.accepts s) (stream_ops.send r s)
  unfolding stream_ops field_ops
  refuses r s h k =
      send-Ends (IsAnswered services.accepts s) r s.stream s h (λ f e. inl (r, k, e, refl))

  send_mail_lem :
      (o : Option Mail) (s : ForwardSession)
      → s.stream ≢ StreamEnum.none
      → Ends (IsAnswered services.accepts s) (send_mail services o s)
  unfolding send_mail stream_ops field_ops
  send_mail_lem none s h = refuses Reply.local_error s h (inr refl)
  send_mail_lem (some m) s h =
      send-Ends (IsAnswered services.accepts s)
        (if services.accepts m then Reply.message_accepted_forwarding else Reply.local_error)
        s.stream (record s { mailer = s.mailer ++ (m ∷ []) }) h (λ f e. inr (m, refl, e))

  -- The lookup finds receivers, or refuses; only without receivers it is silent.
  abbrev Speaks : Target → Type 0
  Speaks (found li) = Unit {0}
  Speaks (answer r) = (r ≡ Reply.no_such_user) ⊎ (r ≡ Reply.local_error)
  Speaks nobody = ⊥

  of_one-Speaks : (o : Option (Option Text)) → Speaks (of_one services o)
  unfolding of_one
  of_one-Speaks none = inr refl
  of_one-Speaks (some none) = inl refl
  of_one-Speaks (some (some t)) = tt

  of_set-Speaks : (o : Option (List Text)) → Speaks (of_set services o)
  unfolding of_set
  of_set-Speaks none = inr refl
  of_set-Speaks (some []) = inl refl
  of_set-Speaks (some (t ∷ ts)) = tt

  forward_li-Speaks : (li : List Text) → li ≢ [] → Speaks (forward_li services li)
  unfolding forward_li
  forward_li-Speaks [] h = absurd (h refl)
  forward_li-Speaks (a ∷ []) h = of_one-Speaks (services.forward a)
  forward_li-Speaks (a ∷ b ∷ li) h = of_set-Speaks (services.forward_set (a ∷ b ∷ li))

  target_lem :
      (sender body : Text) (t : Target) (s : ForwardSession)
      → s.stream ≢ StreamEnum.none
      → Speaks t
      → Ends (IsAnswered services.accepts s) (send_target services sender body t s)
  unfolding send_target
  target_lem sender body (found li) s h k =
      send_mail_lem (Mail.new services.lowtrim services.cut services.decode_label sender li body) s
        h
  target_lem sender body (answer r) s h k =
      Ends-settled (IsAnswered services.accepts s) (stream_ops.send r s) (refuses r s h k)
  target_lem sender body nobody s h k = absurd k

  -- On an open stream a mail with a sender and receivers is answered with exactly one reply. It is
  -- a refusal, and the mailer gets nothing; or one mail goes to the mailer, and the reply is the
  -- success exactly when the mailer takes it.
  pub forward_from_answers :
      (sender body : Text) (s : ForwardSession)
      → s.stream ≢ StreamEnum.none
      → s.send_to.to_li ≢ []
      → Ends (IsAnswered services.accepts s) (forward_from services (some sender) body s)
  unfolding forward_from SendTo.take_to_li
  forward_from_answers sender body s h k =
      target_lem sender body (forward_li services s.send_to.to_li)
        (record s { send_to = record s.send_to { to_li = [] } }) h
        (forward_li-Speaks s.send_to.to_li k)
