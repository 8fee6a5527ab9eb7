-- ===== src/SmtpSend/Counts.antt =====
-- What the result of a delivery counts.
use npm.Common.{
  ℕ, ◌+◌, ◌≤◌, Option, none, some, List, [], ◌∷◌, ◌⊎◌, inl, inr, map, ◌≡◌, refl, ap, arith, length,
  length-append,
}
use npm.Text.{Text}
use npm.Idns.Records.{Lookup, records, nothing, error, Mx}
use npm.SmtpSend.{
  MailMessage, MailMessageItem, Message, Smtp, Error, SendResult, Sent, sent, unexpected, broken,
  Tried, delivered, refused, exhausted, Opened, all_sent, opened, Outcome, failed_at, reject,
  send_err, mx_is_empty, dns_resolve_failed, after_one, try_one, send_one, item_result, send_items,
  add_result, all_failed, send_opened, send_many, send_to, send_domain, into_iter, into_message,
  try_servers, item_message, open_li,
}

module _ {W C E R : Type 0} (smtp : Smtp W C E R) where
  abbrev pub total : SendResult E R → ℕ
  total r = r.success + length r.error_li

  -- It was delivered, or there is an error.
  abbrev pub IsReported : SendResult E R → Type 0
  IsReported r = (r.success ≡ 1) ⊎ ((r.success ≡ 0) × (1 ≤ length r.error_li))

  -- One receiver is served or there is an error; of several, each is counted once at most.
  abbrev pub IsCounted : List Text → SendResult E R → Type 0
  IsCounted [] r = r.success ≡ 0
  IsCounted (email ∷ []) r = IsReported r
  IsCounted (email ∷ next ∷ to_li) r = total r ≤ length (email ∷ next ∷ to_li)

  item_result_total :
      (email : Text) (mx_li : List Mx) (t : Tried E R)
      → total (item_result smtp email mx_li t).0 ≤ 1
  unfolding item_result
  item_result_total email mx_li (delivered e) = omega arith
  item_result_total email mx_li (refused server r e) = omega arith
  item_result_total email mx_li (exhausted none) = omega arith
  item_result_total email mx_li (exhausted (some e)) = omega arith

  send_items_total :
      (mx_li : List Mx) (smtp_li : List C) (items : List MailMessageItem) (last : Option E) (w : W)
      → total (send_items smtp mx_li smtp_li items last w).0 ≤ length items
  unfolding send_items add_result
  send_items_total mx_li smtp_li [] last w = omega arith
  send_items_total mx_li smtp_li (m ∷ items) last w =
      let t : Tried E R × W = try_servers smtp (item_message m) mx_li 0 smtp_li last w in
      let r : SendResult E R × Option E = item_result smtp m.to mx_li t.0 in
      let rest : SendResult E R = (send_items smtp mx_li smtp_li items r.1 t.1).0 in
      omega (
        arith,
        item_result_total m.to mx_li t.0,
        send_items_total mx_li smtp_li items r.1 t.1,
        length-append r.0.error_li rest.error_li,
      )

  length-map : {A B : Type 0} (f : A → B) (xs : List A) → length (map f xs) ≡ length xs
  length-map f [] = refl
  length-map f (x ∷ xs) = omega (arith, length-map f xs)

  send_opened_total :
      (msg : MailMessage) (mx_li : List Mx) (o : Opened C E × W)
      → 1 ≤ length msg.to_li
      → total (send_opened smtp msg mx_li o).0 ≤ length msg.to_li
  unfolding send_opened all_failed into_iter
  send_opened_total msg mx_li (all_sent, w) h = omega arith
  send_opened_total msg mx_li (opened [] none, w) h = omega arith
  send_opened_total msg mx_li (opened [] (some e), w) h = omega arith
  send_opened_total msg mx_li (opened (c ∷ smtp_li) last, w) h = omega (
    arith,
    send_items_total mx_li (c ∷ smtp_li) (into_iter msg) last w,
    length-map {B = MailMessageItem}
        (λ to. record {
          sender_user = msg.sender_user;
          sender_host = msg.sender_host;
          to = to;
          body = msg.body;
        })
        msg.to_li,
  )

  module _ (email server : Text) (error_li : List (Error E R))
      (next : List (Error E R) → W → Outcome smtp)
      (h : (li : List (Error E R)) (w : W) → 1 ≤ length li → IsReported (next li w).0) where
    failed_at-IsReported :
        (e : E) (w : W) → IsReported (next (failed_at smtp email server e error_li) w).0
    unfolding failed_at
    failed_at-IsReported e w =
        h _ w (omega (arith, length-append error_li (send_err email server e ∷ [])))

    after_one-IsReported :
        (s : Sent E R × W) → IsReported (after_one smtp email server error_li next s).0
    unfolding after_one
    after_one-IsReported (sent, w) = inl refl
    after_one-IsReported (unexpected r, w) =
        inr (refl, omega (arith, length-append error_li (reject email server r ∷ [])))
    after_one-IsReported (broken e, w) = failed_at-IsReported e w

    try_one-IsReported :
        (msg : Message) (c : (C ⊎ E) × W)
        → IsReported (try_one smtp email msg server error_li next c).0
    unfolding try_one
    try_one-IsReported msg (inl c, w) = after_one-IsReported (smtp.send c msg w)
    try_one-IsReported msg (inr e, w) = failed_at-IsReported e w

  send_one-IsReported :
      (email : Text) (msg : Message) (mx_li : List Mx) (error_li : List (Error E R)) (w : W)
      → 1 ≤ length mx_li + length error_li
      → IsReported (send_one smtp email msg mx_li error_li w).0
  unfolding send_one
  send_one-IsReported email msg [] error_li w h = inr (refl, omega (arith, h))
  send_one-IsReported email msg (mx ∷ mx_li) error_li w h =
      try_one-IsReported email mx.server error_li (send_one smtp email msg mx_li)
        (λ li w₁ filled. send_one-IsReported email msg mx_li li w₁ (omega (arith, filled))) msg
        (smtp.connect mx.server w)

  send_to-IsCounted :
      (msg : MailMessage) (mx : Mx) (mx_li : List Mx) (to_li : List Text) (w : W)
      → msg.to_li ≡ to_li
      → IsCounted to_li (send_to smtp msg (mx ∷ mx_li) to_li w).0
  unfolding send_to send_many
  send_to-IsCounted msg mx mx_li [] w h = refl
  send_to-IsCounted msg mx mx_li (email ∷ []) w h =
      send_one-IsReported email (into_message msg) (mx ∷ mx_li) [] w (omega arith)
  send_to-IsCounted msg mx mx_li (email ∷ next ∷ to_li) w h =
      let n : length msg.to_li ≡ length (email ∷ next ∷ to_li) = ap length h in
      omega (
        arith,
        n,
        send_opened_total msg (mx ∷ mx_li) (open_li smtp (into_message msg) (mx ∷ mx_li) [] none w)
            (omega (arith, n)),
      )

  single_error-IsCounted :
      (to_li : List Text) (e : Error E R)
      → IsCounted to_li (record { error_li = e ∷ []; success = 0 })
  single_error-IsCounted [] e = refl
  single_error-IsCounted (email ∷ []) e = inr (refl, omega arith)
  single_error-IsCounted (email ∷ next ∷ to_li) e = omega arith

  -- A mail to one receiver is delivered or there is an error for it, and of a mail to several
  -- receivers no more are counted, as delivered or by an error, than it has.
  pub send_domain-IsCounted :
      (q : Lookup Mx) (msg : MailMessage) (w : W) → IsCounted msg.to_li (send_domain smtp q msg w).0
  unfolding send_domain
  send_domain-IsCounted (records []) msg w =
      single_error-IsCounted msg.to_li (mx_is_empty msg.domain)
  send_domain-IsCounted (records (mx ∷ mx_li)) msg w =
      send_to-IsCounted msg mx mx_li msg.to_li w refl
  send_domain-IsCounted nothing msg w = single_error-IsCounted msg.to_li (mx_is_empty msg.domain)
  send_domain-IsCounted error msg w =
      single_error-IsCounted msg.to_li (dns_resolve_failed msg.domain)
