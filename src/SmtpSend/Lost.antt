-- ===== src/SmtpSend/Lost.antt =====
-- Receivers that are neither served nor reported.
use npm.Common.{
  ℕ, ◌+◌, Bool, true, false, Option, none, List, [], ◌∷◌, ◌++◌, ◌⊎◌, inl, inr, ◌≡◌, refl,
}
use npm.Text.{Text}
use npm.Idns.Records.{records, Mx}
use npm.SmtpSend.{
  MailMessage, MailMessageItem, Message, Smtp, SendResult, Sent, sent, unexpected, broken, Tried,
  exhausted, Opened, opened, after_batch, open_next, open_li, try_item, try_servers, item_result,
  add_result, send_items, send_opened, send_many, send_to, send_domain, into_iter, into_message,
  item_message,
}

-- Servers that take a connection and lose it with the first mail.
pub record Losing {W C E R : Type 0} (smtp : Smtp W C E R) : Type 0 where
  pub connects : (server : Text) (w : W) → (c : C) × ((smtp.connect server w).0 ≡ inl c)
  pub breaks : (c : C) (m : Message) (w : W) → (e : E) × ((smtp.send c m w).0 ≡ broken e)
  pub stays_broken : (c : C) (w : W) → (smtp.rset c w).0 ≡ false

module _ {W C E R : Type 0} (smtp : Smtp W C E R) (losing : Losing smtp) where
  abbrev pub nothing_done : SendResult E R
  nothing_done = record { error_li = []; success = 0 }

  abbrev HasOpened : Opened C E → Type 0
  HasOpened o = (c : C) × (li : List C) × (o ≡ opened (c ∷ li) none)

  module _ (next : List C → Option E → W → Opened C E × W)
      (h : (c : C) (li : List C) (w : W) → HasOpened (next (c ∷ li) none w).0) where
    after_batch_opened :
        (c : C) (s : Sent E R × W)
        → (e : E) × (s.0 ≡ broken e)
        → HasOpened (after_batch smtp c none next s).0
    unfolding after_batch
    after_batch_opened c (sent, w) (e, is) = absurd cc
    after_batch_opened c (unexpected r, w) (e, is) = absurd cc
    after_batch_opened c (broken e, w) is = h c [] w

    open_next_opened :
        (msg : Message) (smtp_li : List C) (c : (C ⊎ E) × W)
        → (d : C) × (c.0 ≡ inl d)
        → HasOpened (open_next smtp msg smtp_li none next c).0
    unfolding open_next
    open_next_opened msg smtp_li (inr e, w) (d, is) = absurd cc
    open_next_opened msg [] (inl c, w) is =
        after_batch_opened c (smtp.send c msg w) (losing.breaks c msg w)
    open_next_opened msg (d ∷ smtp_li) (inl c, w) is = h d (smtp_li ++ (c ∷ [])) w

  open_li_keeps :
      (msg : Message) (mx_li : List Mx) (c : C) (li : List C) (w : W)
      → HasOpened (open_li smtp msg mx_li (c ∷ li) none w).0
  unfolding open_li
  open_li_keeps msg [] c li w = (c, li, refl)
  open_li_keeps msg (mx ∷ mx_li) c li w =
      open_next_opened (open_li smtp msg mx_li) (open_li_keeps msg mx_li) msg (c ∷ li)
        (smtp.connect mx.server w) (losing.connects mx.server w)

  open_li_opened :
      (msg : Message) (mx : Mx) (mx_li : List Mx) (w : W)
      → HasOpened (open_li smtp msg (mx ∷ mx_li) [] none w).0
  unfolding open_li
  open_li_opened msg mx mx_li w =
      open_next_opened (open_li smtp msg mx_li) (open_li_keeps msg mx_li) msg []
        (smtp.connect mx.server w) (losing.connects mx.server w)

  try_item-exhausted :
      (c : C) (msg : Message) (server : Text) (next : Option E → W → Tried E R × W) (r : Bool × W)
      → r.0 ≡ false
      → ((w : W) → (next none w).0 ≡ exhausted none)
      → (try_item smtp c msg server none next r).0 ≡ exhausted none
  unfolding try_item
  try_item-exhausted c msg server next (true, w) is h = absurd cc
  try_item-exhausted c msg server next (false, w) is h = h w

  try_servers-exhausted :
      (msg : Message) (mx_li : List Mx) (idx : ℕ) (smtp_li : List C) (w : W)
      → (try_servers smtp msg mx_li idx smtp_li none w).0 ≡ exhausted none
  unfolding try_servers
  try_servers-exhausted msg mx_li idx [] w = refl
  try_servers-exhausted msg mx_li idx (c ∷ smtp_li) w =
      try_item-exhausted c msg _ (try_servers smtp msg mx_li (idx + 1) smtp_li) (smtp.rset c w)
        (losing.stays_broken c w) (try_servers-exhausted msg mx_li (idx + 1) smtp_li)

  send_items_lost :
      (mx_li : List Mx) (smtp_li : List C) (items : List MailMessageItem) (w : W)
      → (send_items smtp mx_li smtp_li items none w).0 ≡ nothing_done
  unfolding send_items
  send_items_lost mx_li smtp_li [] w = refl
  send_items_lost mx_li smtp_li (m ∷ items) w =
      rw
        (
          try_servers-exhausted (item_message m) mx_li 0 smtp_li w,
          item_result,
          add_result,
          send_items_lost mx_li smtp_li items
              (try_servers smtp (item_message m) mx_li 0 smtp_li none w).1,
        )
        refl

  send_opened_lost :
      (msg : MailMessage) (mx_li : List Mx) (o : Opened C E × W)
      → HasOpened o.0
      → (send_opened smtp msg mx_li o).0 ≡ nothing_done
  unfolding send_opened
  send_opened_lost msg mx_li (o, w) (c, li, is) =
      rw (is, send_opened) (send_items_lost mx_li (c ∷ li) (into_iter msg) w)

  -- When the servers lose the connection with the first mail, a mail to several receivers is not
  -- delivered and there is no error for any of them.
  pub send_domain_lost :
      (mx : Mx) (mx_li : List Mx) (msg : MailMessage) (first second : Text) (others : List Text)
      (w : W)
      → msg.to_li ≡ first ∷ second ∷ others
      → (send_domain smtp (records (mx ∷ mx_li)) msg w).0 ≡ nothing_done
  unfolding send_domain send_to send_many
  send_domain_lost mx mx_li msg first second others w h =
      rw (h, send_to, send_many)
        (send_opened_lost msg (mx ∷ mx_li) (open_li smtp (into_message msg) (mx ∷ mx_li) [] none w)
          (open_li_opened (into_message msg) mx mx_li w))
