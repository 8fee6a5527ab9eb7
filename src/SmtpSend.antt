-- ===== src/SmtpSend.antt =====
-- smtp_send/src/send.rs, smtp_send/src/lib.rs and the errors of smtp_send/src/error.rs, with the
-- messages of mail_struct/src/send.rs. The network is a state that the operations of a connection
-- change.
pub mod Counts
pub mod Lost
mod Tests
use npm.Common.{
  ℕ, zero, suc, ◌+◌, Bool, true, false, Option, none, some, List, [], ◌∷◌, ◌++◌, ◌⊎◌, inl, inr, map,
  if◌then◌else◌, length, get_elem?,
}
use npm.Text.{Text}
use npm.Idns.Records.{Lookup, records, nothing, error, Mx}

-- What a server is given: the sender, the receivers and the text.
pub record Message : Type 0 where
  pub sender : Text
  pub to_li : List Text
  pub body : Text

pub record MailMessage : Type 0 where
  pub sender_user : Text
  pub sender_host : Text
  pub domain : Text
  pub to_li : List Text
  pub body : Text

pub record MailMessageItem : Type 0 where
  pub sender_user : Text
  pub sender_host : Text
  pub to : Text
  pub body : Text

unfoldable pub into_message : MailMessage → Message
into_message m = record {
  sender = m.sender_user ++ (b'@' ∷ m.sender_host);
  to_li = m.to_li;
  body = m.body;
}

unfoldable pub item_message : MailMessageItem → Message
item_message m = record {
  sender = m.sender_user ++ (b'@' ∷ m.sender_host);
  to_li = m.to ∷ [];
  body = m.body;
}

unfoldable pub into_iter : MailMessage → List MailMessageItem
into_iter m =
    map
      (λ to. record {
        sender_user = m.sender_user;
        sender_host = m.sender_host;
        to = to;
        body = m.body;
      })
      m.to_li

-- One message for the receivers of a host.
unfoldable pub host_message : Text → Text → Text → Text × List Text → MailMessage
host_message sender_user sender_host body (host, users) = record {
  sender_user = sender_user;
  sender_host = sender_host;
  domain = host;
  to_li = map (λ user. user ++ (b'@' ∷ host)) users;
  body = body;
}

-- The answer of a server to a mail: taken, an unexpected reply, or another error.
pub data Sent (E R : Type 0) : Type 0 where
  sent : Sent E R
  unexpected : R → Sent E R
  broken : E → Sent E R

pub data Error (E R : Type 0) : Type 0 where
  dkim_init : Text → Error E R
  dns_resolve_failed : Text → Error E R
  mx_is_empty : Text → Error E R
  reject : Text → Text → R → Error E R
  send_err : Text → Text → E → Error E R
  smtp_all_failed : Text → E → Error E R
  too_many_received : Text → Error E R

pub record SendResult (E R : Type 0) : Type 0 where
  pub error_li : List (Error E R)
  pub success : ℕ

-- `Smtp::connect` with its signer, `Smtp::send` and `Smtp::rset`, which says whether it worked.
pub record Smtp (W C E R : Type 0) : Type 0 where
  pub connect : Text → W → (C ⊎ E) × W
  pub send : C → Message → W → Sent E R × W
  pub rset : C → W → Bool × W

-- How the loop over the connections ends for a receiver, with `last_err`.
pub data Tried (E R : Type 0) : Type 0 where
  delivered : Option E → Tried E R
  refused : Text → R → Option E → Tried E R
  exhausted : Option E → Tried E R

-- How the loop over the servers ends: every receiver is served, or the connections and `last_err`.
pub data Opened (C E : Type 0) : Type 0 where
  all_sent : Opened C E
  opened : List C → Option E → Opened C E

-- There are as many servers as connections at least.
unfoldable pub server_at : List Mx → ℕ → Text
server_at mx_li idx = elim (get_elem? mx_li idx) [ none ↦ [] | some m ↦ m.server ]

unfoldable pub last_server : List Mx → Text
last_server [] = []
last_server (m ∷ []) = m.server
last_server (m ∷ n ∷ mx_li) = last_server (n ∷ mx_li)

-- The results of all hosts; a task that did not end has none.
unfoldable pub gather : {E R : Type 0} → List (Option (SendResult E R)) → SendResult E R
gather [] = record { error_li = []; success = 0 }
gather (none ∷ results) = gather results
gather (some r ∷ results) =
    let rest = gather results in
    record { error_li = r.error_li ++ rest.error_li; success = r.success + rest.success }

module _ {W C E R : Type 0} (smtp : Smtp W C E R) where
  abbrev pub Outcome : Type 0
  Outcome = SendResult E R × W

  unfoldable pub failed_at : Text → Text → E → List (Error E R) → List (Error E R)
  failed_at email server e error_li = error_li ++ (send_err email server e ∷ [])

  unfoldable pub after_one :
      Text → Text → List (Error E R) → (List (Error E R) → W → Outcome) → Sent E R × W → Outcome
  unfolding failed_at
  after_one email server error_li next (sent, w) = (record { error_li = error_li; success = 1 }, w)
  after_one email server error_li next (unexpected r, w) =
      (record { error_li = error_li ++ (reject email server r ∷ []); success = 0 }, w)
  after_one email server error_li next (broken e, w) = next (failed_at email server e error_li) w

  unfoldable pub try_one :
      Text
      → Message
      → Text
      → List (Error E R)
      → (List (Error E R) → W → Outcome)
      → (C ⊎ E) × W
      → Outcome
  unfolding after_one failed_at
  try_one email msg server error_li next (inl c, w) =
      after_one email server error_li next (smtp.send c msg w)
  try_one email msg server error_li next (inr e, w) = next (failed_at email server e error_li) w

  -- A mail to one receiver goes to the first server that takes or refuses it.
  unfoldable pub send_one : Text → Message → List Mx → List (Error E R) → W → Outcome
  unfolding try_one
  send_one email msg [] error_li w = (record { error_li = error_li; success = 0 }, w)
  send_one email msg (mx ∷ mx_li) error_li w =
      try_one email msg mx.server error_li (send_one email msg mx_li) (smtp.connect mx.server w)

  -- The first server that answers may take the mail for every receiver.
  unfoldable pub after_batch :
      C → Option E → (List C → Option E → W → Opened C E × W) → Sent E R × W → Opened C E × W
  after_batch c last_err next (sent, w) = (all_sent, w)
  after_batch c last_err next (unexpected r, w) = next (c ∷ []) last_err w
  after_batch c last_err next (broken e, w) = next (c ∷ []) last_err w

  unfoldable pub open_next :
      Message
      → List C
      → Option E
      → (List C → Option E → W → Opened C E × W)
      → (C ⊎ E) × W
      → Opened C E × W
  unfolding after_batch
  open_next msg smtp_li last_err next (inr e, w) = next smtp_li (some e) w
  open_next msg [] last_err next (inl c, w) = after_batch c last_err next (smtp.send c msg w)
  open_next msg (d ∷ smtp_li) last_err next (inl c, w) = next ((d ∷ smtp_li) ++ (c ∷ [])) last_err w

  unfoldable pub open_li : Message → List Mx → List C → Option E → W → Opened C E × W
  unfolding open_next
  open_li msg [] smtp_li last_err w = (opened smtp_li last_err, w)
  open_li msg (mx ∷ mx_li) smtp_li last_err w =
      open_next msg smtp_li last_err (open_li msg mx_li) (smtp.connect mx.server w)

  unfoldable pub after_item :
      Text → Option E → (Option E → W → Tried E R × W) → Sent E R × W → Tried E R × W
  after_item server last_err next (sent, w) = (delivered last_err, w)
  after_item server last_err next (unexpected r, w) = (refused server r last_err, w)
  after_item server last_err next (broken e, w) = next (some e) w

  unfoldable pub try_item :
      C → Message → Text → Option E → (Option E → W → Tried E R × W) → Bool × W → Tried E R × W
  unfolding after_item
  try_item c msg server last_err next (true, w) =
      after_item server last_err next (smtp.send c msg w)
  try_item c msg server last_err next (false, w) = next last_err w

  -- The server that is named is the one at the place of the connection.
  unfoldable pub try_servers : Message → List Mx → ℕ → List C → Option E → W → Tried E R × W
  unfolding try_item server_at
  try_servers msg mx_li idx [] last_err w = (exhausted last_err, w)
  try_servers msg mx_li idx (c ∷ smtp_li) last_err w =
      try_item c msg (server_at mx_li idx) last_err (try_servers msg mx_li (idx + 1) smtp_li)
        (smtp.rset c w)

  unfoldable pub add_result : SendResult E R → Outcome → Outcome
  add_result r (s, w) =
      (record { error_li = r.error_li ++ s.error_li; success = r.success + s.success }, w)

  -- What a receiver adds to the result.
  unfoldable pub item_result : Text → List Mx → Tried E R → SendResult E R × Option E
  unfolding last_server
  item_result email mx_li (delivered last_err) = (record { error_li = []; success = 1 }, last_err)
  item_result email mx_li (refused server r last_err) =
      (record { error_li = reject email server r ∷ []; success = 0 }, last_err)
  item_result email mx_li (exhausted none) = (record { error_li = []; success = 0 }, none)
  item_result email mx_li (exhausted (some e)) =
      (record { error_li = send_err email (last_server mx_li) e ∷ []; success = 0 }, none)

  unfoldable pub send_items : List Mx → List C → List MailMessageItem → Option E → W → Outcome
  unfolding try_servers item_result add_result item_message
  send_items mx_li smtp_li [] last_err w = (record { error_li = []; success = 0 }, w)
  send_items mx_li smtp_li (m ∷ items) last_err w =
      let (tried, w₁) = try_servers (item_message m) mx_li 0 smtp_li last_err w in
      let (r, last) = item_result m.to mx_li tried in
      add_result r (send_items mx_li smtp_li items last w₁)

  unfoldable pub all_failed : Text → Option E → List (Error E R)
  all_failed domain none = []
  all_failed domain (some e) = smtp_all_failed domain e ∷ []

  unfoldable pub send_opened : MailMessage → List Mx → Opened C E × W → Outcome
  unfolding send_items into_iter all_failed
  send_opened msg mx_li (all_sent, w) = (record { error_li = []; success = length msg.to_li }, w)
  send_opened msg mx_li (opened [] last_err, w) =
      (record { error_li = all_failed msg.domain last_err; success = 0 }, w)
  send_opened msg mx_li (opened (c ∷ smtp_li) last_err, w) =
      send_items mx_li (c ∷ smtp_li) (into_iter msg) last_err w

  unfoldable pub send_many : MailMessage → List Mx → W → Outcome
  unfolding send_opened open_li into_message
  send_many msg mx_li w = send_opened msg mx_li (open_li (into_message msg) mx_li [] none w)

  unfoldable pub send_to : MailMessage → List Mx → List Text → W → Outcome
  unfolding send_one send_many into_message
  send_to msg mx_li [] w = (record { error_li = []; success = 0 }, w)
  send_to msg mx_li (email ∷ []) w = send_one email (into_message msg) mx_li [] w
  send_to msg mx_li (email ∷ next ∷ to_li) w = send_many msg mx_li w

  -- What the query for the mail servers of the domain answers comes first.
  unfoldable pub send_domain : Lookup Mx → MailMessage → W → Outcome
  unfolding send_to
  send_domain (records []) msg w =
      (record { error_li = mx_is_empty msg.domain ∷ []; success = 0 }, w)
  send_domain (records (mx ∷ mx_li)) msg w = send_to msg (mx ∷ mx_li) msg.to_li w
  send_domain nothing msg w = (record { error_li = mx_is_empty msg.domain ∷ []; success = 0 }, w)
  send_domain error msg w =
      (record { error_li = dns_resolve_failed msg.domain ∷ []; success = 0 }, w)
