-- ===== src/SmtpRecv/Mail.antt =====
-- mail_struct/src/lib.rs, mail_struct/src/host_user_li.rs and xmail/src/lib.rs: a mail with its
-- receivers by host. The map of sets is an association list of lists without repetition.
use npm.Common.{
  Bool, true, false, Option, none, some, List, [], ◌∷◌, map, take, drop, if◌then◌else◌,
}
use npm.Text.{Text, text_eq, trim, split_once, is_empty, split, is_dot, join}

abbrev pub HostUserLi : Type 0
HostUserLi = List (Text × List Text)

pub record Mail : Type 0 where
  pub sender_user : Text
  pub sender_host : Text
  pub host_user_li : HostUserLi
  pub body : Text

unfoldable pub has_dot : Text → Bool
has_dot host = elim (split_once b'.' host) [
  | none ↦ false
  | some (prefix, suffix) ↦
      if is_empty prefix then false else if is_empty suffix then false else true
]

-- `lowtrim` and `cut255` of the crate xstr, `decode` of the crate punycode on a label of a host name.
module _ (lowtrim cut : Text → Text) (decode_label : Text → Option Text) where
  unfoldable pub user_host : Text → Option (Text × Text)
  unfolding has_dot
  user_host mail = elim (split_once b'@' mail) [
    | none ↦ none
    | some (user, host) ↦
        if has_dot host then (if is_empty user then none else some (cut user, cut host)) else none
  ]

  unfoldable pub decode_part : Text → Text
  decode_part part =
      if text_eq (take 4 part) (b'x' ∷ b'n' ∷ b'-' ∷ b'-' ∷ [])
      then elim (decode_label (drop 3 part)) [ none ↦ part | some t ↦ t ]
      else part

  unfoldable pub decode_host : Text → Text
  unfolding decode_part split is_dot join
  decode_host host = join (b'.' ∷ []) (map (λ part. decode_part (trim part)) (split is_dot host))

  unfoldable pub norm_user_host : Text → Option (Text × Text)
  unfolding user_host decode_host
  norm_user_host mail = elim (user_host (lowtrim mail)) [
    | none ↦ none
    | some (user, host) ↦ some (user, decode_host host)
  ]

  unfoldable pub insert_user : Text → List Text → List Text
  insert_user user [] = user ∷ []
  insert_user user (u ∷ us) =
      let rest = insert_user user us in if text_eq u user then u ∷ us else u ∷ rest

  unfoldable pub insert_entry : Text → Text → HostUserLi → HostUserLi
  unfolding insert_user
  insert_entry host user [] = (host, user ∷ []) ∷ []
  insert_entry host user ((h, us) ∷ m) =
      let rest = insert_entry host user m in
      if text_eq h host then (h, insert_user user us) ∷ m else (h, us) ∷ rest

  unfoldable pub add : Text → HostUserLi → Bool × HostUserLi
  unfolding norm_user_host insert_entry
  add mail m = elim (norm_user_host mail) [
    | none ↦ (false, m)
    | some (user, host) ↦ (true, insert_entry host user m)
  ]

  unfoldable pub user_li : Text → HostUserLi → Option (List Text)
  user_li host [] = none
  user_li host ((h, us) ∷ m) = if text_eq h host then some us else user_li host m

  unfoldable pub add_all : List Text → HostUserLi → HostUserLi
  unfolding add
  add_all [] m = m
  add_all (a ∷ li) m = add_all li ((add a m).1)

  unfoldable pub new_with : Option (Text × Text) → HostUserLi → Text → Option Mail
  new_with none m body = none
  new_with (some sender) [] body = none
  new_with (some (user, host)) (e ∷ m) body =
      some (record { sender_user = user; sender_host = host; host_user_li = e ∷ m; body = body })

  unfoldable pub new : Text → List Text → Text → Option Mail
  unfolding new_with norm_user_host add_all
  new sender to_li body = new_with (norm_user_host sender) (add_all to_li []) body
