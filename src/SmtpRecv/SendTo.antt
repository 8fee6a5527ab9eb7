-- ===== src/SmtpRecv/SendTo.antt =====
-- smtp_recv/src/send_to.rs
use npm.Common.{Bool, true, false, not, ◌&&◌, Option, none, some, List, [], ◌∷◌, ◌++◌}
use npm.SmtpRecv.Text.{Text}

pub record SendTo : Type 0 where
  pub to_li : List Text
  pub sender : Option Text

abbrev pub new : SendTo
new = record { to_li = []; sender = none }

unfoldable pub reset : SendTo → SendTo
reset s = record { to_li = []; sender = none }

unfoldable pub set_sender : Text → SendTo → SendTo
set_sender a s = record s { sender = some a }

unfoldable pub add_to : Text → SendTo → SendTo
add_to a s = record s { to_li = s.to_li ++ (a ∷ []) }

unfoldable pub has_sender : SendTo → Bool
has_sender s = elim s.sender [ none ↦ false | some a ↦ true ]

unfoldable pub is_empty : SendTo → Bool
is_empty s = elim s.to_li [ [] ↦ true | a ∷ rest ↦ false ]

unfoldable pub take_sender : SendTo → Option Text × SendTo
take_sender s = (s.sender, record s { sender = none })

unfoldable pub take_to_li : SendTo → List Text × SendTo
take_to_li s = (s.to_li, record s { to_li = [] })

unfoldable pub is_ready : SendTo → Bool
unfolding has_sender is_empty
is_ready s = has_sender s && not (is_empty s)
