-- ===== src/AgentStream.antt =====
-- cersei_rs/src/stream.rs and msg.rs: what an agent writes, on its way to the reader. The channel is
-- the list of the messages that were sent; `room` counts the messages that are taken before the
-- reader is gone. The arguments of a tool come as the text that serde_json made of them.
pub mod Visible
pub mod Reader
mod Tests
use npm.Common.{
  ℕ, zero, suc, Bool, true, false, ◌||◌, ◌&&◌, not, Option, none, some, List, [], ◌∷◌, ◌++◌, ◌==◌,
  if◌then◌else◌, length, take, drop,
}
use npm.Text.{Text, is_empty}

pub data Msg : Type 0 where
  txt : Text → Msg
  tool : Text → Option Text → Msg
  err : Text → Msg
  think : Text → Msg

pub data Event : Type 0 where
  text_delta : Text → Event
  thinking_delta : Text → Event
  tool_start : Text → Option Text → Event
  complete : Event
  other_event : Event

unfoldable pub is_newline : ℕ → Bool
is_newline b = (b == 10) || (b == 13)

unfoldable pub is_space_or_tab : ℕ → Bool
is_space_or_tab b = (b == 32) || (b == 9)

unfoldable pub is_whitespace : ℕ → Bool
is_whitespace b = is_space_or_tab b || is_newline b

unfoldable pub trim_len : Text → ℕ
trim_len [] = 0
trim_len (b ∷ s) =
    let n = trim_len s in if n == 0 then (if is_whitespace b then 0 else 1) else suc n

unfoldable pub any_space : Text → Bool
any_space [] = false
any_space (b ∷ s) = is_space_or_tab b || any_space s

-- The loop over the white space at the end: what it leaves in the text, and what it buffers.
unfoldable pub spaces_of : Text → Text
spaces_of [] = []
spaces_of (b ∷ s) =
    let rest = spaces_of s in
    if is_newline b then rest else if is_space_or_tab b then b ∷ rest else rest

unfoldable pub newlines_of : Text → Text
newlines_of [] = []
newlines_of (b ∷ s) = let rest = newlines_of s in if is_newline b then b ∷ rest else rest

unfoldable pub delta : Text → Text → Option Text × Text
unfolding spaces_of newlines_of
delta t buf =
    let len = trim_len t in
    if len == length t
    then (some (buf ++ t), [])
    else if (len == 0) && not (any_space (drop len t))
    then (none, buf ++ t)
    else (some (buf ++ (take len t ++ spaces_of (drop len t))), newlines_of (drop len t))

-- A turn of the loop: the message to send, if any, the buffer, and whether the loop goes on.
unfoldable pub sent_as : (Text → Msg) → Option Text × Text → Option Msg × Text × Bool
sent_as make (none, buf) = (none, buf, true)
sent_as make (some out, buf) = (some (make out), buf, true)

unfoldable pub turn : Event → Text → Option Msg × Text × Bool
unfolding sent_as delta
turn (text_delta t) buf = sent_as txt (delta t buf)
turn (thinking_delta t) buf = sent_as think (delta t buf)
turn (tool_start name args) buf = (some (tool name args), [], true)
turn complete buf = (none, [], false)
turn other_event buf = (none, buf, true)

unfoldable pub after_turn : Option Msg × Text × Bool → ℕ → (ℕ → Text → List Msg) → List Msg
after_turn (none, buf, false) room rest = []
after_turn (none, buf, true) room rest = rest room buf
after_turn (some m, buf, more) zero rest = []
after_turn (some m, buf, true) (suc room) rest = m ∷ rest room buf
after_turn (some m, buf, false) (suc room) rest = m ∷ []

unfoldable pub run_from : List Event → ℕ → Text → List Msg
unfolding turn after_turn
run_from [] room buf = []
run_from (e ∷ events) room buf = let rest = run_from events in after_turn (turn e buf) room rest

unfoldable pub run : List Event → ℕ → List Msg
unfolding run_from
run events room = run_from events room []

-- The reader's side.
pub data Item : Type 0 where
  item : ℕ → Text → Option Text → Item
  failed : Text → Item
  ended : Item

unfoldable pub trim_newlines : Text → Text
trim_newlines [] = []
trim_newlines (b ∷ s) =
    let rest = trim_newlines s in if is_empty rest && is_newline b then [] else b ∷ rest

unfoldable pub next : List Msg → Item × List Msg
unfolding trim_newlines
next [] = (ended, [])
next (txt s ∷ rx) =
    let rest = next rx in
    if is_empty (trim_newlines s) then rest else (item 3 (trim_newlines s) none, rx)
next (think s ∷ rx) =
    let rest = next rx in
    if is_empty (trim_newlines s) then rest else (item 4 (trim_newlines s) none, rx)
next (tool name args ∷ rx) = (item 2 name args, rx)
next (err e ∷ rx) = (failed e, rx)

-- As many calls of `next`.
unfoldable pub nexts : ℕ → List Msg → List Item
unfolding next
nexts zero rx = []
nexts (suc calls) rx = (next rx).0 ∷ nexts calls (next rx).1
