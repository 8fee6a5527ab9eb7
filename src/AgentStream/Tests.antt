-- ===== src/AgentStream/Tests.antt =====
-- A run of an agent, and what the reader gets.
use npm.Common.{suc, none, List, [], ◌∷◌, length, ◌≡◌, refl, arith}
use npm.Text.{Text, codes}
use npm.AgentStream.{
  Msg, txt, think, Event, text_delta, thinking_delta, tool_start, complete, other_event, run, Item,
  item, ended, next, nexts,
}
use npm.AgentStream.Visible.{written}
use npm.AgentStream.Reader.{read, read-run}

abbrev events : List Event
events =
    thinking_delta (codes "so\n")
    ∷ text_delta (codes "a \n\n")
    ∷ other_event
    ∷ text_delta (codes "\nb")
    ∷ tool_start (codes "ls") none
    ∷ text_delta (codes "c")
    ∷ complete
    ∷ []

read-run_example : read (nexts (suc (length (run events 100))) (run events 100)) ≡ written events
read-run_example = read-run events 100 (omega arith)

-- The line end that was kept back for the next delta comes with it.
line_kept :
    nexts 3 (run (text_delta (codes "a\n") ∷ (text_delta (codes "b") ∷ [])) 100)
    ≡ item 3 (codes "a") none ∷ (item 3 (codes "\nb") none ∷ (ended ∷ []))
unfolding nexts run npm.AgentStream.run_from npm.AgentStream.turn npm.AgentStream.delta
    npm.AgentStream.trim_len npm.AgentStream.next npm.AgentStream.trim_newlines npm.Text.is_empty
    npm.AgentStream.is_whitespace npm.AgentStream.is_space_or_tab npm.AgentStream.is_newline
line_kept = refl

-- An empty delta takes it, and the reader does not get it.
line_lost :
    nexts 3 (run (text_delta (codes "a\n") ∷ (text_delta [] ∷ (text_delta (codes "b") ∷ []))) 100)
    ≡ item 3 (codes "a") none ∷ (item 3 (codes "b") none ∷ (ended ∷ []))
unfolding nexts run npm.AgentStream.run_from npm.AgentStream.turn npm.AgentStream.delta
    npm.AgentStream.trim_len npm.AgentStream.next npm.AgentStream.trim_newlines npm.Text.is_empty
    npm.AgentStream.is_whitespace npm.AgentStream.is_space_or_tab npm.AgentStream.is_newline
line_lost = refl
