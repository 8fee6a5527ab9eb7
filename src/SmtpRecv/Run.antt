-- ===== src/SmtpRecv/Run.antt =====
-- `run_loop` of smtp_recv/src/session.rs, for any session: the commands that are in the buffer are
-- read as one batch, handled in order, and their replies are sent together.
use npm.Common.{ℕ, zero, suc, Bool, true, false, List, [], ◌∷◌, ◌++◌, if◌then◌else◌}
use npm.SmtpRecv.Text.{Text, trim, is_empty, parse_command}
use npm.SmtpRecv.Reply.{Reply, Action, reply, handled, quit, start_data}
use npm.SmtpRecv.Outcome.{unfinished, Op, ◌>>=◌, ◌>>◌, return, gets}
use npm.SmtpRecv.Stream.{StreamOps}
use npm.SmtpRecv.Cmd.{Command, command}

-- The trait: `handle_cmd` has the replies that wait, and returns those that are left waiting;
-- `handle_data` reads a mail, on fuel.
pub record Session (S : Type 0) : Type 0 where
  pub stream : StreamOps S
  pub handle_cmd : Command → Text → List Reply → Op S (Action × List Reply)
  pub handle_data : ℕ → Op S (Unit {0})

-- What is left of a batch: its replies, whether to quit, and whether a mail follows.
pub record Batch : Type 0 where
  pub responses : List Reply
  pub should_quit : Bool
  pub data_follows : Bool

unfoldable pub push_command : Text → List Text → List Text
push_command line commands = if is_empty (trim line) then commands else commands ++ (trim line ∷ [])

-- The `match action` of the loop.
unfoldable pub take_action : Action → List Reply → Bool → Batch
take_action (reply r) left should_quit = record {
  responses = left ++ (r ∷ []);
  should_quit = should_quit;
  data_follows = false;
}
take_action handled left should_quit = record {
  responses = left;
  should_quit = should_quit;
  data_follows = false;
}
take_action Action.ok left should_quit = record {
  responses = left ++ (Reply.ok ∷ []);
  should_quit = should_quit;
  data_follows = false;
}
take_action (quit r) left should_quit = record {
  responses = left ++ (r ∷ []);
  should_quit = true;
  data_follows = false;
}
take_action (start_data r) left should_quit = record {
  responses = left ++ (r ∷ []);
  should_quit = should_quit;
  data_follows = true;
}

module _ {S : Type 0} (session : Session S) where
  -- One unit of fuel is one line.
  unfoldable pub read_more : ℕ → List Text → Op S (List Text)
  unfolding push_command
  read_more zero commands = λ s. unfinished
  read_more (suc fuel) commands = do
    buffered ← gets session.stream.buf_line
    if buffered
        then (do
          line ← session.stream.read_line
          if is_empty line then return commands else read_more fuel (push_command line commands))
        else return commands

  unfoldable pub handle_commands : List Text → Batch → Op S Batch
  unfolding take_action
  handle_commands [] batch = return batch
  handle_commands (line ∷ lines) batch = do
    (action, left) ←
        session.handle_cmd (command (parse_command line).0) (parse_command line).1 batch.responses
    let next = take_action action left batch.should_quit
    if next.data_follows then return next else handle_commands lines next

  unfoldable pub data_phase : ℕ → Bool → Op S (Unit {0})
  data_phase fuel true = session.handle_data fuel
  data_phase fuel false = return tt

  -- Up to the test of `should_quit`, which is returned.
  unfoldable pub run_batch : ℕ → Text → Op S Bool
  unfolding read_more push_command handle_commands data_phase
  run_batch fuel line = do
    commands ← read_more fuel (push_command line [])
    batch ←
        handle_commands commands
          (record { responses = []; should_quit = false; data_follows = false })
    session.stream.flush batch.responses
    data_phase fuel batch.data_follows
    return batch.should_quit

  unfoldable pub main_loop : ℕ → Op S (Unit {0})
  unfolding run_batch
  main_loop zero = λ s. unfinished
  main_loop (suc fuel) = do
    line ← session.stream.read_line
    if is_empty line
        then return tt
        else (do stop ← run_batch fuel line; if stop then return tt else main_loop fuel)

  unfoldable pub run_loop : ℕ → Op S (Unit {0})
  unfolding main_loop
  run_loop fuel = do session.stream.send Reply.welcome; main_loop fuel
