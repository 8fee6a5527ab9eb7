-- ===== src/SmtpRecv/Invariants.antt =====
-- What every operation of a session keeps, the whole run of the session keeps.
use npm.Common.{ℕ, zero, suc, Bool, true, false, List, [], ◌∷◌, ◌++◌, if◌then◌else◌}
use npm.SmtpRecv.Text.{Text, is_empty, parse_command}
use npm.SmtpRecv.Reply.{Reply}
use npm.SmtpRecv.Stream.{StreamOps, lift_outcome}
use npm.SmtpRecv.Outcome.{Outcome, Ends, Op, Keeps, Keeps-bind}
use npm.SmtpRecv.ReadMail.{read_lines, is_end, unstuff}
use npm.SmtpRecv.Cmd.{Command, command}
use npm.SmtpRecv.Run.{
  Session, Batch, take_action, push_command, read_more, handle_commands, data_phase, run_batch,
  main_loop, run_loop,
}

-- An operation under a test.
pub Keeps-if :
    {S A : Type 0} (P : S → Type 0) (b : Bool) (m n : Op S A)
    → Keeps P m
    → Keeps P n
    → Keeps P (if b then m else n)
Keeps-if P true m n hm hn = hm
Keeps-if P false m n hm hn = hn

module _ {S : Type 0} (session : Session S) (P : S → Type 0) where
  pub record IsKept : Type 0 where
    pub send_kept : (r : Reply) → Keeps P (session.stream.send r)
    pub read_kept : Keeps P session.stream.read_line
    pub flush_kept : (rs : List Reply) → Keeps P (session.stream.flush rs)
    pub cmd_kept :
        (c : Command) (args : Text) (rs : List Reply) → Keeps P (session.handle_cmd c args rs)
    pub data_kept : (fuel : ℕ) → Keeps P (session.handle_data fuel)

  module _ (kept : IsKept) where
    read_more-Keeps : (fuel : ℕ) (commands : List Text) → Keeps P (read_more session fuel commands)
    unfolding read_more
    read_more-Keeps zero commands s h = tt
    read_more-Keeps (suc fuel) commands s h =
        Keeps-if P (session.stream.buf_line s) _ _
          (Keeps-bind P session.stream.read_line _ kept.read_kept (λ line.
            Keeps-if P (is_empty line) _ _ (λ t k. k)
              (read_more-Keeps fuel (push_command line commands))))
          (λ t k. k) s h

    handle_commands-Keeps :
        (lines : List Text) (batch : Batch) → Keeps P (handle_commands session lines batch)
    unfolding handle_commands
    handle_commands-Keeps [] batch = λ s h. h
    handle_commands-Keeps (line ∷ lines) batch =
        Keeps-bind P
          (session.handle_cmd (command (parse_command line).0) (parse_command line).1
            batch.responses)
          _ (kept.cmd_kept (command (parse_command line).0) (parse_command line).1 batch.responses)
          (λ r.
            Keeps-if P (take_action r.0 r.1 batch.should_quit).data_follows _ _ (λ t k. k)
              (handle_commands-Keeps lines (take_action r.0 r.1 batch.should_quit)))

    data_phase-Keeps : (fuel : ℕ) (b : Bool) → Keeps P (data_phase session fuel b)
    unfolding data_phase
    data_phase-Keeps fuel true = kept.data_kept fuel
    data_phase-Keeps fuel false = λ s h. h

    run_batch-Keeps : (fuel : ℕ) (line : Text) → Keeps P (run_batch session fuel line)
    unfolding run_batch
    run_batch-Keeps fuel line =
        Keeps-bind P (read_more session fuel (push_command line [])) _
          (read_more-Keeps fuel (push_command line []))
          (λ commands.
            Keeps-bind P
              (handle_commands session commands
                (record { responses = []; should_quit = false; data_follows = false }))
              _
              (handle_commands-Keeps commands
                (record { responses = []; should_quit = false; data_follows = false }))
              (λ batch.
                Keeps-bind P (session.stream.flush batch.responses) _
                  (kept.flush_kept batch.responses)
                  (λ u.
                    Keeps-bind P (data_phase session fuel batch.data_follows) _
                      (data_phase-Keeps fuel batch.data_follows) (λ v t k. k))))

    main_loop-Keeps : (fuel : ℕ) → Keeps P (main_loop session fuel)
    unfolding main_loop
    main_loop-Keeps zero = λ s h. tt
    main_loop-Keeps (suc fuel) = Keeps-bind P session.stream.read_line _ kept.read_kept (λ line.
        Keeps-if P (is_empty line) _ _ (λ t k. k)
          (Keeps-bind P (run_batch session fuel line) _ (run_batch-Keeps fuel line)
            (λ stop. Keeps-if P stop _ _ (λ t k. k) (main_loop-Keeps fuel))))

    pub run_loop-Keeps : (fuel : ℕ) → Keeps P (run_loop session fuel)
    unfolding run_loop
    run_loop-Keeps fuel =
        Keeps-bind P (session.stream.send Reply.welcome) _ (kept.send_kept Reply.welcome)
          (λ u. main_loop-Keeps fuel)

-- A predicate that does not look at the stream outlasts its operations.
module _ {S T : Type 0} (get : S → T) (put : T → S → S) (P : S → Type 0) where
  pub lift_outcome-Ends :
      {A : Type 0} (s : S) (o : Outcome T A)
      → ((t : T) → P (put t s))
      → Ends P (lift_outcome get put s o)
  unfolding lift_outcome
  lift_outcome-Ends s (Outcome.done a t) h = h t
  lift_outcome-Ends s (Outcome.failed e t) h = h t
  lift_outcome-Ends s Outcome.unfinished h = tt

-- Reading a mail is a chain of reads.
pub read_lines-Keeps :
    {S : Type 0} (ops : StreamOps S) (P : S → Type 0)
    → Keeps P ops.read_line
    → (fuel : ℕ) (body : Text) → Keeps P (read_lines ops fuel body)
unfolding read_lines
read_lines-Keeps ops P h zero body = λ s k. tt
read_lines-Keeps ops P h (suc fuel) body =
    Keeps-bind P ops.read_line _ h (λ l.
      Keeps-if P (is_end l) _ _ (λ t k. k) (read_lines-Keeps ops P h fuel (body ++ unstuff l)))
