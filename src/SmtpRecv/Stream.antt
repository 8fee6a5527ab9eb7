-- ===== src/SmtpRecv/Stream.antt =====
-- The trait `Stream` and `StreamEnum` of smtp_recv/src/stream/mod.rs. What the client sends is a
-- list of reads: each returns a line, with whether a further line is in the buffer then, or fails.
-- Writing does not fail. At the end of the input a read returns the empty line.
use npm.Common.{Bool, true, false, List, [], ◌∷◌, ◌++◌}
use npm.SmtpRecv.Text.{Text}
use npm.SmtpRecv.Reply.{Reply, io, stream_none}
use npm.SmtpRecv.Outcome.{Outcome, done, failed, Op}

pub data Event : Type 0 where
  line : Text → Bool → Event
  broken : Event

-- A connection: what is still to come, whether a line is buffered, and what was sent, in order.
pub record Conn : Type 0 where
  pub input : List Event
  pub more : Bool
  pub output : List Reply

-- The trait: its four operations on the state of a session.
pub record StreamOps (S : Type 0) : Type 0 where
  pub send : Reply → Op S (Unit {0})
  pub read_line : Op S Text
  pub buf_line : S → Bool
  pub flush : List Reply → Op S (Unit {0})

unfoldable pub read_event : List Event → List Reply → Outcome Conn Text
read_event [] out = done [] (record { input = []; more = false; output = out })
read_event (line t b ∷ es) out = done t (record { input = es; more = b; output = out })
read_event (broken ∷ es) out = failed io (record { input = es; more = false; output = out })

-- Both streams, the plain one and the one over TLS.
unfoldable pub conn_ops : StreamOps Conn
unfolding read_event
conn_ops = record {
  send = λ r c. done tt (record c { output = c.output ++ (r ∷ []) });
  read_line = λ c. read_event c.input c.output;
  buf_line = λ c. c.more;
  flush = λ rs c. done tt (record c { output = c.output ++ rs });
}

pub data StreamEnum : Type 0 where
  none : StreamEnum
  plain : Conn → StreamEnum
  tls : Conn → StreamEnum

unfoldable pub is_tls : StreamEnum → Bool
is_tls StreamEnum.none = false
is_tls (plain c) = false
is_tls (tls c) = true

unfoldable pub wrap : {A : Type 0} → (Conn → StreamEnum) → Outcome Conn A → Outcome StreamEnum A
wrap k (done a c) = done a (k c)
wrap k (failed e c) = failed e (k c)
wrap k Outcome.unfinished = Outcome.unfinished

unfoldable pub dispatch : {A : Type 0} → Op Conn A → Op StreamEnum A
unfolding wrap
dispatch m StreamEnum.none = failed stream_none StreamEnum.none
dispatch m (plain c) = wrap plain (m c)
dispatch m (tls c) = wrap tls (m c)

unfoldable pub has_line : StreamEnum → Bool
has_line StreamEnum.none = false
has_line (plain c) = c.more
has_line (tls c) = c.more

unfoldable pub enum_ops : StreamOps StreamEnum
unfolding conn_ops dispatch has_line
enum_ops = record {
  send = λ r. dispatch (conn_ops.send r);
  read_line = dispatch conn_ops.read_line;
  buf_line = has_line;
  flush = λ rs. dispatch (conn_ops.flush rs);
}

-- The stream is a field of the session's state.
module _ {S T : Type 0} (get : S → T) (put : T → S → S) where
  unfoldable pub lift_outcome : {A : Type 0} → S → Outcome T A → Outcome S A
  lift_outcome s (done a t) = done a (put t s)
  lift_outcome s (failed e t) = failed e (put t s)
  lift_outcome s Outcome.unfinished = Outcome.unfinished

  unfoldable pub field_ops : StreamOps T → StreamOps S
  unfolding lift_outcome
  field_ops ops = record {
    send = λ r s. lift_outcome s (ops.send r (get s));
    read_line = λ s. lift_outcome s (ops.read_line (get s));
    buf_line = λ s. ops.buf_line (get s);
    flush = λ rs s. lift_outcome s (ops.flush rs (get s));
  }
