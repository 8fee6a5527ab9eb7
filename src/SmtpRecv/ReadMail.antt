-- ===== src/SmtpRecv/ReadMail.antt =====
-- `read_mail` of smtp_recv/src/session.rs, which undoes the dot stuffing of RFC 5321, 4.5.2.
use npm.Common.{
  ℕ, zero, suc, ◌<◌, ◌≡◌, refl, arith, Bool, true, false, ◌||◌, List, [], ◌∷◌, ◌++◌, append-nil,
  append_assoc, length, ◌==◌, if◌then◌else◌, Bool-cases, ◌⊎◌, inl, inr,
}
use npm.SmtpRecv.Text.{Text, text_eq}
use npm.SmtpRecv.Reply.{Reply}
use npm.SmtpRecv.Outcome.{done, unfinished, Op, ◌>>=◌, return}
use npm.SmtpRecv.Stream.{Event, line, Conn, StreamOps, conn_ops, read_event}

unfoldable pub is_end : Text → Bool
is_end l = text_eq l (b'.' ∷ 13 ∷ 10 ∷ []) || text_eq l (b'.' ∷ 10 ∷ [])

unfoldable pub unstuff : Text → Text
unstuff [] = []
unstuff (c ∷ []) = c ∷ []
unstuff (c ∷ d ∷ s) = if c == b'.' then (if d == b'.' then d ∷ s else c ∷ d ∷ s) else c ∷ d ∷ s

module _ {S : Type 0} (ops : StreamOps S) where
  -- One unit of fuel is one line.
  unfoldable pub read_lines : ℕ → Text → Op S Text
  unfolding is_end unstuff
  read_lines zero body = λ s. unfinished
  read_lines (suc fuel) body = do
    l ← ops.read_line
    if is_end l then return body else read_lines fuel (body ++ unstuff l)

  unfoldable pub read_mail : ℕ → Op S Text
  unfolding read_lines
  read_mail fuel = read_lines fuel []

-- What a client sends for a line: a dot before a line that starts with one.
abbrev pub stuff : Text → Text
stuff [] = []
stuff (c ∷ s) = if c == b'.' then b'.' ∷ c ∷ s else c ∷ s

abbrev pub stuffed : List (Text × Bool) → List Event
stuffed [] = []
stuffed ((l, b) ∷ ls) = line (stuff l) b ∷ stuffed ls

abbrev pub raw : List (Text × Bool) → List Event
raw [] = []
raw ((l, b) ∷ ls) = line l b ∷ raw ls

abbrev pub join : List (Text × Bool) → Text
join [] = []
join ((l, b) ∷ ls) = l ++ join ls

abbrev pub at : List Event → Bool → List Reply → Conn
at es b out = record { input = es; more = b; output = out }

is_end-stuff : (l : Text) → is_end (stuff l) ≡ false
unfolding is_end text_eq
is_end-stuff [] = refl
is_end-stuff (c ∷ s) = ground arith

unstuff-stuff : (l : Text) → unstuff (stuff l) ≡ l
unfolding unstuff
unstuff-stuff [] = refl
unstuff-stuff (c ∷ []) = ground arith
unstuff-stuff (c ∷ d ∷ s) = ground arith

read_line_step :
    (fuel : ℕ) (body l : Text) (b more : Bool) (es : List Event) (out : List Reply)
    → is_end l ≡ false
    → read_lines conn_ops (suc fuel) body (at (line l b ∷ es) more out)
      ≡ read_lines conn_ops fuel (body ++ unstuff l) (at es b out)
unfolding read_lines conn_ops read_event
read_line_step fuel body l b more es out h = rw h refl

read_line_stop :
    (fuel : ℕ) (body : Text) (b more : Bool) (es : List Event) (out : List Reply)
    → read_lines conn_ops (suc fuel) body (at (line (b'.' ∷ 13 ∷ 10 ∷ []) b ∷ es) more out)
      ≡ done body (at es b out)
unfolding read_lines conn_ops read_event is_end text_eq
read_line_stop fuel body b more es out = refl

read_lines-stuffed :
    (ls : List (Text × Bool)) (fuel : ℕ) (body : Text) (b more : Bool) (es : List Event)
    (out : List Reply)
    → length ls < fuel
    → read_lines conn_ops fuel body
        (at (stuffed ls ++ (line (b'.' ∷ 13 ∷ 10 ∷ []) b ∷ es)) more out)
      ≡ done (body ++ join ls) (at es b out)
read_lines-stuffed [] zero body b more es out h = absurd (omega arith)
read_lines-stuffed [] (suc fuel) body b more es out h =
    rw (read_line_stop fuel body b more es out, append-nil {A = ℕ} body) refl
read_lines-stuffed (l ∷ ls) zero body b more es out h = absurd (omega arith)
read_lines-stuffed ((l, lb) ∷ ls) (suc fuel) body b more es out h =
    rw
      (
        read_line_step fuel body (stuff l) lb more
            (stuffed ls ++ (line (b'.' ∷ 13 ∷ 10 ∷ []) b ∷ es)) out (is_end-stuff l),
        unstuff-stuff l,
        read_lines-stuffed ls fuel (body ++ l) b lb es out (omega arith),
        append_assoc body l (join ls),
      )
      refl

-- What a client sends for a mail, each line stuffed and the end mark after them, is read back as
-- the mail, byte for byte, with any fuel above the number of lines; what follows the mark is left
-- to be read, and nothing is sent.
pub read_mail-stuffed :
    (ls : List (Text × Bool)) (fuel : ℕ) (b more : Bool) (es : List Event) (out : List Reply)
    → length ls < fuel
    → read_mail conn_ops fuel (at (stuffed ls ++ (line (b'.' ∷ 13 ∷ 10 ∷ []) b ∷ es)) more out)
      ≡ done (join ls) (at es b out)
unfolding read_mail
read_mail-stuffed ls fuel b more es out h = read_lines-stuffed ls fuel [] b more es out h

read_eof_step :
    (fuel : ℕ) (body : Text) (more : Bool) (out : List Reply)
    → read_lines conn_ops (suc fuel) body (at [] more out)
      ≡ read_lines conn_ops fuel body (at [] false out)
unfolding read_lines conn_ops read_event is_end unstuff text_eq
read_eof_step fuel body more out = rw (append-nil {A = ℕ} body) refl

read_lines-eof :
    (fuel : ℕ) (body : Text) (more : Bool) (out : List Reply)
    → read_lines conn_ops fuel body (at [] more out) ≡ unfinished
unfolding read_lines
read_lines-eof zero body more out = refl
read_lines-eof (suc fuel) body more out =
    rw (read_eof_step fuel body more out) (read_lines-eof fuel body false out)

abbrev pub HasEnd : List (Text × Bool) → Type 0
HasEnd [] = ⊥
HasEnd ((l, b) ∷ ls) = (is_end l ≡ true) ⊎ HasEnd ls

read_lines-cut :
    (ls : List (Text × Bool)) (fuel : ℕ) (body : Text) (more : Bool) (out : List Reply)
    → ¬ HasEnd ls
    → read_lines conn_ops fuel body (at (raw ls) more out) ≡ unfinished
unfolding read_lines
read_lines-cut [] fuel body more out h = read_lines-eof fuel body more out
read_lines-cut (l ∷ ls) zero body more out h = refl
read_lines-cut ((l, b) ∷ ls) (suc fuel) body more out h = elim (Bool-cases (is_end l)) [
  | inl e ↦ absurd (h (inl e))
  | inr e ↦
      rw (read_line_step fuel body l b more (raw ls) out e)
        (read_lines-cut ls fuel (body ++ unstuff l) b out (λ k. h (inr k)))
]

-- When the client goes away before the end mark, reading the mail never ends, on any fuel: the
-- empty line that a read returns at the end of the input is taken for a line of the mail.
pub read_mail_spins :
    (ls : List (Text × Bool)) (fuel : ℕ) (more : Bool) (out : List Reply)
    → ¬ HasEnd ls
    → read_mail conn_ops fuel (at (raw ls) more out) ≡ unfinished
unfolding read_mail
read_mail_spins ls fuel more out h = read_lines-cut ls fuel [] more out h
