-- ===== src/SmtpRecv.antt =====
-- smtp_recv/src: the mail server. A session is a state with the operations of the trait
-- `session::Session`; Forward and Send are the two sessions, on port 25 and on port 465.
pub mod Text
pub mod Reply
pub mod Outcome
pub mod SendTo
pub mod Stream
pub mod ReadMail
pub mod Cmd
pub mod Mail
pub mod Run
pub mod Invariants
pub mod Send
pub mod Forward
mod Tests
