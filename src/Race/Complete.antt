-- ===== src/Race/Complete.antt =====
-- Which arguments the stream has yielded.
use npm.Common.{ℕ, List, [], ◌∷◌, ◌++◌, ◌≡◌, sym, append-nil}
use npm.Race.Removed.{args_of}
use npm.Race.{Race, Input, Poll, finished, new, poll_next, poll_all}
use mathlib.Core.List.{Perm}
use mathlib.Core.List.Perm
use npm.Race.Polled.{
  outstanding, IsEnding, add_arg, add_arg-add_item, add_arg-Perm, poll_next-Perm,
  poll_next-IsEnding, poll_next-finished,
}

module _ {A F T : Type 0} where
  -- What a list of polls yields and what it leaves.
  poll_all-Perm :
      (run : A → F) (inputs : List (Input F T)) (r : Race A F)
      → Perm
          (args_of (poll_all run inputs r).0 ++ outstanding (poll_all run inputs r).1)
          (outstanding r)
  unfolding poll_all args_of
  poll_all-Perm run [] r = Perm.refl (outstanding r)
  poll_all-Perm run (input ∷ inputs) r =
      let p : Poll A T × Race A F = poll_next run input r in
      let rest : List (A × T) × Race A F = poll_all run inputs p.1 in
      rw (add_arg-add_item p.0 rest.0 (outstanding rest.1))
        (Perm.trans (add_arg-Perm p.0 (poll_all-Perm run inputs p.1)) (poll_next-Perm run input r))

  poll_all-IsEnding :
      (run : A → F) (inputs : List (Input F T)) (r : Race A F)
      → IsEnding r
      → IsEnding (poll_all run inputs r).1
  unfolding poll_all
  poll_all-IsEnding run [] r h = h
  poll_all-IsEnding run (input ∷ inputs) r h =
      poll_all-IsEnding run inputs (poll_next run input r).1 (poll_next-IsEnding run input r h)

  -- When the stream is at its end after some polls, at whatever instants and whatever the tasks do,
  -- the arguments that these polls yielded are those it was made with, each as often.
  pub poll_all_complete :
      (run : A → F) (step now : ℕ) (args : List A) (inputs : List (Input F T)) (last : Input F T)
      → (poll_next run last (poll_all run inputs (new step now args)).1).0 ≡ finished
      → Perm (args_of (poll_all run inputs (new step now args)).0) args
  unfolding new IsEnding add_arg outstanding args_of
  poll_all_complete run step now args inputs last h =
      let before : Race A F = new step now args in
      let r : Race A F = (poll_all run inputs before).1 in
      let ending : IsEnding r = poll_all-IsEnding run inputs before (λ e. cc) in
      let empty : outstanding (poll_next run last r).1 ≡ [] =
        poll_next-finished run last r ending h in
      let none_left : outstanding r ≡ [] =
        sym (Perm.nil-eq (rw (h, empty) at (poll_next-Perm run last r))) in
      rw (none_left, append-nil) at (poll_all-Perm run inputs before)
