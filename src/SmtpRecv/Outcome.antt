-- ===== src/SmtpRecv/Outcome.antt =====
-- What an async operation of a session does to its state: it returns, it fails with an error, or
-- it has not ended when the fuel is gone.
use npm.SmtpRecv.Reply.{SmtpError}

pub data Outcome (S A : Type 0) : Type 0 where
  done : A → S → Outcome S A
  failed : SmtpError → S → Outcome S A
  unfinished : Outcome S A

abbrev pub Op : Type 0 → Type 0 → Type 0
Op S A = S → Outcome S A

infixl 5 ◌>>=◌ ◌>>◌
abbrev pub ◌>>=◌ : {S A B : Type 0} → Op S A → (A → Op S B) → Op S B
m >>= f = λ s. elim (m s) [ done a t ↦ f a t | failed e t ↦ failed e t | unfinished ↦ unfinished ]

abbrev pub ◌>>◌ : {S B : Type 0} → Op S (Unit {0}) → Op S B → Op S B
m >> n = m >>= (λ u. n)

abbrev pub return : {S A : Type 0} → A → Op S A
return a s = done a s

abbrev pub throw : {S A : Type 0} → SmtpError → Op S A
throw e s = failed e s

abbrev pub gets : {S A : Type 0} → (S → A) → Op S A
gets f s = done (f s) s

abbrev pub modify : {S : Type 0} → (S → S) → Op S (Unit {0})
modify f s = done tt (f s)

-- A failure is passed over.
abbrev pub settled : {S : Type 0} → Outcome S (Unit {0}) → Outcome S (Unit {0})
settled (done u s) = done tt s
settled (failed e s) = done tt s
settled unfinished = unfinished

-- A predicate holds of the state in which an operation ends, whether it returns or fails.
abbrev pub Ends : {S A : Type 0} → (S → Type 0) → Outcome S A → Type 0
Ends P (done a s) = P s
Ends P (failed e s) = P s
Ends P unfinished = Unit {0}

-- From every state of the predicate the operation ends in one.
abbrev pub Keeps : {S A : Type 0} → (S → Type 0) → Op S A → Type 0
Keeps {S} P m = (s : S) → P s → Ends P (m s)

module _ {S A : Type 0} (P : S → Type 0) where
  pub Keeps-bind :
      {B : Type 0} (m : Op S A) (f : A → Op S B)
      → Keeps P m
      → ((a : A) → Keeps P (f a))
      → Keeps P (m >>= f)
  Keeps-bind m f hm hf s h = after (m s) (hm s h)
    where
      after :
          (o : Outcome S A)
          → Ends P o
          → Ends P (elim o [ done a t ↦ f a t | failed e t ↦ failed e t | unfinished ↦ unfinished ])
      after (done a t) k = hf a t k
      after (failed e t) k = k
      after unfinished k = tt

pub Ends-settled :
    {S : Type 0} (P : S → Type 0) (o : Outcome S (Unit {0})) → Ends P o → Ends P (settled o)
Ends-settled P (done u s) h = h
Ends-settled P (failed e s) h = h
Ends-settled P unfinished h = tt
