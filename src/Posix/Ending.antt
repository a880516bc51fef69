-- ===== src/Posix/Ending.antt =====
-- The functions of a user program that may leave by `exit`: a state monad over the program's variables.
use snippet.Base.{◌≡◌, refl, ℕ, Option, none, some, ℤ, pos, negsuc}

-- How a run of a function ends: it returns, the process exits, a null pointer is read, or, for a
-- loop with a bound on its rounds, it is still running.
pub data Ended (A : Type 0) : Type 0 where
  returned : A → Ended A
  exited : (code : ℤ) → Ended A
  crashed running : Ended A

-- A function of a program whose variables are `S`.
abbrev pub Action : Type 0 → Type 0 → Type 0
Action S A = S → Ended A × S

-- What follows a function that has ended: it goes on from one that returned.
abbrev pub continue : {S A B : Type 0} → (A → Action S B) → Ended A × S → Ended B × S
continue next (Ended.returned a, s) = next a s
continue next (Ended.exited code, s) = (Ended.exited code, s)
continue next (Ended.crashed, s) = (Ended.crashed, s)
continue next (Ended.running, s) = (Ended.running, s)

infixl 5 ◌>>=◌ ◌>>◌
abbrev pub ◌>>=◌ : {S A B : Type 0} → Action S A → (A → Action S B) → Action S B
◌>>=◌ first next s = continue next (first s)

abbrev pub ◌>>◌ : {S B : Type 0} → Action S (Unit {0}) → Action S B → Action S B
first >> next = first >>= λ _. next

module _ {S : Type 0} where
  abbrev pub pure : {A : Type 0} → A → Action S A
  pure a s = (Ended.returned a, s)

  abbrev pub exit : {A : Type 0} → ℤ → Action S A
  exit code s = (Ended.exited code, s)

  abbrev pub modify : (S → S) → Action S (Unit {0})
  modify f s = (Ended.returned tt, f s)

  -- The answer to a call, which depends on what was done before.
  abbrev pub ask : {A : Type 0} → (S → A) → Action S A
  ask answer s = (Ended.returned (answer s), s)

  -- `if (p == NULL) exit(code)`
  abbrev pub or_exit : {A : Type 0} → ℤ → Option A → Action S A
  or_exit code none = exit code
  or_exit code (some a) = pure a

  -- `if (ret < 0) exit(ret)`
  abbrev pub exit_if_negative : ℤ → Action S ℕ
  exit_if_negative (pos n) = pure n
  exit_if_negative (negsuc n) = exit (negsuc n)

  -- What a null pointer points to.
  abbrev pub dereference : {A : Type 0} → Option A → Action S A
  dereference none s = (Ended.crashed, s)
  dereference (some a) s = (Ended.returned a, s)

-- What holds after a check and what follows it: where the check exits, and where it goes on.
module _ {S A B : Type 0} (P : Ended B × S → Type 0) (next : A → Action S B) (s : S) where
  pub or_exit-rule :
      (code : ℤ) (o : Option A)
      → (o ≡ none → P (Ended.exited code, s))
      → ((a : A) → o ≡ some a → P (next a s))
      → P (continue next (or_exit code o s))
  or_exit-rule code none left went = left refl
  or_exit-rule code (some a) left went = went a refl

module _ {S B : Type 0} (P : Ended B × S → Type 0) (next : ℕ → Action S B) (s : S) where
  pub exit_if_negative-rule :
      (ret : ℤ)
      → ((error : ℕ) → P (Ended.exited (negsuc error), s))
      → ((n : ℕ) → ret ≡ pos n → P (next n s))
      → P (continue next (exit_if_negative ret s))
  exit_if_negative-rule (pos n) left went = went n refl
  exit_if_negative-rule (negsuc error) left went = left error

module _ {S A B : Type 0} (P : Ended B × S → Type 0) (next : A → Action S B) (s : S) where
  pub dereference-rule :
      (o : Option A)
      → P (Ended.crashed, s)
      → ((a : A) → o ≡ some a → P (next a s))
      → P (continue next (dereference o s))
  dereference-rule none left went = left
  dereference-rule (some a) left went = went a refl
