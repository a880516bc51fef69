-- ===== src/Posix/Answers.antt =====
-- The answers of the system. They are parameters of every model that uses them, and may depend on
-- all that the program has done before. `none` and `false` stand for a result of -1.
use snippet.Base.{ℕ, Bool, List, Option}
use snippet.Posix.Events.{Trace}

pub record System : Type 0 where
  pub socket : Trace → Option ℕ
  pub setsockopt : Trace → Bool
  pub bind : Trace → Bool
  pub listen : Trace → Bool
  pub accept : Trace → Option ℕ
  pub connect : Trace → Bool
  pub unlink : Trace → Bool
  -- `read` and `recvfrom`: the bytes got, at most the number asked for
  pub read : Trace → (count : ℕ) → Option (List ℕ)
  -- `write` and `sendto`: how many bytes were taken
  pub write : Trace → List ℕ → Option ℕ
  -- the address, or a null pointer
  pub malloc : Trace → Option ℕ
