-- ===== src/UserSemaphore/Commands.antt =====
-- linux-c/semaphore/named-semaphore.c: what each command does, and what it leaves open.
use snippet.Base.{ℕ, ◌≡◌, ◌≢◌, refl, List, [], ◌∷◌, false, Bool-cases, inl, inr, ℤ, pos}
use snippet.Posix.{codes}
use snippet.Config.{text_eq, text_eq_sound}
use snippet.Posix.Ending.{Ended, Action, continue, ◌>>◌, pure}
use snippet.UserSemaphore.Utilities.{
  Reply, Call, Calls, SemaphoreSystem, checked, or_exit_errno, checked-rule, print_msg,
  create_semaphore, unlink_semaphore, open_semaphore, close_semaphore, post_semaphore,
  wait_semaphore, get_semaphore, does,
}
use snippet.UserSemaphore.Named.{
  Command, command_of, einval, with_semaphore, run_command, named_main,
}

-- The calls of a command that succeeds, the latest first, on a semaphore with that value.
abbrev pub calls_of : Command → (sem value : ℕ) → Calls
calls_of Command.create sem value = Call.closed sem ∷ Call.created sem ∷ []
calls_of Command.unlink sem value = Call.unlinked ∷ []
calls_of Command.post sem value = Call.closed sem ∷ Call.posted sem ∷ Call.opened sem ∷ []
calls_of Command.wait sem value = Call.closed sem ∷ Call.waited sem ∷ Call.opened sem ∷ []
calls_of Command.get sem value = Call.closed sem ∷ Call.read_value sem value ∷ Call.opened sem ∷ []
calls_of _ sem value = []

-- The result of a command that came to an end.
abbrev pub result_of : Command → ℤ
result_of Command.unknown = einval
result_of _ = pos 0

-- A run that returns has the command's result and has made its calls; any other is left with the
-- number of an error.
abbrev pub Performs : Command → Ended ℤ × Calls → Type 0
Performs command (Ended.returned ret, calls) =
    (ret ≡ result_of command) × ((sem value : ℕ) × (calls ≡ calls_of command sem value))
Performs command (Ended.exited code, calls) = (errno : ℕ) × (code ≡ pos errno)
Performs command (_, calls) = ⊥

-- A step that returns with such calls, or leaves with the number of an error.
abbrev Does : (Calls → Type 0) → Ended (Unit {0}) × Calls → Type 0
Does R (Ended.returned t, calls) = R calls
Does R (Ended.exited code, calls) = (errno : ℕ) × (code ≡ pos errno)
Does R (_, calls) = ⊥

-- The calls of the command, on some semaphore.
abbrev Made : Command → Calls → Type 0
Made command calls = (sem value : ℕ) × (calls ≡ calls_of command sem value)

-- The texts of the commands; any other text names the unknown one.
abbrev pub Names : Command → List ℕ → Type 0
Names Command.create cmd = cmd ≡ codes "create"
Names Command.unlink cmd = cmd ≡ codes "unlink"
Names Command.post cmd = cmd ≡ codes "post"
Names Command.wait cmd = cmd ≡ codes "wait"
Names Command.get cmd = cmd ≡ codes "get"
Names Command.help cmd = cmd ≡ codes "help"
Names Command.unknown cmd =
    (cmd ≢ codes "create")
    × (cmd ≢ codes "unlink")
    × (cmd ≢ codes "post")
    × (cmd ≢ codes "wait")
    × (cmd ≢ codes "get")
    × (cmd ≢ codes "help")

text_eq_other : (a b : List ℕ) → a ≢ b → text_eq a b ≡ false
text_eq_other a b h = elim (Bool-cases (text_eq a b)) [
  | inl same ↦ absurd (h (text_eq_sound a b same))
  | inr other ↦ other
]

command_of-Names : (command : Command) (cmd : List ℕ) → Names command cmd → command_of cmd ≡ command
unfolding command_of text_eq
command_of-Names Command.create cmd e = rw e refl
command_of-Names Command.unlink cmd e = rw e refl
command_of-Names Command.post cmd e = rw e refl
command_of-Names Command.wait cmd e = rw e refl
command_of-Names Command.get cmd e = rw e refl
command_of-Names Command.help cmd e = rw e refl
command_of-Names Command.unknown cmd h =
    rw
      (
        text_eq_other cmd (codes "create") h.0,
        text_eq_other cmd (codes "unlink") h.1,
        text_eq_other cmd (codes "post") h.2,
        text_eq_other cmd (codes "wait") h.3,
        text_eq_other cmd (codes "get") h.4,
        text_eq_other cmd (codes "help") h.5,
      )
      refl

module _ (os : SemaphoreSystem) where
  -- A call under what follows it, as each wrapper makes it.
  module _ {A B C : Type 0} (P : Ended C × Calls → Type 0) (next : B → Action Calls C) where
    wrapped-rule :
        (call : Calls → Reply A) (rest : A → Action Calls B) (calls : Calls)
        → ((errno : ℕ) → P (Ended.exited (pos errno), calls))
        → ((a : A) → P (continue next (rest a calls)))
        → P (continue next (continue rest (checked call calls)))
    wrapped-rule call rest calls left went =
        checked-rule (λ r. P (continue next r)) rest call calls (λ errno e. left errno)
          (λ a e. went a)

  print_msg-rule :
      {B : Type 0} (P : Ended B × Calls → Type 0) (next : Unit {0} → Action Calls B) (calls : Calls)
      → ((errno : ℕ) → P (Ended.exited (pos errno), calls))
      → P (next tt calls)
      → P (continue next (print_msg os calls))
  unfolding print_msg
  print_msg-rule P next calls left went =
      wrapped-rule P next os.clock_gettime (λ t. checked os.localtime) calls left
        (λ t. checked-rule P next os.localtime calls (λ errno e. left errno) (λ t' e. went))

  then_done-Performs :
      (command : Command) (r : Ended (Unit {0}) × Calls)
      → pos 0 ≡ result_of command
      → Does (Made command) r
      → Performs command (continue (λ t. print_msg os >> pure (pos 0)) r)
  then_done-Performs command (Ended.returned t, calls) known made =
      print_msg-rule (Performs command) (λ t. pure (pos 0)) calls (λ errno. (errno, refl))
        (known, made)
  then_done-Performs command (Ended.exited code, calls) known made = made
  then_done-Performs command (Ended.crashed, calls) known made = absurd made
  then_done-Performs command (Ended.running, calls) known made = absurd made

  -- One call that is checked and noted.
  one-Does :
      (R : Calls → Type 0) (call : Calls → Reply (Unit {0})) (act : Call) (calls : Calls)
      → R (act ∷ calls)
      → Does R (continue (λ t. does act) (checked call calls))
  one-Does R call act calls r =
      checked-rule (Does R) (λ t. does act) call calls (λ errno e. (errno, refl)) (λ t e. r)

  close-Does :
      (R : Calls → Type 0) (sem : ℕ) (calls : Calls)
      → R (Call.closed sem ∷ calls)
      → Does R (close_semaphore os sem calls)
  unfolding close_semaphore
  close-Does R sem calls r = one-Does R (λ calls. os.sem_close calls sem) (Call.closed sem) calls r

  checked-Does :
      (R : Calls → Type 0) (r : Reply (Unit {0})) (calls : Calls)
      → R calls
      → Does R (or_exit_errno r calls)
  checked-Does R (Reply.gave t) calls h = h
  checked-Does R (Reply.failed errno) calls h = (errno, refl)

  print_msg-Does : (R : Calls → Type 0) (calls : Calls) → R calls → Does R (print_msg os calls)
  unfolding print_msg
  print_msg-Does R calls h =
      checked-rule (Does R) (λ t. checked os.localtime) os.clock_gettime calls
        (λ errno e. (errno, refl)) (λ t e. checked-Does R (os.localtime calls) calls h)

  then_close :
      (R : Calls → Type 0) (sem : ℕ) (r : Ended (Unit {0}) × Calls)
      → Does (λ calls. R (Call.closed sem ∷ calls)) r
      → Does R (continue (λ t. close_semaphore os sem) r)
  then_close R sem (Ended.returned t, calls) h = close-Does R sem calls h
  then_close R sem (Ended.exited code, calls) h = h
  then_close R sem (Ended.crashed, calls) h = absurd h
  then_close R sem (Ended.running, calls) h = absurd h

  -- The commands that open the semaphore, make one call on it and close it.
  with_semaphore-Does :
      (R : Calls → Type 0) (operation : ℕ → Action Calls (Unit {0}))
      → ((sem : ℕ)
          → Does (λ calls. R (Call.closed sem ∷ calls)) (operation sem (Call.opened sem ∷ [])))
      → Does R (with_semaphore os operation [])
  unfolding open_semaphore
  with_semaphore-Does R operation works =
      wrapped-rule (Does R) (λ sem. operation sem >> close_semaphore os sem) os.sem_open
        (λ sem. does (Call.opened sem) >> pure sem) [] (λ errno. (errno, refl))
        (λ sem. then_close R sem (operation sem (Call.opened sem ∷ [])) (works sem))

  run_command-Performs : (command : Command) → Performs command (run_command os command [])
  unfolding run_command create_semaphore unlink_semaphore post_semaphore wait_semaphore
      get_semaphore
  run_command-Performs Command.create = then_done-Performs Command.create _ refl (
      wrapped-rule (Does (Made Command.create)) (λ sem. close_semaphore os sem)
        (λ calls. os.sem_create calls 0) (λ sem. does (Call.created sem) >> pure sem) []
        (λ errno. (errno, refl))
        (λ sem. close-Does (Made Command.create) sem (Call.created sem ∷ []) (sem, 0, refl)))
  run_command-Performs Command.unlink =
      then_done-Performs Command.unlink _ refl
        (one-Does (Made Command.unlink) os.sem_unlink Call.unlinked [] (0, 0, refl))
  run_command-Performs Command.post = then_done-Performs Command.post _ refl (
      with_semaphore-Does (Made Command.post) (post_semaphore os) (λ sem.
        one-Does (λ calls. Made Command.post (Call.closed sem ∷ calls))
          (λ calls. os.sem_post calls sem) (Call.posted sem) _ (sem, 0, refl)))
  run_command-Performs Command.wait = then_done-Performs Command.wait _ refl (
      with_semaphore-Does (Made Command.wait) (wait_semaphore os) (λ sem.
        one-Does (λ calls. Made Command.wait (Call.closed sem ∷ calls))
          (λ calls. os.sem_wait calls sem) (Call.waited sem) _ (sem, 0, refl)))
  run_command-Performs Command.get = then_done-Performs Command.get _ refl (
      with_semaphore-Does (Made Command.get) (get_semaphore os) (λ sem.
        checked-rule (Does (λ calls. Made Command.get (Call.closed sem ∷ calls)))
          (λ value. does (Call.read_value sem value) >> print_msg os)
          (λ calls. os.sem_getvalue calls sem) (Call.opened sem ∷ []) (λ errno e. (errno, refl))
          (λ value e.
            print_msg-Does (λ calls. Made Command.get (Call.closed sem ∷ calls))
              (Call.read_value sem value ∷ Call.opened sem ∷ []) (sem, value, refl))))
  run_command-Performs Command.help =
      then_done-Performs Command.help (Ended.returned tt, []) refl (0, 0, refl)
  run_command-Performs Command.unknown = (refl, (0, 0, refl))

  -- With one argument that names a command the program performs that command: it returns 0, or
  -- EINVAL for an argument that names none, and has made exactly the calls of the command, so that
  -- no semaphore stays open; or it is left with the number of an error.
  pub named_main-Performs :
      (command : Command) (cmd : List ℕ)
      → Names command cmd
      → Performs command (named_main os (cmd ∷ []) [])
  unfolding named_main
  named_main-Performs command cmd names = rw (command_of-Names command cmd names) (
      print_msg-rule (Performs command) (λ t. run_command os command) [] (λ errno. (errno, refl))
        (run_command-Performs command))
