-- ===== src/UserSemaphore/Named.antt =====
-- linux-c/semaphore/named-semaphore.c: one command on the named semaphore. The text of the usage is
-- left out.
use snippet.Base.{ℕ, List, [], ◌∷◌, if◌then◌else◌, ℤ, pos}
use snippet.Posix.{codes}
use snippet.Posix.Ending.{Action, ◌>>=◌, ◌>>◌, pure}
use snippet.Config.{text_eq}
use snippet.UserSemaphore.Utilities.{
  Calls, SemaphoreSystem, print_msg, create_semaphore, unlink_semaphore, open_semaphore,
  close_semaphore, post_semaphore, wait_semaphore, get_semaphore,
}

-- The commands, and any other text.
pub data Command : Type 0 where
  create unlink post wait get help unknown : Command

-- The chain of comparisons.
unfoldable pub command_of : List ℕ → Command
command_of cmd =
    if text_eq cmd (codes "create")
    then Command.create
    else if text_eq cmd (codes "unlink")
    then Command.unlink
    else if text_eq cmd (codes "post")
    then Command.post
    else if text_eq cmd (codes "wait")
    then Command.wait
    else if text_eq cmd (codes "get")
    then Command.get
    else if text_eq cmd (codes "help")
    then Command.help
    else Command.unknown

abbrev pub einval : ℤ
einval = pos 22

module _ (os : SemaphoreSystem) where
  -- `open`, one operation, `close`.
  abbrev pub with_semaphore : (ℕ → Action Calls (Unit {0})) → Action Calls (Unit {0})
  with_semaphore operation = do sem ← open_semaphore os; operation sem; close_semaphore os sem

  -- The message of the end is printed for every command but an unknown one.
  abbrev pub then_done : Action Calls (Unit {0}) → Action Calls ℤ
  then_done action = do action; print_msg os; pure (pos 0)

  unfoldable pub run_command : Command → Action Calls ℤ
  unfolding create_semaphore unlink_semaphore open_semaphore close_semaphore post_semaphore
      wait_semaphore get_semaphore
  run_command Command.create = then_done do sem ← create_semaphore os; close_semaphore os sem
  run_command Command.unlink = then_done (unlink_semaphore os)
  run_command Command.post = then_done (with_semaphore (post_semaphore os))
  run_command Command.wait = then_done (with_semaphore (wait_semaphore os))
  run_command Command.get = then_done (with_semaphore (get_semaphore os))
  run_command Command.help = then_done (pure tt)
  run_command Command.unknown = pure einval

  -- `args` are the arguments behind the program's name.
  unfoldable pub named_main : List (List ℕ) → Action Calls ℤ
  unfolding command_of run_command
  named_main [] = pure einval
  named_main (cmd ∷ []) = do print_msg os; run_command (command_of cmd)
  named_main (cmd ∷ second ∷ rest) = pure einval
