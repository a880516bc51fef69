-- ===== src/UserSemaphore/Unnamed.antt =====
-- linux-c/semaphore/unnamed-semaphore.c: a parent and a child that hand over to one another by two
-- semaphores in shared memory. A schedule says which process runs next; a process that waits for a
-- semaphore, or for its child, stays where it is until it may go on.
use snippet.Base.{
  ℕ, ◌+◌, ◌-◌, ◌*◌, ◌/◌, ◌%◌, Bool, not, ◌&&◌, List, [], ◌∷◌, ◌==◌, if◌then◌else◌, ℤ, pos,
}
use snippet.Posix.Ending.{Ended, Action, ◌>>=◌, ◌>>◌, pure}
use snippet.UserSemaphore.Utilities.{
  Calls, SemaphoreSystem, checked, sem_init_value, get_shm, put_shm, init_semaphore,
  destroy_semaphore,
}

-- Where the parent is: before `post_semaphore(parent_sem)`, before `wait_semaphore(child_sem)`,
-- before `waitpid`, behind it, or it has left with an error number.
pub data Parent : Type 0 where
  producing consuming reaping finished : Parent
  left : (errno : ℕ) → Parent

-- Where the child is: before `wait_semaphore(parent_sem)`, before `post_semaphore(child_sem)`, or it
-- has ended with a status.
pub data Child : Type 0 where
  consuming producing : Child
  ended : (status : ℕ) → Child

-- The two processes and the counts of the semaphores that they share.
pub record Race : Type 0 where
  pub parent : Parent
  pub child : Child
  pub parent_sem : ℕ
  pub child_sem : ℕ

unfoldable pub after_fork : Race
after_fork = record {
  parent = Parent.producing;
  child = Child.consuming;
  parent_sem = sem_init_value;
  child_sem = sem_init_value;
}

-- One process goes on, or the call that it is at fails.
pub data Turn : Type 0 where
  parent_runs child_runs : Turn
  parent_fails child_fails : (errno : ℕ) → Turn

-- `WIFEXITED`, `WEXITSTATUS`, and the status of a process that exits with a code.
abbrev pub wifexited : ℕ → Bool
wifexited status = status % 128 == 0

abbrev pub wexitstatus : ℕ → ℕ
wexitstatus status = status / 256 % 256

abbrev pub exit_status : ℕ → ℕ
exit_status code = code % 256 * 256

-- The test of the status behind `waitpid`.
unfoldable pub terminated_badly : ℕ → Bool
terminated_badly status = not (wifexited status) && not (wexitstatus status == 0)

-- Behind `waitpid`. `errno` is whatever it was.
unfoldable pub reap : ℕ → ℕ → Race → Race
unfolding terminated_badly
reap errno status r = record r {
  parent = if terminated_badly status then Parent.left errno else Parent.finished;
}

unfoldable pub wait_for_child : Child → Race → Race
unfolding reap
wait_for_child (Child.ended status) r = reap 0 status r
wait_for_child _ r = r

unfoldable pub run_parent : Parent → Race → Race
unfolding wait_for_child
run_parent Parent.producing r = record r {
  parent = Parent.consuming;
  parent_sem = r.parent_sem + 1;
}
run_parent Parent.consuming r =
    if r.child_sem == 0
    then r
    else record r { parent = Parent.reaping; child_sem = r.child_sem - 1 }
run_parent Parent.reaping r = wait_for_child r.child r
run_parent Parent.finished r = r
run_parent (Parent.left errno) r = r

unfoldable pub run_child : Child → Race → Race
run_child Child.consuming r =
    if r.parent_sem == 0
    then r
    else record r { child = Child.producing; parent_sem = r.parent_sem - 1 }
run_child Child.producing r = record r {
  child = Child.ended (exit_status 0);
  child_sem = r.child_sem + 1;
}
run_child (Child.ended status) r = r

-- A process that is at an end makes no call that could fail.
unfoldable pub fail_parent : Parent → ℕ → Race → Race
fail_parent Parent.finished errno r = r
fail_parent (Parent.left before) errno r = r
fail_parent _ errno r = record r { parent = Parent.left errno }

unfoldable pub fail_child : Child → ℕ → Race → Race
fail_child (Child.ended status) errno r = r
fail_child _ errno r = record r { child = Child.ended (exit_status errno) }

unfoldable pub take_turn : Turn → Race → Race
unfolding run_parent run_child fail_parent fail_child
take_turn Turn.parent_runs r = run_parent r.parent r
take_turn Turn.child_runs r = run_child r.child r
take_turn (Turn.parent_fails errno) r = fail_parent r.parent errno r
take_turn (Turn.child_fails errno) r = fail_child r.child errno r

unfoldable pub run_race : List Turn → Race → Race
unfolding take_turn
run_race [] r = r
run_race (turn ∷ rest) r = run_race rest (take_turn turn r)

-- What the parent does from where it got.
abbrev pub go_on : {A : Type 0} → Parent → Action Calls A → Action Calls A
go_on Parent.finished next calls = next calls
go_on (Parent.left errno) next calls = (Ended.exited (pos errno), calls)
go_on _ next calls = (Ended.running, calls)

-- The size of a semaphore is the system's.
module _ (os : SemaphoreSystem) (sizeof_sem : ℕ) where
  unfoldable pub clean_up : ℕ → Action Calls ℤ
  unfolding destroy_semaphore put_shm
  clean_up buffer = do
    destroy_semaphore os buffer
    destroy_semaphore os (buffer + sizeof_sem)
    put_shm os buffer (sizeof_sem * 2)
    pure (pos 0)

  -- The program, for a schedule of the two processes.
  unfoldable pub unnamed_main : List Turn → Action Calls ℤ
  unfolding get_shm init_semaphore run_race after_fork clean_up
  unnamed_main turns = do
    buffer ← get_shm os (sizeof_sem * 2)
    init_semaphore os buffer 1
    init_semaphore os (buffer + sizeof_sem) 1
    checked os.fork
    go_on (run_race turns after_fork).parent (clean_up buffer)
