-- ===== src/UserSemaphore/Tests.antt =====
-- Runs of the semaphore programs at concrete inputs.
use snippet.Base.{ℕ, ◌≤◌, ◌≡◌, ◌≢◌, refl, List, [], ◌∷◌, ◌++◌, pos}
use snippet.Posix.{codes}
use snippet.Posix.Ending.{Ended}
use snippet.Config.{text_eq}
use snippet.UserSemaphore.Utilities.{Reply, Call, SemaphoreSystem}
use snippet.UserSemaphore.Named.{Command, named_main}
use snippet.UserSemaphore.Unnamed.{
  Parent, Child, Turn, after_fork, take_turn, run_race, unnamed_main,
}
use snippet.UserSemaphore.Handshake.{
  OnlyRuns, point, rounds, run_race-points, run_race_ends, run_race_forsaken,
}
use snippet.UserSemaphore.Commands.{Performs, named_main-Performs}
use snippet.UserSemaphore.Success.{Willing, unnamed_main_succeeds, set_up}

-- A system on which every call succeeds.
abbrev willing_os : SemaphoreSystem
willing_os = record {
  clock_gettime = λ calls. Reply.gave tt;
  localtime = λ calls. Reply.gave tt;
  shm_open = λ calls. Reply.gave 3;
  ftruncate = λ calls fd size. Reply.gave tt;
  mmap = λ calls size. Reply.gave 4096;
  close = λ calls fd. Reply.gave tt;
  munmap = λ calls ptr size. Reply.gave tt;
  shm_unlink = λ calls. Reply.gave tt;
  sem_create = λ calls value. Reply.gave 8;
  sem_open = λ calls. Reply.gave 8;
  sem_unlink = λ calls. Reply.gave tt;
  sem_init = λ calls sem pshared value. Reply.gave tt;
  sem_destroy = λ calls sem. Reply.gave tt;
  sem_close = λ calls sem. Reply.gave tt;
  sem_post = λ calls sem. Reply.gave tt;
  sem_wait = λ calls sem. Reply.gave tt;
  sem_getvalue = λ calls sem. Reply.gave 5;
  fork = λ calls. Reply.gave tt;
}

named_get :
    named_main willing_os (codes "get" ∷ []) []
    ≡ (Ended.returned (pos 0), Call.closed 8 ∷ Call.read_value 8 5 ∷ Call.opened 8 ∷ [])
unfolding named_main text_eq
named_get = refl

named_main-Performs_example : Performs Command.post (named_main willing_os (codes "post" ∷ []) [])
named_main-Performs_example = named_main-Performs willing_os Command.post (codes "post") refl

abbrev child_first : List Turn
child_first = Turn.child_runs ∷ Turn.parent_runs ∷ Turn.parent_runs ∷ []

waits_in_vain : (run_race child_first after_fork).child ≡ Child.consuming
unfolding run_race after_fork
waits_in_vain = refl

run_race-points_example : (k : ℕ) × (k ≤ 5) × (run_race child_first after_fork ≡ point k)
run_race-points_example = run_race-points child_first tt

run_race_ends_example :
    run_race (child_first ++ rounds 4) after_fork
    ≡ record { parent = Parent.finished; child = Child.ended 0; parent_sem = 0; child_sem = 0 }
run_race_ends_example = run_race_ends child_first tt

alive : (run_race child_first after_fork).child ≢ Child.ended 0
alive e = cc (waits_in_vain, e)

later : OnlyRuns (rounds 9)
unfolding rounds
later = tt

run_race_forsaken_example :
    (run_race (rounds 9) (take_turn (Turn.child_fails 4) (run_race child_first after_fork))).parent
    ≢ Parent.finished
run_race_forsaken_example = run_race_forsaken child_first (rounds 9) 4 tt later alive

willing_os-Willing : Willing willing_os 3 4096
willing_os-Willing = record {
  shm_open = λ calls. refl;
  ftruncate = λ calls fd size. refl;
  mmap = λ calls size. refl;
  close = λ calls fd. refl;
  munmap = λ calls ptr size. refl;
  shm_unlink = λ calls. refl;
  sem_init = λ calls sem pshared value. refl;
  sem_destroy = λ calls sem. refl;
  fork = λ calls. refl;
}

unnamed_main_succeeds_example : unnamed_main willing_os 32 (child_first ++ rounds 4) [] ≡ (
  Ended.returned (pos 0),
  Call.shm_unlinked
      ∷ Call.unmapped 4096 64
      ∷ Call.destroyed 4128
      ∷ Call.destroyed 4096
      ∷ set_up 32 3 4096,
)
unnamed_main_succeeds_example =
    unnamed_main_succeeds willing_os 32 3 4096 willing_os-Willing child_first tt
