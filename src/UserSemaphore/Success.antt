-- ===== src/UserSemaphore/Success.antt =====
-- linux-c/semaphore/unnamed-semaphore.c: a run in which no call fails.
use snippet.Base.{ℕ, ◌+◌, ◌*◌, ◌≡◌, refl, List, [], ◌∷◌, ◌++◌, pos}
use snippet.Posix.Ending.{Ended}
use snippet.UserSemaphore.Utilities.{
  Reply, Call, Calls, SemaphoreSystem, get_shm, put_shm, init_semaphore, destroy_semaphore,
}
use snippet.UserSemaphore.Unnamed.{Turn, clean_up, unnamed_main}
use snippet.UserSemaphore.Handshake.{OnlyRuns, rounds, run_race_ends}

-- A system that lets every call of the program succeed, with that descriptor and address.
pub record Willing (os : SemaphoreSystem) (fd ptr : ℕ) : Type 0 where
  pub shm_open : (calls : Calls) → os.shm_open calls ≡ Reply.gave fd
  pub ftruncate : (calls : Calls) (fd size : ℕ) → os.ftruncate calls fd size ≡ Reply.gave tt
  pub mmap : (calls : Calls) (size : ℕ) → os.mmap calls size ≡ Reply.gave ptr
  pub close : (calls : Calls) (fd : ℕ) → os.close calls fd ≡ Reply.gave tt
  pub munmap : (calls : Calls) (ptr size : ℕ) → os.munmap calls ptr size ≡ Reply.gave tt
  pub shm_unlink : (calls : Calls) → os.shm_unlink calls ≡ Reply.gave tt
  pub sem_init :
      (calls : Calls) (sem pshared value : ℕ) → os.sem_init calls sem pshared value ≡ Reply.gave tt
  pub sem_destroy : (calls : Calls) (sem : ℕ) → os.sem_destroy calls sem ≡ Reply.gave tt
  pub fork : (calls : Calls) → os.fork calls ≡ Reply.gave tt

-- What is set up before the fork, the latest first.
abbrev pub set_up : (sizeof_sem fd ptr : ℕ) → Calls
set_up sizeof_sem fd ptr =
    Call.initialized (ptr + sizeof_sem) 1
    ∷ Call.initialized ptr 1
    ∷ Call.fd_closed fd
    ∷ Call.mapped ptr (sizeof_sem * 2)
    ∷ Call.truncated fd (sizeof_sem * 2)
    ∷ Call.shm_opened fd
    ∷ []

module _ (os : SemaphoreSystem) (sizeof_sem fd ptr : ℕ) (willing : Willing os fd ptr) where
  -- If no call fails, the program returns 0 within four rounds behind any schedule. It has then
  -- destroyed both semaphores, unmapped the memory, unlinked its name and closed the descriptor.
  pub unnamed_main_succeeds :
      (turns : List Turn)
      → OnlyRuns turns
      → unnamed_main os sizeof_sem (turns ++ rounds 4) [] ≡ (
        Ended.returned (pos 0),
        Call.shm_unlinked
            ∷ Call.unmapped ptr (sizeof_sem * 2)
            ∷ Call.destroyed (ptr + sizeof_sem)
            ∷ Call.destroyed ptr
            ∷ set_up sizeof_sem fd ptr,
      )
  unfolding unnamed_main get_shm init_semaphore clean_up destroy_semaphore put_shm
  unnamed_main_succeeds turns runs =
      rw
        (
          willing.shm_open [],
          willing.ftruncate _ fd (sizeof_sem * 2),
          willing.mmap _ (sizeof_sem * 2),
          willing.close _ fd,
          willing.sem_init _ ptr 1 0,
          willing.sem_init _ (ptr + sizeof_sem) 1 0,
          willing.fork _,
          run_race_ends turns runs,
          willing.sem_destroy _ ptr,
          willing.sem_destroy _ (ptr + sizeof_sem),
          willing.munmap _ ptr (sizeof_sem * 2),
          willing.shm_unlink _,
        )
        refl
