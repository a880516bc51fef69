-- ===== src/UserSemaphore/Utilities.antt =====
-- linux-c/semaphore/semaphore-utils.h: each wrapper makes its calls and leaves the process with
-- `errno` when one fails. The answers of the system are a parameter; `print_msg` prints only after it
-- has asked for the time.
use snippet.Base.{ℕ, ◌≡◌, refl, List, ◌∷◌, pos}
use snippet.Posix.Ending.{Ended, Action, continue, ◌>>=◌, ◌>>◌, pure, exit, modify, ask}

-- What a call says: its result, or -1 and `errno`.
pub data Reply (A : Type 0) : Type 0 where
  gave : A → Reply A
  failed : (errno : ℕ) → Reply A

-- A call that was made. `sem` and `ptr` are addresses.
pub data Call : Type 0 where
  shm_opened fd_closed : (fd : ℕ) → Call
  truncated : (fd size : ℕ) → Call
  mapped unmapped : (ptr size : ℕ) → Call
  shm_unlinked : Call
  created opened closed : (sem : ℕ) → Call
  unlinked : Call
  initialized : (sem pshared : ℕ) → Call
  destroyed posted waited : (sem : ℕ) → Call
  read_value : (sem value : ℕ) → Call

-- The latest first.
abbrev pub Calls : Type 0
Calls = List Call

abbrev pub sem_init_value : ℕ
sem_init_value = 0

pub record SemaphoreSystem : Type 0 where
  pub clock_gettime : Calls → Reply (Unit {0})
  pub localtime : Calls → Reply (Unit {0})
  pub shm_open : Calls → Reply ℕ
  pub ftruncate : Calls → (fd size : ℕ) → Reply (Unit {0})
  pub mmap : Calls → (size : ℕ) → Reply ℕ
  pub close : Calls → (fd : ℕ) → Reply (Unit {0})
  pub munmap : Calls → (ptr size : ℕ) → Reply (Unit {0})
  pub shm_unlink : Calls → Reply (Unit {0})
  -- with `O_CREAT | O_EXCL` and an initial value, and without
  pub sem_create : Calls → (value : ℕ) → Reply ℕ
  pub sem_open : Calls → Reply ℕ
  pub sem_unlink : Calls → Reply (Unit {0})
  pub sem_init : Calls → (sem pshared value : ℕ) → Reply (Unit {0})
  pub sem_destroy : Calls → (sem : ℕ) → Reply (Unit {0})
  pub sem_close : Calls → (sem : ℕ) → Reply (Unit {0})
  pub sem_post : Calls → (sem : ℕ) → Reply (Unit {0})
  pub sem_wait : Calls → (sem : ℕ) → Reply (Unit {0})
  pub sem_getvalue : Calls → (sem : ℕ) → Reply ℕ
  pub fork : Calls → Reply (Unit {0})

-- `if (ret == -1) exit(errno)`
abbrev pub or_exit_errno : {A : Type 0} → Reply A → Action Calls A
or_exit_errno (Reply.gave a) = pure a
or_exit_errno (Reply.failed errno) = exit (pos errno)

-- A call that is checked so.
abbrev pub checked : {A : Type 0} → (Calls → Reply A) → Action Calls A
checked call calls = or_exit_errno (call calls) calls

-- What holds after such a call and what follows it.
pub checked-rule :
    {A B : Type 0} (P : Ended B × Calls → Type 0) (next : A → Action Calls B)
    (call : Calls → Reply A) (calls : Calls)
    → ((errno : ℕ) → call calls ≡ Reply.failed errno → P (Ended.exited (pos errno), calls))
    → ((a : A) → call calls ≡ Reply.gave a → P (next a calls))
    → P (continue next (checked call calls))
checked-rule {A} P next call calls left went = from_reply (call calls) refl
  where
    from_reply : (r : Reply A) → call calls ≡ r → P (continue next (or_exit_errno r calls))
    from_reply (Reply.gave a) e = went a e
    from_reply (Reply.failed errno) e = left errno e

abbrev pub does : Call → Action Calls (Unit {0})
does call = modify (λ calls. call ∷ calls)

module _ (os : SemaphoreSystem) where
  unfoldable pub print_msg : Action Calls (Unit {0})
  print_msg = do checked os.clock_gettime; checked os.localtime

  unfoldable pub get_shm : ℕ → Action Calls ℕ
  get_shm size = do
    fd ← checked os.shm_open
    does (Call.shm_opened fd)
    checked (λ calls. os.ftruncate calls fd size)
    does (Call.truncated fd size)
    ptr ← checked (λ calls. os.mmap calls size)
    does (Call.mapped ptr size)
    checked (λ calls. os.close calls fd)
    does (Call.fd_closed fd)
    pure ptr

  unfoldable pub put_shm : ℕ → ℕ → Action Calls (Unit {0})
  put_shm ptr size = do
    checked (λ calls. os.munmap calls ptr size)
    does (Call.unmapped ptr size)
    checked os.shm_unlink
    does Call.shm_unlinked

  unfoldable pub create_semaphore : Action Calls ℕ
  create_semaphore = do
    sem ← checked (λ calls. os.sem_create calls sem_init_value)
    does (Call.created sem)
    pure sem

  unfoldable pub unlink_semaphore : Action Calls (Unit {0})
  unlink_semaphore = do ret ← ask os.sem_unlink; or_exit_errno ret; does Call.unlinked

  unfoldable pub init_semaphore : ℕ → ℕ → Action Calls (Unit {0})
  init_semaphore sem pshared = do
    checked (λ calls. os.sem_init calls sem pshared sem_init_value)
    does (Call.initialized sem pshared)

  unfoldable pub destroy_semaphore : ℕ → Action Calls (Unit {0})
  destroy_semaphore sem = do checked (λ calls. os.sem_destroy calls sem); does (Call.destroyed sem)

  unfoldable pub open_semaphore : Action Calls ℕ
  open_semaphore = do sem ← checked os.sem_open; does (Call.opened sem); pure sem

  unfoldable pub close_semaphore : ℕ → Action Calls (Unit {0})
  close_semaphore sem = do checked (λ calls. os.sem_close calls sem); does (Call.closed sem)

  unfoldable pub post_semaphore : ℕ → Action Calls (Unit {0})
  post_semaphore sem = do checked (λ calls. os.sem_post calls sem); does (Call.posted sem)

  unfoldable pub wait_semaphore : ℕ → Action Calls (Unit {0})
  wait_semaphore sem = do checked (λ calls. os.sem_wait calls sem); does (Call.waited sem)

  unfoldable pub get_semaphore : ℕ → Action Calls (Unit {0})
  unfolding print_msg
  get_semaphore sem = do
    value ← checked (λ calls. os.sem_getvalue calls sem)
    does (Call.read_value sem value)
    print_msg
