-- ===== src/Semaphore/Racers.antt =====
-- kernel-module/semaphore/semaphore_demo.c: `do_race` and `demo_semaphore_init`, one access to the
-- shared context at a time. `down`, `up` and the atomic operations are single steps; a thread that
-- spins or is blocked stays where it is.
use snippet.Base.{
  ℕ, zero, suc, ◌+◌, ◌-◌, Bool, not, List, [], ◌∷◌, length, ltb, ◌==◌, if◌then◌else◌, ℤ, pos, neg,
}

abbrev pub num_workers : ℕ
num_workers = 6

-- RACER_WAIT, RACER_RACE and RACER_ABORT
pub data Action : Type 0 where
  racer_wait racer_race racer_abort : Action

-- `g_demo_ctx`, and the references to the module that the threads hold.
pub record DemoContext : Type 0 where
  pub sem : ℕ
  pub ready_count : ℕ
  pub holder_count : ℕ
  pub action : Action
  pub module_refs : ℕ

-- Where a thread stands in `do_race`, with the variables that it still needs: before the first
-- statement, before the test of `current_ready_count`, at the loop, at `down`, before the count of
-- holders, at the end of its critical section, at `up`, at `out_put`, and behind its end.
pub data Stage : Type 0 where
  at_start : Stage
  counted_ready : (current_ready_count : ℕ) → Stage
  spinning : Stage
  at_down : Stage
  entered : Stage
  in_section : (ret : ℤ) → Stage
  at_up : (ret : ℤ) → Stage
  at_put : (ret : ℤ) → Stage
  finished : (ret : ℤ) → Stage

abbrev pub spin : Action → Stage
spin Action.racer_wait = Stage.spinning
spin Action.racer_race = Stage.at_down
spin Action.racer_abort = Stage.at_put (neg 1)

-- `down`, which waits for a count above 0.
abbrev pub down : ℕ → DemoContext → DemoContext × Stage
down zero c = (c, Stage.at_down)
down (suc n) c = (record c { sem = n }, Stage.entered)

-- The next step of a thread.
unfoldable pub do_race : DemoContext → Stage → DemoContext × Stage
do_race c Stage.at_start =
    let ready = c.ready_count + 1 in (record c { ready_count = ready }, Stage.counted_ready ready)
do_race c (Stage.counted_ready current_ready_count) =
    if current_ready_count == num_workers
    then (record c { action = Action.racer_race }, Stage.spinning)
    else (c, Stage.spinning)
do_race c Stage.spinning = (c, spin c.action)
do_race c Stage.at_down = down c.sem c
do_race c Stage.entered =
    let holders = c.holder_count + 1 in
    (
      record c { holder_count = holders },
      Stage.in_section (if not (holders == 1) then neg 1 else pos 0),
    )
do_race c (Stage.in_section ret) = (record c { holder_count = c.holder_count - 1 }, Stage.at_up ret)
do_race c (Stage.at_up ret) = (record c { sem = c.sem + 1 }, Stage.at_put ret)
do_race c (Stage.at_put ret) = (record c { module_refs = c.module_refs - 1 }, Stage.finished ret)
do_race c (Stage.finished ret) = (c, Stage.finished ret)

-- A step of the thread with this number; of none if there is none.
unfoldable pub run_racer : ℕ → DemoContext → List Stage → DemoContext × List Stage
unfolding do_race
run_racer i c [] = (c, [])
run_racer zero c (s ∷ rest) = let (c', s') = do_race c s in (c', s' ∷ rest)
run_racer (suc i) c (s ∷ rest) = let (c', rest') = run_racer i c rest in (c', s ∷ rest')

-- How far `demo_semaphore_init` is.
pub data InitStage : Type 0 where
  starting failed done : InitStage

pub record Demo : Type 0 where
  pub ctx : DemoContext
  pub racers : List Stage
  pub init : InitStage

-- Before the loop of `demo_semaphore_init`.
abbrev pub demo_semaphore_start : Demo
demo_semaphore_start = record {
  ctx = record {
    sem = 1;
    ready_count = 0;
    holder_count = 0;
    action = Action.racer_wait;
    module_refs = 0;
  };
  racers = [];
  init = InitStage.starting;
}

-- `__module_get` and `kthread_run`: with a thread made, or with an error.
unfoldable pub start_racer : Bool → Demo → Demo
start_racer made d =
    if not (ltb (length d.racers) num_workers)
    then d
    else if made
    then record d {
      ctx = record d.ctx { module_refs = d.ctx.module_refs + 1 };
      racers = Stage.at_start ∷ d.racers;
    }
    else record d { ctx = record d.ctx { action = Action.racer_abort }; init = InitStage.failed }

-- The end of `demo_semaphore_init`, once all threads are made.
unfoldable pub start_race : Demo → Demo
start_race d =
    if length d.racers == num_workers
    then record d { ctx = record d.ctx { action = Action.racer_race }; init = InitStage.done }
    else d

-- Who goes next: the init with the next thread, the init with its end, or a thread.
pub data Turn : Type 0 where
  init_starts : (made : Bool) → Turn
  init_ends : Turn
  racer : (i : ℕ) → Turn

abbrev pub while_starting : InitStage → Demo → Demo → Demo
while_starting InitStage.starting next d = next
while_starting InitStage.failed next d = d
while_starting InitStage.done next d = d

unfoldable pub take_turn : Turn → Demo → Demo
unfolding start_racer start_race run_racer
take_turn (Turn.init_starts made) d = while_starting d.init (start_racer made d) d
take_turn Turn.init_ends d = while_starting d.init (start_race d) d
take_turn (Turn.racer i) d =
    let (c, racers) = run_racer i d.ctx d.racers in record d { ctx = c; racers = racers }

-- A schedule, the first turn first.
unfoldable pub run_demo : List Turn → Demo → Demo
unfolding take_turn
run_demo [] d = d
run_demo (turn ∷ turns) d = run_demo turns (take_turn turn d)
