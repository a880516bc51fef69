-- ===== src/Semaphore/Exclusion.antt =====
-- semaphore_demo.c: whatever the schedule, one thread at a time is in its critical section.
use snippet.Base.{◌+◌, not, ◌≡◌, refl, List, [], ◌∷◌, length, ltb, ◌==◌, if-rule, arith}
use snippet.Semaphore.Racers.{
  InitStage, Demo, Turn, num_workers, demo_semaphore_start, start_racer, start_race, while_starting,
  take_turn, run_demo,
}
use snippet.Semaphore.Holders.{holds, refers, saw_violation, total, SoundAmid, run_racer-SoundAmid}

-- The same of all threads.
abbrev pub IsSound : Demo → Type 0
IsSound d = SoundAmid 0 0 0 d.ctx d.racers

while_starting-IsSound :
    (init : InitStage) (next d : Demo)
    → IsSound next
    → IsSound d
    → IsSound (while_starting init next d)
while_starting-IsSound InitStage.starting next d a b = a
while_starting-IsSound InitStage.failed next d a b = b
while_starting-IsSound InitStage.done next d a b = b

take_turn-IsSound : (turn : Turn) (d : Demo) → IsSound d → IsSound (take_turn turn d)
unfolding take_turn start_racer start_race
take_turn-IsSound (Turn.init_starts made) d i =
    while_starting-IsSound d.init (start_racer made d) d
      (if-rule IsSound (not (ltb (length d.racers) num_workers)) (λ all. i)
        (λ more.
          if-rule IsSound made
            (λ new. record {
              one_holder = omega (arith, i.one_holder);
              holders = omega (arith, i.holders);
              refs = omega (arith, i.refs);
              no_violation = omega (arith, i.no_violation);
            })
            (λ none_made. record {
              one_holder = i.one_holder;
              holders = i.holders;
              refs = i.refs;
              no_violation = i.no_violation;
            })))
      i
take_turn-IsSound Turn.init_ends d i =
    while_starting-IsSound d.init (start_race d) d
      (if-rule IsSound (length d.racers == num_workers)
        (λ all. record {
          one_holder = i.one_holder;
          holders = i.holders;
          refs = i.refs;
          no_violation = i.no_violation;
        })
        (λ more. i))
      i
take_turn-IsSound (Turn.racer n) d i = run_racer-SoundAmid n 0 0 0 d.ctx d.racers (omega arith) i

pub run_demo-IsSound : (turns : List Turn) (d : Demo) → IsSound d → IsSound (run_demo turns d)
unfolding run_demo
run_demo-IsSound [] d i = i
run_demo-IsSound (turn ∷ turns) d i =
    run_demo-IsSound turns (take_turn turn d) (take_turn-IsSound turn d i)

pub start-IsSound : IsSound demo_semaphore_start
start-IsSound = record { one_holder = refl; holders = refl; refs = refl; no_violation = refl }

-- Mutual exclusion: whatever the schedule of the init and the threads, at most one thread is past
-- `down` and not past `up`, and exactly one if the semaphore is 0; and no thread that is there has
-- found another in the critical section.
pub run_demo-exclusion :
    (turns : List Turn)
    → ((run_demo turns demo_semaphore_start).ctx.sem
          + total holds (run_demo turns demo_semaphore_start).racers
        ≡ 1)
      × (total saw_violation (run_demo turns demo_semaphore_start).racers ≡ 0)
run_demo-exclusion turns =
    let sound = run_demo-IsSound turns demo_semaphore_start start-IsSound in
    (omega (arith, sound.one_holder), sound.no_violation)

-- Whatever the schedule, the references to the module are as many as the threads that are not past
-- `out_put`; so once all threads have ended none is left, and the module can be unloaded.
pub run_demo-module_refs :
    (turns : List Turn)
    → (run_demo turns demo_semaphore_start).ctx.module_refs
      ≡ total refers (run_demo turns demo_semaphore_start).racers
run_demo-module_refs turns =
    let sound = run_demo-IsSound turns demo_semaphore_start start-IsSound in
    omega (arith, sound.refs)
