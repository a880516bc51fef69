-- ===== src/Semaphore/Tests.antt =====
-- Schedules of semaphore_demo.c, and the theorems at concrete ones.
use snippet.Base.{◌<◌, arith, false, neg, ℕ, ◌+◌, ◌≡◌, refl, true, List, [], ◌∷◌, ◌++◌, pos}
use snippet.Semaphore.Racers.{InitStage, Action, Stage, Turn, demo_semaphore_start, run_demo}
use snippet.Semaphore.Progress.{rank, run_demo-progress}
use snippet.Semaphore.Holders.{holds, saw_violation, total, refers}
use snippet.Semaphore.Exclusion.{run_demo-exclusion}

-- Six threads are made.
abbrev six_made : List Turn
six_made =
    Turn.init_starts true
    ∷ Turn.init_starts true
    ∷ Turn.init_starts true
    ∷ Turn.init_starts true
    ∷ Turn.init_starts true
    ∷ Turn.init_starts true
    ∷ Turn.init_ends
    ∷ []

-- Two of them go on by turns, up to the section of the first.
abbrev two_race : List Turn
two_race =
    Turn.racer 0
    ∷ Turn.racer 1
    ∷ Turn.racer 0
    ∷ Turn.racer 1
    ∷ Turn.racer 0
    ∷ Turn.racer 1
    ∷ Turn.racer 0
    ∷ Turn.racer 1
    ∷ Turn.racer 0
    ∷ Turn.racer 1
    ∷ []

second_waits :
    (run_demo (six_made ++ two_race) demo_semaphore_start).racers
    ≡ Stage.in_section (pos 0)
      ∷ Stage.at_down
      ∷ Stage.at_start
      ∷ Stage.at_start
      ∷ Stage.at_start
      ∷ Stage.at_start
      ∷ []
unfolding run_demo
second_waits = refl

run_demo-exclusion_example :
    ((run_demo (six_made ++ two_race) demo_semaphore_start).ctx.sem
        + total holds (run_demo (six_made ++ two_race) demo_semaphore_start).racers
      ≡ 1)
    × (total saw_violation (run_demo (six_made ++ two_race) demo_semaphore_start).racers ≡ 0)
run_demo-exclusion_example = run_demo-exclusion (six_made ++ two_race)

-- The second thread cannot be made.
abbrev aborted : List Turn
aborted =
    Turn.init_starts true
    ∷ Turn.racer 0
    ∷ Turn.init_starts false
    ∷ Turn.racer 0
    ∷ Turn.racer 0
    ∷ Turn.racer 0
    ∷ []

init_failed : (run_demo aborted demo_semaphore_start).init ≡ InitStage.failed
unfolding run_demo
init_failed = refl

thread_gives_up : (run_demo aborted demo_semaphore_start).racers ≡ Stage.finished (neg 1) ∷ []
unfolding run_demo
thread_gives_up = refl

race_is_on : (run_demo (six_made ++ two_race) demo_semaphore_start).ctx.action ≡ Action.racer_race
unfolding run_demo
race_is_on = refl

six_left : total refers (run_demo (six_made ++ two_race) demo_semaphore_start).racers ≡ 6
unfolding run_demo
six_left = refl

run_demo-progress_example :
    (i : ℕ) × (total rank (run_demo (six_made ++ two_race) demo_semaphore_start).racers
      < total rank
          (run_demo ((six_made ++ two_race) ++ Turn.racer i ∷ []) demo_semaphore_start).racers)
run_demo-progress_example =
    run_demo-progress (six_made ++ two_race) (λ waits. cc (race_is_on)) (omega (arith, six_left))
