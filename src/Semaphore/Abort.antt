-- ===== src/Semaphore/Abort.antt =====
-- semaphore_demo.c: an init that fails lets no thread into the critical section.
use Prim.{tt}
use snippet.Base.{
  ℕ, ◌≤◌, ◌<◌, Bool, not, ◌≡◌, refl, sym, subst, List, [], ◌∷◌, length, ltb, ◌==◌, ==_iff, if-rule,
  arith,
}
use snippet.Semaphore.Racers.{
  Stage, InitStage, Demo, Turn, num_workers, run_racer, demo_semaphore_start, start_racer,
  start_race, while_starting, take_turn, run_demo,
}
use snippet.Semaphore.Holders.{total}
use snippet.Semaphore.Early.{races, Below, AllBelow, IsEarly, run_racer-length, run_racer-IsEarly}

-- With fewer threads than it takes no race is on; and an init that has failed has made fewer.
record CannotRace (d : Demo) : Type 0 where
  early : length d.racers < num_workers → IsEarly 0 (length d.racers) d.ctx d.racers
  few : d.init ≡ InitStage.failed → length d.racers < num_workers

Below-mono : (m n : ℕ) (s : Stage) → m ≤ n → Below m s → Below n s
Below-mono m n (Stage.counted_ready k) le h = omega arith
Below-mono m n Stage.at_start le h = tt
Below-mono m n Stage.spinning le h = tt
Below-mono m n Stage.at_down le h = tt
Below-mono m n Stage.entered le h = tt
Below-mono m n (Stage.in_section ret) le h = tt
Below-mono m n (Stage.at_up ret) le h = tt
Below-mono m n (Stage.at_put ret) le h = tt
Below-mono m n (Stage.finished ret) le h = tt

AllBelow-mono : (m n : ℕ) (racers : List Stage) → m ≤ n → AllBelow m racers → AllBelow n racers
AllBelow-mono m n [] le h = tt
AllBelow-mono m n (s ∷ rest) le h = (Below-mono m n s le h.0, AllBelow-mono m n rest le h.1)

start_racer-CannotRace :
    (made : Bool) (d : Demo)
    → d.init ≡ InitStage.starting
    → CannotRace d
    → CannotRace (start_racer made d)
unfolding start_racer
start_racer-CannotRace made d e h =
    if-rule CannotRace (not (ltb (length d.racers) num_workers)) (λ all. h)
      (λ more.
        let some_left : length d.racers < num_workers = ground arith in
        let early = h.early some_left in
        if-rule CannotRace made
          (λ new. record {
            early = λ few. record {
              counts = omega (arith, early.counts);
              fits = omega arith;
              below = (tt, AllBelow-mono _ _ d.racers (omega arith) early.below);
              no_race = early.no_race;
              waits = omega (arith, early.waits);
            };
            few = λ failed. cc;
          })
          (λ none_made. record {
            early = λ few. record {
              counts = early.counts;
              fits = early.fits;
              below = early.below;
              no_race = λ race. cc;
              waits = early.waits;
            };
            few = λ failed. some_left;
          }))

start_race-CannotRace :
    (d : Demo) → d.init ≡ InitStage.starting → CannotRace d → CannotRace (start_race d)
unfolding start_race
start_race-CannotRace d e h =
    if-rule CannotRace (length d.racers == num_workers)
      (λ all. record {
        early = λ few. absurd (omega (arith, few, (==_iff (length d.racers) num_workers).0 all));
        few = λ failed. cc;
      })
      (λ more. h)

while_starting-CannotRace :
    (init : InitStage) (next d : Demo)
    → (init ≡ InitStage.starting → CannotRace next)
    → CannotRace d
    → CannotRace (while_starting init next d)
while_starting-CannotRace InitStage.starting next d a b = a refl
while_starting-CannotRace InitStage.failed next d a b = b
while_starting-CannotRace InitStage.done next d a b = b

take_turn-CannotRace : (turn : Turn) (d : Demo) → CannotRace d → CannotRace (take_turn turn d)
unfolding take_turn
take_turn-CannotRace (Turn.init_starts made) d h =
    while_starting-CannotRace d.init (start_racer made d) d (λ e. start_racer-CannotRace made d e h)
      h
take_turn-CannotRace Turn.init_ends d h =
    while_starting-CannotRace d.init (start_race d) d (λ e. start_race-CannotRace d e h) h
take_turn-CannotRace (Turn.racer i) d h =
    let same = run_racer-length i d.ctx d.racers in
    record {
      early = λ few.
          let fewer : length d.racers < num_workers = omega (arith, few, same) in
          subst (λ n. IsEarly 0 n (run_racer i d.ctx d.racers).0 (run_racer i d.ctx d.racers).1)
            (sym same)
            (run_racer-IsEarly i 0 (length d.racers) d.ctx d.racers fewer (h.early fewer));
      few = λ failed. omega (arith, h.few failed, same);
    }

run_demo-CannotRace : (turns : List Turn) (d : Demo) → CannotRace d → CannotRace (run_demo turns d)
unfolding run_demo
run_demo-CannotRace [] d h = h
run_demo-CannotRace (turn ∷ turns) d h =
    run_demo-CannotRace turns (take_turn turn d) (take_turn-CannotRace turn d h)

start-CannotRace : CannotRace demo_semaphore_start
start-CannotRace = record {
  early = λ few. record {
    counts = refl;
    fits = omega arith;
    below = tt;
    no_race = λ e. cc;
    waits = refl;
  };
  few = λ failed. cc;
}

-- If the init has failed to make a thread, then whatever the schedule was before and is after, no
-- thread is told to race, so none reaches `down` or the critical section.
pub run_demo-abort :
    (turns : List Turn)
    → (run_demo turns demo_semaphore_start).init ≡ InitStage.failed
    → total races (run_demo turns demo_semaphore_start).racers ≡ 0
run_demo-abort turns failed =
    let h = run_demo-CannotRace turns demo_semaphore_start start-CannotRace in
    (h.early (h.few failed)).waits
