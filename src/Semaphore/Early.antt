-- ===== src/Semaphore/Early.antt =====
-- semaphore_demo.c: threads that are too few for a race to begin.
use Prim.{Unit, tt}
use snippet.Base.{
  ℕ, zero, suc, ◌+◌, ◌≤◌, ◌<◌, ◌≡◌, ◌≢◌, refl, sym, ap, ◌∙◌, List, [], ◌∷◌, length, ◌==◌, ==_iff,
  if-rule, arith,
}
use snippet.Semaphore.Racers.{Action, DemoContext, Stage, num_workers, spin, do_race, run_racer}
use snippet.Semaphore.Holders.{total}

-- 1 for a thread that has been told to race, up to `up`.
abbrev pub races : Stage → ℕ
races Stage.at_down = 1
races Stage.entered = 1
races (Stage.in_section ret) = 1
races (Stage.at_up ret) = 1
races s = 0

-- 1 for a thread that is counted as ready.
abbrev pub is_ready : Stage → ℕ
is_ready Stage.at_start = 0
is_ready s = 1

-- A thread between its count and its test has counted no more than `most` threads.
abbrev pub Below : ℕ → Stage → Type 0
Below most (Stage.counted_ready n) = n ≤ most
Below most s = Unit

abbrev pub AllBelow : ℕ → List Stage → Type 0
AllBelow most [] = Unit
AllBelow most (s ∷ rest) = Below most s × AllBelow most rest

-- A thread amid others, of which `ready` are ready, of `most` threads in all; no race is on.
record IsEarlyOne (ready most : ℕ) (c : DemoContext) (s : Stage) : Type 0 where
  counts : c.ready_count ≡ is_ready s + ready
  fits : ready < most
  below : Below most s
  no_race : c.action ≢ Action.racer_race
  waits : races s ≡ 0

spin-waits : (a : Action) → a ≢ Action.racer_race → races (spin a) ≡ 0
spin-waits Action.racer_wait h = refl
spin-waits Action.racer_race h = absurd (h refl)
spin-waits Action.racer_abort h = refl

spin-ready : (a : Action) → is_ready (spin a) ≡ 1
spin-ready Action.racer_wait = refl
spin-ready Action.racer_race = refl
spin-ready Action.racer_abort = refl

spin-Below : (most : ℕ) (a : Action) → Below most (spin a)
spin-Below most Action.racer_wait = tt
spin-Below most Action.racer_race = tt
spin-Below most Action.racer_abort = tt

do_race-IsEarlyOne :
    (ready most : ℕ) (c : DemoContext) (s : Stage)
    → most < num_workers
    → IsEarlyOne ready most c s
    → IsEarlyOne ready most (do_race c s).0 (do_race c s).1
unfolding do_race
do_race-IsEarlyOne r m c Stage.at_start few i = record {
  counts = omega (arith, i.counts);
  fits = i.fits;
  below = omega (arith, i.counts, i.fits);
  no_race = i.no_race;
  waits = refl;
}
do_race-IsEarlyOne r m c (Stage.counted_ready n) few i =
    if-rule (λ (q : DemoContext × Stage). IsEarlyOne r m q.0 q.1) (n == num_workers)
      (λ last. absurd (omega (arith, few, i.below, (==_iff n num_workers).0 last)))
      (λ other. record {
        counts = i.counts;
        fits = i.fits;
        below = tt;
        no_race = i.no_race;
        waits = refl;
      })
do_race-IsEarlyOne r m c Stage.spinning few i = record {
  counts = i.counts ∙ ap (λ n. n + r) (sym (spin-ready c.action));
  fits = i.fits;
  below = spin-Below m c.action;
  no_race = i.no_race;
  waits = spin-waits c.action i.no_race;
}
do_race-IsEarlyOne r m c Stage.at_down few i = absurd (omega (arith, i.waits))
do_race-IsEarlyOne r m c Stage.entered few i = absurd (omega (arith, i.waits))
do_race-IsEarlyOne r m c (Stage.in_section ret) few i = absurd (omega (arith, i.waits))
do_race-IsEarlyOne r m c (Stage.at_up ret) few i = absurd (omega (arith, i.waits))
do_race-IsEarlyOne r m c (Stage.at_put ret) few i = record {
  counts = i.counts;
  fits = i.fits;
  below = tt;
  no_race = i.no_race;
  waits = refl;
}
do_race-IsEarlyOne r m c (Stage.finished ret) few i = i

-- The same of threads amid others.
pub record IsEarly (ready most : ℕ) (c : DemoContext) (racers : List Stage) : Type 0 where
  pub counts : c.ready_count ≡ total is_ready racers + ready
  pub fits : length racers + ready ≤ most
  pub below : AllBelow most racers
  pub no_race : c.action ≢ Action.racer_race
  pub waits : total races racers ≡ 0

is_ready_le : (s : Stage) → is_ready s ≤ 1
is_ready_le s = elim s as (λ (k : Stage). is_ready k ≤ 1) [
  | Stage.at_start ↦ omega arith
  | _ ↦ omega arith
]

ready-length : (racers : List Stage) → total is_ready racers ≤ length racers
ready-length [] = omega arith
ready-length (s ∷ rest) = omega (arith, is_ready_le s, ready-length rest)

pub run_racer-length :
    (i : ℕ) (c : DemoContext) (racers : List Stage)
    → length (run_racer i c racers).1 ≡ length racers
unfolding run_racer
run_racer-length i c [] = refl
run_racer-length zero c (s ∷ rest) = refl
run_racer-length (suc i) c (s ∷ rest) = ap suc (run_racer-length i c rest)

pub run_racer-IsEarly :
    (i ready most : ℕ) (c : DemoContext) (racers : List Stage)
    → most < num_workers
    → IsEarly ready most c racers
    → IsEarly ready most (run_racer i c racers).0 (run_racer i c racers).1
unfolding run_racer
run_racer-IsEarly i r m c [] few e = e
run_racer-IsEarly zero r m c (s ∷ rest) few e =
    let step = do_race-IsEarlyOne (total is_ready rest + r) m c s few (record {
      counts = omega (arith, e.counts);
      fits = omega (arith, e.fits, ready-length rest);
      below = e.below.0;
      no_race = e.no_race;
      waits = omega (arith, e.waits);
    }) in
    record {
      counts = omega (arith, step.counts);
      fits = e.fits;
      below = (step.below, e.below.1);
      no_race = step.no_race;
      waits = omega (arith, step.waits, e.waits);
    }
run_racer-IsEarly (suc i) r m c (s ∷ rest) few e =
    let later = run_racer-IsEarly i (is_ready s + r) m c rest few (record {
      counts = omega (arith, e.counts);
      fits = omega (arith, e.fits, is_ready_le s);
      below = e.below.1;
      no_race = e.no_race;
      waits = omega (arith, e.waits);
    }) in
    record {
      counts = omega (arith, later.counts);
      fits = omega (arith, e.fits, run_racer-length i c rest);
      below = (e.below.0, later.below);
      no_race = later.no_race;
      waits = omega (arith, later.waits, e.waits);
    }
