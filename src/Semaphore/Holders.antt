-- ===== src/Semaphore/Holders.antt =====
-- semaphore_demo.c: what one thread's step does to the semaphore and the counts.
use snippet.Base.{
  ℕ, zero, suc, ◌+◌, ◌≤◌, Bool, true, not, ◌≡◌, refl, sym, subst, List, [], ◌∷◌, ◌==◌, ==_iff,
  if◌then◌else◌, if-rule, ℤ, pos, neg, negsuc, arith,
}
use snippet.Semaphore.Racers.{
  Action, DemoContext, Stage, num_workers, spin, down, do_race, run_racer,
}

-- 1 for a thread that is past `down` and not past `up`.
abbrev pub holds : Stage → ℕ
holds Stage.entered = 1
holds (Stage.in_section ret) = 1
holds (Stage.at_up ret) = 1
holds s = 0

-- 1 for a thread that is counted as a holder.
abbrev pub is_counted : Stage → ℕ
is_counted (Stage.in_section ret) = 1
is_counted s = 0

-- 1 for a thread that has not given its reference back.
abbrev pub refers : Stage → ℕ
refers (Stage.finished ret) = 0
refers s = 1

-- 1 for a thread that has found another in the critical section.
abbrev pub is_wrong : ℤ → ℕ
is_wrong (pos n) = 0
is_wrong (negsuc n) = 1

abbrev pub saw_violation : Stage → ℕ
saw_violation (Stage.in_section ret) = is_wrong ret
saw_violation (Stage.at_up ret) = is_wrong ret
saw_violation s = 0

abbrev pub total : (Stage → ℕ) → List Stage → ℕ
total w [] = 0
total w (s ∷ rest) = w s + total w rest

-- Amid other threads, of which `holding` are past `down`, `counted` are counted and `referring`
-- refer to the module: the semaphore and the threads past `down` make one, the counts are right,
-- and none of these threads has seen another in the critical section.
pub record SoundAmid (holding counted referring : ℕ) (c : DemoContext) (racers : List Stage)
    : Type 0 where
  pub one_holder : c.sem + (total holds racers + holding) ≡ 1
  pub holders : c.holder_count ≡ total is_counted racers + counted
  pub refs : c.module_refs ≡ total refers racers + referring
  pub no_violation : total saw_violation racers ≡ 0

-- The same of one thread.
record StepsSoundly (holding counted referring : ℕ) (c : DemoContext) (s : Stage) : Type 0 where
  one_holder : c.sem + (holds s + holding) ≡ 1
  holders : c.holder_count ≡ is_counted s + counted
  refs : c.module_refs ≡ refers s + referring
  no_violation : saw_violation s ≡ 0

spin-StepsSoundly :
    (h k r : ℕ) (c : DemoContext)
    → StepsSoundly h k r c Stage.spinning
    → (a : Action) → StepsSoundly h k r c (spin a)
spin-StepsSoundly h k r c i Action.racer_wait = i
spin-StepsSoundly h k r c i Action.racer_race = record {
  one_holder = i.one_holder;
  holders = i.holders;
  refs = i.refs;
  no_violation = refl;
}
spin-StepsSoundly h k r c i Action.racer_abort = record {
  one_holder = i.one_holder;
  holders = i.holders;
  refs = i.refs;
  no_violation = refl;
}

down-StepsSoundly :
    (h k r : ℕ) (c : DemoContext)
    → StepsSoundly h k r c Stage.at_down
    → (n : ℕ) → c.sem ≡ n
    → StepsSoundly h k r (down n c).0 (down n c).1
down-StepsSoundly h k r c i zero e = i
down-StepsSoundly h k r c i (suc n) e = record {
  one_holder = omega (arith, e, i.one_holder);
  holders = i.holders;
  refs = i.refs;
  no_violation = refl;
}

do_race-StepsSoundly :
    (holding counted referring : ℕ) (c : DemoContext) (s : Stage)
    → counted ≤ holding
    → StepsSoundly holding counted referring c s
    → StepsSoundly holding counted referring (do_race c s).0 (do_race c s).1
unfolding do_race
do_race-StepsSoundly h k r c Stage.at_start le i = record {
  one_holder = i.one_holder;
  holders = i.holders;
  refs = i.refs;
  no_violation = refl;
}
do_race-StepsSoundly h k r c (Stage.counted_ready n) le i =
    if-rule (λ (q : DemoContext × Stage). StepsSoundly h k r q.0 q.1) (n == num_workers)
      (λ last. record {
        one_holder = i.one_holder;
        holders = i.holders;
        refs = i.refs;
        no_violation = refl;
      })
      (λ other. record {
        one_holder = i.one_holder;
        holders = i.holders;
        refs = i.refs;
        no_violation = refl;
      })
do_race-StepsSoundly h k r c Stage.spinning le i = spin-StepsSoundly h k r c i c.action
do_race-StepsSoundly h k r c Stage.at_down le i = down-StepsSoundly h k r c i c.sem refl
do_race-StepsSoundly h k r c Stage.entered le i =
    let first : (c.holder_count + 1 == 1) ≡ true =
      (==_iff _ _).1 (omega (arith, i.holders, i.one_holder)) in
    subst
      (λ (b : Bool).
        StepsSoundly h k r (record c { holder_count = c.holder_count + 1 })
          (Stage.in_section (if not b then neg 1 else pos 0)))
      (sym first)
      (record {
        one_holder = i.one_holder;
        holders = omega (arith, i.holders);
        refs = i.refs;
        no_violation = refl;
      })
do_race-StepsSoundly h k r c (Stage.in_section ret) le i = record {
  one_holder = i.one_holder;
  holders = omega (arith, i.holders);
  refs = i.refs;
  no_violation = i.no_violation;
}
do_race-StepsSoundly h k r c (Stage.at_up ret) le i = record {
  one_holder = omega (arith, i.one_holder);
  holders = i.holders;
  refs = i.refs;
  no_violation = refl;
}
do_race-StepsSoundly h k r c (Stage.at_put ret) le i = record {
  one_holder = i.one_holder;
  holders = i.holders;
  refs = omega (arith, i.refs);
  no_violation = refl;
}
do_race-StepsSoundly h k r c (Stage.finished ret) le i = i

is_counted-holds : (s : Stage) → is_counted s ≤ holds s
is_counted-holds s = elim s as (λ (k : Stage). is_counted k ≤ holds k) [
  | Stage.in_section ret ↦ omega arith
  | _ ↦ omega arith
]

total-holds : (racers : List Stage) → total is_counted racers ≤ total holds racers
total-holds [] = omega arith
total-holds (s ∷ rest) = omega (arith, is_counted-holds s, total-holds rest)

pub run_racer-SoundAmid :
    (i h k r : ℕ) (c : DemoContext) (racers : List Stage)
    → k ≤ h
    → SoundAmid h k r c racers
    → SoundAmid h k r (run_racer i c racers).0 (run_racer i c racers).1
unfolding run_racer
run_racer-SoundAmid i h k r c [] le sound = sound
run_racer-SoundAmid zero h k r c (s ∷ rest) le sound =
    let step =
      do_race-StepsSoundly (total holds rest + h) (total is_counted rest + k)
        (total refers rest + r) c s (omega (arith, le, total-holds rest))
        (record {
          one_holder = omega (arith, sound.one_holder);
          holders = omega (arith, sound.holders);
          refs = omega (arith, sound.refs);
          no_violation = omega (arith, sound.no_violation);
        }) in
    record {
      one_holder = omega (arith, step.one_holder);
      holders = omega (arith, step.holders);
      refs = omega (arith, step.refs);
      no_violation = omega (arith, step.no_violation, sound.no_violation);
    }
run_racer-SoundAmid (suc i) h k r c (s ∷ rest) le sound =
    let later =
      run_racer-SoundAmid i (holds s + h) (is_counted s + k) (refers s + r) c rest
        (omega (arith, le, is_counted-holds s))
        (record {
          one_holder = omega (arith, sound.one_holder);
          holders = omega (arith, sound.holders);
          refs = omega (arith, sound.refs);
          no_violation = omega (arith, sound.no_violation);
        }) in
    record {
      one_holder = omega (arith, later.one_holder);
      holders = omega (arith, later.holders);
      refs = omega (arith, later.refs);
      no_violation = omega (arith, later.no_violation, sound.no_violation);
    }
