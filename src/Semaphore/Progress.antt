-- ===== src/Semaphore/Progress.antt =====
-- semaphore_demo.c: the threads cannot block one another for good.
use snippet.Base.{
  ℕ, zero, suc, ◌<◌, ◌⊎◌, inl, inr, ◌≡◌, ◌≢◌, refl, sym, subst, ap, List, [], ◌∷◌, ◌++◌, ◌==◌,
  if-rule, arith,
}
use snippet.Semaphore.Racers.{
  Action, DemoContext, Stage, Demo, Turn, num_workers, spin, down, do_race, run_racer,
  demo_semaphore_start, take_turn, run_demo,
}
use snippet.Semaphore.Holders.{total, holds, refers}
use snippet.Semaphore.Exclusion.{IsSound, run_demo-IsSound, start-IsSound}

-- How far a thread is.
abbrev pub rank : Stage → ℕ
rank Stage.at_start = 0
rank (Stage.counted_ready n) = 1
rank Stage.spinning = 2
rank Stage.at_down = 3
rank Stage.entered = 4
rank (Stage.in_section ret) = 5
rank (Stage.at_up ret) = 6
rank (Stage.at_put ret) = 7
rank (Stage.finished ret) = 8

-- The step of a thread takes it further.
Moves : DemoContext → Stage → Type 0
Moves c s = rank s < rank (do_race c s).1

spin-rank : (a : Action) → a ≢ Action.racer_wait → 2 < rank (spin a)
spin-rank Action.racer_wait go = absurd (go refl)
spin-rank Action.racer_race go = omega arith
spin-rank Action.racer_abort go = omega arith

down-rank : (n : ℕ) (c : DemoContext) → n ≢ 0 → 3 < rank (down n c).1
down-rank zero c open_ = absurd (open_ refl)
down-rank (suc n) c open_ = omega arith

down-Moves : (c : DemoContext) (s : Stage) → s ≡ Stage.at_down → c.sem ≢ 0 → Moves c s
unfolding Moves do_race
down-Moves c s waits open_ =
    subst (λ (k : Stage). rank k < rank (do_race c k).1) (sym waits) (down-rank c.sem c open_)

-- Once the threads have been told to go on, each moves, is at `down`, or has ended.
step_cases :
    (c : DemoContext) (s : Stage)
    → c.action ≢ Action.racer_wait
    → Moves c s ⊎ ((s ≡ Stage.at_down) ⊎ ((holds s ≡ 0) × (refers s ≡ 0)))
unfolding Moves do_race
step_cases c Stage.at_start go = inl (omega arith)
step_cases c (Stage.counted_ready n) go = inl (
    if-rule (λ (q : DemoContext × Stage). 1 < rank q.1) (n == num_workers) (λ last. omega arith)
      (λ other. omega arith))
step_cases c Stage.spinning go = inl (spin-rank c.action go)
step_cases c Stage.at_down go = inr (inl refl)
step_cases c Stage.entered go = inl (omega arith)
step_cases c (Stage.in_section ret) go = inl (omega arith)
step_cases c (Stage.at_up ret) go = inl (omega arith)
step_cases c (Stage.at_put ret) go = inl (omega arith)
step_cases c (Stage.finished ret) go = inr (inr (refl, refl))

-- Some thread's step takes it further.
SomeMoves : DemoContext → List Stage → Type 0
SomeMoves c racers = (i : ℕ) × (total rank racers < total rank (run_racer i c racers).1)

-- Either some thread moves, or none is past `down` and one moves as soon as the semaphore is open.
MovesOrWaits : DemoContext → List Stage → Type 0
MovesOrWaits c racers =
    SomeMoves c racers
    ⊎ ((total holds racers ≡ 0) × (c.sem ≢ 0 → 0 < total refers racers → SomeMoves c racers))

later-SomeMoves :
    (c : DemoContext) (s : Stage) (rest : List Stage) → SomeMoves c rest → SomeMoves c (s ∷ rest)
unfolding SomeMoves run_racer
later-SomeMoves c s rest (i, further) = (suc i, omega (arith, further))

racers-MovesOrWaits :
    (c : DemoContext) (racers : List Stage) → c.action ≢ Action.racer_wait → MovesOrWaits c racers
unfolding MovesOrWaits SomeMoves Moves run_racer do_race
racers-MovesOrWaits c [] go = inr (refl, (λ open_ some_left. absurd (omega arith)))
racers-MovesOrWaits c (s ∷ rest) go = elim (step_cases c s go) [
  | inl moves ↦ inl (zero, omega (arith, moves))
  | inr (inl waits) ↦ elim (racers-MovesOrWaits c rest go) [
    | inl later ↦ inl (later-SomeMoves c s rest later)
    | inr (none_holds, next) ↦
        let none_here : holds s ≡ 0 = ap holds waits in
        inr (
          omega (arith, none_holds, none_here),
          (λ open_ some_left. (zero, omega (arith, down-Moves c s waits open_))),
        )
  ]
  | inr (inr ended) ↦ elim (racers-MovesOrWaits c rest go) [
    | inl later ↦ inl (later-SomeMoves c s rest later)
    | inr (none_holds, next) ↦ inr (
      omega (arith, none_holds, ended.0),
      (λ open_ some_left.
          later-SomeMoves c s rest (next open_ (omega (arith, some_left, ended.1)))),
    )
  ]
]

run_demo-append :
    (turns : List Turn) (turn : Turn) (d : Demo)
    → run_demo (turns ++ turn ∷ []) d ≡ take_turn turn (run_demo turns d)
unfolding run_demo
run_demo-append [] turn d = refl
run_demo-append (first ∷ turns) turn d = run_demo-append turns turn (take_turn first d)

moves_if_open :
    (d : Demo)
    → IsSound d
    → 0 < total refers d.racers
    → MovesOrWaits d.ctx d.racers
    → SomeMoves d.ctx d.racers
unfolding MovesOrWaits
moves_if_open d sound some_left (inl moves) = moves
moves_if_open d sound some_left (inr (none_holds, next)) =
    next (λ shut. absurd (omega (arith, shut, none_holds, sound.one_holder))) some_left

-- Whatever the schedule so far, once the threads have been told to race or to abort and as long as
-- one has not ended, some thread's next step takes it further; so there is no deadlock.
pub run_demo-progress :
    (turns : List Turn)
    → (run_demo turns demo_semaphore_start).ctx.action ≢ Action.racer_wait
    → 0 < total refers (run_demo turns demo_semaphore_start).racers
    → (i : ℕ) × (total rank (run_demo turns demo_semaphore_start).racers
        < total rank (run_demo (turns ++ Turn.racer i ∷ []) demo_semaphore_start).racers)
unfolding SomeMoves take_turn
run_demo-progress turns go some_left =
    let d = run_demo turns demo_semaphore_start in
    let sound = run_demo-IsSound turns demo_semaphore_start start-IsSound in
    let (i, further) = moves_if_open d sound some_left (racers-MovesOrWaits d.ctx d.racers go) in
    (
      i,
      subst (λ (next : Demo). total rank d.racers < total rank next.racers)
          (sym (run_demo-append turns (Turn.racer i) demo_semaphore_start)) further,
    )
