-- ===== src/UserSemaphore/Handshake.antt =====
-- linux-c/semaphore/unnamed-semaphore.c: the order in which the two processes run, whatever the
-- schedule.
use snippet.Base.{
  ℕ, zero, suc, ◌+◌, ◌≤◌, ◌<◌, ◌≡◌, ◌≢◌, refl, sym, ap, subst, ◌∙◌, false, List, [], ◌∷◌, ◌++◌,
  arith,
}
use snippet.UserSemaphore.Unnamed.{
  Parent, Child, Race, Turn, after_fork, exit_status, terminated_badly, run_parent, run_child,
  take_turn, run_race,
}

-- The places that the two processes pass through together.
unfoldable pub point : ℕ → Race
point zero = record {
  parent = Parent.producing;
  child = Child.consuming;
  parent_sem = 0;
  child_sem = 0;
}
point (suc zero) = record {
  parent = Parent.consuming;
  child = Child.consuming;
  parent_sem = 1;
  child_sem = 0;
}
point (suc (suc zero)) = record {
  parent = Parent.consuming;
  child = Child.producing;
  parent_sem = 0;
  child_sem = 0;
}
point (suc (suc (suc zero))) = record {
  parent = Parent.consuming;
  child = Child.ended 0;
  parent_sem = 0;
  child_sem = 1;
}
point (suc (suc (suc (suc zero)))) = record {
  parent = Parent.reaping;
  child = Child.ended 0;
  parent_sem = 0;
  child_sem = 0;
}
point (suc (suc (suc (suc (suc k))))) = record {
  parent = Parent.finished;
  child = Child.ended 0;
  parent_sem = 0;
  child_sem = 0;
}

-- The point behind a run of the parent, and of the child.
parent_next : ℕ → ℕ
parent_next zero = 1
parent_next (suc zero) = 1
parent_next (suc (suc zero)) = 2
parent_next (suc (suc (suc zero))) = 4
parent_next (suc (suc (suc (suc k)))) = 5

child_next : ℕ → ℕ
child_next zero = 0
child_next (suc zero) = 2
child_next (suc (suc zero)) = 3
child_next (suc (suc (suc k))) = suc (suc (suc k))

parent_at : (k : ℕ) → take_turn Turn.parent_runs (point k) ≡ point (parent_next k)
unfolding take_turn point parent_next
parent_at zero = refl
parent_at (suc zero) = refl
parent_at (suc (suc zero)) = refl
parent_at (suc (suc (suc zero))) = refl
parent_at (suc (suc (suc (suc zero)))) = refl
parent_at (suc (suc (suc (suc (suc k))))) = refl

child_at : (k : ℕ) → take_turn Turn.child_runs (point k) ≡ point (child_next k)
unfolding take_turn point child_next
child_at zero = refl
child_at (suc zero) = refl
child_at (suc (suc zero)) = refl
child_at (suc (suc (suc zero))) = refl
child_at (suc (suc (suc (suc zero)))) = refl
child_at (suc (suc (suc (suc (suc k))))) = refl

-- No call fails.
abbrev pub OnlyRuns : List Turn → Type 0
OnlyRuns [] = Unit {0}
OnlyRuns (Turn.parent_runs ∷ rest) = OnlyRuns rest
OnlyRuns (Turn.child_runs ∷ rest) = OnlyRuns rest
OnlyRuns (_ ∷ rest) = ⊥

parent_next-le : (k : ℕ) → k ≤ 5 → parent_next k ≤ 5
unfolding parent_next
parent_next-le k h = ground arith

child_next-le : (k : ℕ) → k ≤ 5 → child_next k ≤ 5
unfolding child_next
child_next-le k h = ground arith

from_point :
    (turns : List Turn) (k : ℕ)
    → k ≤ 5
    → OnlyRuns turns
    → (k' : ℕ) × (k' ≤ 5) × (run_race turns (point k) ≡ point k')
unfolding run_race
from_point [] k le runs = (k, le, refl)
from_point (Turn.parent_runs ∷ rest) k le runs =
    rw (parent_at k) (from_point rest (parent_next k) (parent_next-le k le) runs)
from_point (Turn.child_runs ∷ rest) k le runs =
    rw (child_at k) (from_point rest (child_next k) (child_next-le k le) runs)
from_point (Turn.parent_fails errno ∷ rest) k le runs = absurd runs
from_point (Turn.child_fails errno ∷ rest) k le runs = absurd runs

-- Under every schedule in which no call fails, the two processes are at one of six points: the child
-- gets behind its wait only after the parent's post, the parent behind its own only after the
-- child's, and a semaphore counts one only between the post and the wait.
pub run_race-points :
    (turns : List Turn) → OnlyRuns turns → (k : ℕ) × (k ≤ 5) × (run_race turns after_fork ≡ point k)
unfolding after_fork point
run_race-points turns runs = from_point turns 0 (omega arith) runs

-- Rounds in which each process has one turn.
unfoldable pub rounds : ℕ → List Turn
rounds zero = []
rounds (suc n) = Turn.parent_runs ∷ Turn.child_runs ∷ rounds n

run_race-append :
    (first second : List Turn) (r : Race)
    → run_race (first ++ second) r ≡ run_race second (run_race first r)
unfolding run_race
run_race-append [] second r = refl
run_race-append (turn ∷ first) second r = run_race-append first second (take_turn turn r)

rounds_at : (k : ℕ) → k ≤ 5 → run_race (rounds 4) (point k) ≡ point 5
unfolding run_race rounds point
rounds_at zero le = refl
rounds_at (suc zero) le = refl
rounds_at (suc (suc zero)) le = refl
rounds_at (suc (suc (suc zero))) le = refl
rounds_at (suc (suc (suc (suc zero)))) le = refl
rounds_at (suc (suc (suc (suc (suc k))))) le = refl

-- Whatever the schedule was so far, if no call fails then four more rounds bring both processes to
-- their end, the child with status 0, and leave both counts at zero.
pub run_race_ends :
    (turns : List Turn)
    → OnlyRuns turns
    → run_race (turns ++ rounds 4) after_fork
      ≡ record { parent = Parent.finished; child = Child.ended 0; parent_sem = 0; child_sem = 0 }
unfolding point
run_race_ends turns runs =
    let (k, le, there) = run_race-points turns runs in
    run_race-append turns (rounds 4) after_fork ∙ ap (run_race (rounds 4)) there ∙ rounds_at k le

-- The parent has not got behind its wait, the child has ended, and nobody has posted.
abbrev Forsaken : Parent → Child → ℕ → Type 0
Forsaken Parent.producing (Child.ended status) child_sem = child_sem ≡ 0
Forsaken Parent.consuming (Child.ended status) child_sem = child_sem ≡ 0
Forsaken _ _ child_sem = ⊥

abbrev IsForsaken : Race → Type 0
IsForsaken r = Forsaken r.parent r.child r.child_sem

turn-IsForsaken :
    (p : Parent) (c : Child) (parent_sem child_sem : ℕ)
    → Forsaken p c child_sem
    → IsForsaken (
        run_parent p
          (record { parent = p; child = c; parent_sem = parent_sem; child_sem = child_sem }))
      × IsForsaken (
          run_child c
            (record { parent = p; child = c; parent_sem = parent_sem; child_sem = child_sem }))
unfolding run_parent run_child
turn-IsForsaken Parent.producing (Child.ended status) parent_sem child_sem h = (h, h)
turn-IsForsaken Parent.consuming (Child.ended status) parent_sem child_sem h = (rw h refl, h)
turn-IsForsaken p c parent_sem child_sem h = ground arith

run_race-IsForsaken :
    (turns : List Turn) (r : Race) → OnlyRuns turns → IsForsaken r → IsForsaken (run_race turns r)
unfolding run_race take_turn
run_race-IsForsaken [] r runs h = h
run_race-IsForsaken (Turn.parent_runs ∷ rest) r runs h =
    run_race-IsForsaken rest (run_parent r.parent r) runs
      (turn-IsForsaken r.parent r.child r.parent_sem r.child_sem h).0
run_race-IsForsaken (Turn.child_runs ∷ rest) r runs h =
    run_race-IsForsaken rest (run_child r.child r) runs
      (turn-IsForsaken r.parent r.child r.parent_sem r.child_sem h).1
run_race-IsForsaken (Turn.parent_fails errno ∷ rest) r runs h = absurd runs
run_race-IsForsaken (Turn.child_fails errno ∷ rest) r runs h = absurd runs

not_finished : (p : Parent) (c : Child) (n : ℕ) → Forsaken p c n → p ≢ Parent.finished
not_finished p c n h e = ground arith

fails_at :
    (k errno : ℕ)
    → ((point k).child ≢ Child.ended 0)
    → IsForsaken (take_turn (Turn.child_fails errno) (point k))
unfolding take_turn point
fails_at zero errno alive = refl
fails_at (suc zero) errno alive = refl
fails_at (suc (suc zero)) errno alive = refl
fails_at (suc (suc (suc zero))) errno alive = absurd (alive refl)
fails_at (suc (suc (suc (suc zero)))) errno alive = absurd (alive refl)
fails_at (suc (suc (suc (suc (suc k))))) errno alive = absurd (alive refl)

-- When a call of the child fails, in `print_msg`, its wait or its post, the parent waits for ever:
-- it is not finished under any schedule behind that.
pub run_race_forsaken :
    (before after : List Turn) (errno : ℕ)
    → OnlyRuns before
    → OnlyRuns after
    → (run_race before after_fork).child ≢ Child.ended 0
    → (run_race after (take_turn (Turn.child_fails errno) (run_race before after_fork))).parent
      ≢ Parent.finished
run_race_forsaken before after errno runs runs' alive =
    let (k, le, there) = run_race-points before runs in
    let P =
      λ (r : Race). r.child ≢ Child.ended 0 → IsForsaken (take_turn (Turn.child_fails errno) r) in
    let lost = subst P (sym there) (fails_at k errno) alive in
    let late = run_race-IsForsaken after _ runs' lost in not_finished _ _ _ late

-- The test behind `waitpid` is true of no status: neither of that of a process that exited, whatever
-- its code, nor of that of one which a signal ended, with a core dump or without.
pub terminated_badly_never :
    (code signal : ℕ)
    → 0 < signal
    → signal < 128
    → (terminated_badly (exit_status code) ≡ false)
      × (terminated_badly signal ≡ false)
      × (terminated_badly (signal + 128) ≡ false)
unfolding terminated_badly
terminated_badly_never code signal some few = ground arith
