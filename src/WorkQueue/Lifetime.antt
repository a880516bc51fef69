-- ===== src/WorkQueue/Lifetime.antt =====
-- kernel-module/kernel-tasks/work_queue_demo.c: the module's functions and the kernel's workers, in
-- any order.
use snippet.Base.{ℕ, ◌+◌, ◌-◌, ◌<◌, ◌≡◌, refl, Bool, true, false, if◌then◌else◌, arith}
use snippet.WorkQueue.Works.{
  WorkQueue, schedule_static_work, schedule_dynamic_work, static_work_func, free_dynamic_work,
  put_dynamic_work, demo_workqueue_exit,
}

-- A module that is loaded.
abbrev pub inserted : WorkQueue
inserted = record {
  module_refs = 0;
  static_pending = false;
  static_running = 0;
  dynamic_pending = 0;
  dynamic_running = 0;
  dynamic_freed = 0;
  returning = 0;
  allocated = 0;
  released = 0;
  loaded = true;
  faulted = false;
}

-- The kernel's workers take a work, and the kernel unloads a module without references.
abbrev pub take_static : WorkQueue → WorkQueue
take_static w = record w { static_pending = false; static_running = w.static_running + 1 }

abbrev pub take_dynamic : WorkQueue → WorkQueue
take_dynamic w = record w {
  dynamic_pending = w.dynamic_pending - 1;
  dynamic_running = w.dynamic_running + 1;
}

abbrev pub unload : WorkQueue → WorkQueue
unfolding demo_workqueue_exit
unload w = record (demo_workqueue_exit w) { loaded = false }

-- One step of the module or of a worker. The module's functions run while it is loaded.
pub data Step (w : WorkQueue) : WorkQueue → Type 0 where
  schedules_static : (got : Bool) → w.loaded ≡ true → Step w (schedule_static_work got w)
  schedules_dynamic :
      (made got queued : Bool) → w.loaded ≡ true → Step w (schedule_dynamic_work made got queued w)
  takes_static : w.static_pending ≡ true → Step w (take_static w)
  takes_dynamic : 0 < w.dynamic_pending → Step w (take_dynamic w)
  runs_static : 0 < w.static_running → Step w (static_work_func w)
  frees_dynamic : 0 < w.dynamic_running → Step w (free_dynamic_work w)
  puts_dynamic : 0 < w.dynamic_freed → Step w (put_dynamic_work w)
  returns : 0 < w.returning → Step w (record w { returning = w.returning - 1 })
  unloads : w.module_refs ≡ 0 → Step w (unload w)

pub data Reach : WorkQueue → Type 0 where
  start : Reach inserted
  later : {w w' : WorkQueue} → Reach w → Step w w' → Reach w'

abbrev pub works : WorkQueue → ℕ
works w =
    (if w.static_pending then 1 else 0)
    + w.static_running
    + w.dynamic_pending
    + w.dynamic_running
    + w.dynamic_freed

-- The module holds a reference for each work, and a block for each dynamic work that is not freed.
pub record IsCounted (w : WorkQueue) : Type 0 where
  pub refs : w.module_refs ≡ works w
  pub blocks : w.allocated ≡ w.released + w.dynamic_pending + w.dynamic_running

Step-IsCounted : {w w' : WorkQueue} → Step w w' → IsCounted w → IsCounted w'
unfolding schedule_static_work schedule_dynamic_work static_work_func free_dynamic_work
    put_dynamic_work demo_workqueue_exit
Step-IsCounted {w} (schedules_static got loaded) h = record {
  refs = let b = h.refs in ground arith;
  blocks = let b = h.blocks in ground arith;
}
Step-IsCounted {w} (schedules_dynamic made got queued loaded) h = record {
  refs = let b = h.refs in ground arith;
  blocks = let b = h.blocks in ground arith;
}
Step-IsCounted {w} (takes_static pending) h = record {
  refs = let b = h.refs in ground arith;
  blocks = h.blocks;
}
Step-IsCounted {w} (takes_dynamic some_pending) h = record {
  refs = omega (arith, h.refs);
  blocks = omega (arith, h.blocks);
}
Step-IsCounted {w} (runs_static one) h = record { refs = omega (arith, h.refs); blocks = h.blocks }
Step-IsCounted {w} (frees_dynamic one) h = record {
  refs = omega (arith, h.refs);
  blocks = omega (arith, h.blocks);
}
Step-IsCounted {w} (puts_dynamic one) h = record { refs = omega (arith, h.refs); blocks = h.blocks }
Step-IsCounted {w} (returns one) h = record { refs = h.refs; blocks = h.blocks }
Step-IsCounted {w} (unloads none_left) h = record { refs = h.refs; blocks = h.blocks }

-- Whatever the module schedules and the workers run, in whatever order and with whatever failures:
-- the module has as many references as there are works that have not given theirs back, and as many
-- blocks as there are dynamic works that are not freed.
pub Reach-IsCounted : {w : WorkQueue} → Reach w → IsCounted w
Reach-IsCounted start = record { refs = refl; blocks = refl }
Reach-IsCounted (later r s) = Step-IsCounted s (Reach-IsCounted r)

-- Nothing is left of a module that is not loaded.
abbrev pub IsIdle : WorkQueue → Type 0
IsIdle w = w.loaded ≡ false → works w ≡ 0

Step-IsIdle : {w w' : WorkQueue} → Step w w' → IsCounted w → IsIdle w → IsIdle w'
unfolding schedule_static_work schedule_dynamic_work static_work_func free_dynamic_work
    put_dynamic_work demo_workqueue_exit
Step-IsIdle {w} (schedules_static got loaded) c h = λ e. ground arith
Step-IsIdle {w} (schedules_dynamic made got queued loaded) c h = λ e. ground arith
Step-IsIdle {w} (takes_static pending) c h = λ e. let idle = h e in ground arith
Step-IsIdle {w} (takes_dynamic some_pending) c h = λ e. omega (arith, h e)
Step-IsIdle {w} (runs_static one) c h = λ e. omega (arith, h e)
Step-IsIdle {w} (frees_dynamic one) c h = λ e. omega (arith, h e)
Step-IsIdle {w} (puts_dynamic one) c h = λ e. omega (arith, h e)
Step-IsIdle {w} (returns one) c h = h
Step-IsIdle {w} (unloads none_left) c h = λ e. omega (arith, c.refs)

Reach-IsIdle : {w : WorkQueue} → Reach w → IsIdle w
Reach-IsIdle start = λ e. refl
Reach-IsIdle (later r s) = Step-IsIdle s (Reach-IsCounted r) (Reach-IsIdle r)

-- When the module has been unloaded, no work is pending or before its `module_put`, and each block
-- has been freed.
pub Reach-unloaded :
    {w : WorkQueue} → Reach w → w.loaded ≡ false → (works w ≡ 0) × (w.allocated ≡ w.released)
Reach-unloaded r e =
    let idle = Reach-IsIdle r e in let c = Reach-IsCounted r in (idle, omega (arith, c.blocks))

-- When the static work that a worker runs has the last reference, the module can be unloaded while
-- that worker has still to return from its code.
pub Reach-unloaded_under_worker :
    {w : WorkQueue}
    → Reach w
    → 0 < w.static_running
    → w.module_refs ≡ 1
    → (w' : WorkQueue) × Reach w' × (w'.loaded ≡ false) × (0 < w'.returning)
unfolding static_work_func demo_workqueue_exit
Reach-unloaded_under_worker {w} r one last = (
  unload (static_work_func w),
  later (later r (runs_static one)) (unloads (omega (arith, last))),
  refl,
  omega arith,
)
