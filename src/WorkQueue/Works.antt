-- ===== src/WorkQueue/Works.antt =====
-- kernel-module/kernel-tasks/work_queue_demo.c: the functions that schedule work and the work itself.
use snippet.Base.{ℕ, ◌+◌, ◌-◌, Bool, true, not, if◌then◌else◌, ℤ, pos}

-- The module's references, its work by the places where it is, and its memory: `kmalloc` and
-- `kfree` are counted. A work is `pending` until a worker takes it, and `running` until its function
-- gives its block or, of the static work, its reference back. A dynamic work is `freed` between
-- `kfree` and `module_put`. Behind `module_put` a worker is `returning` from the module's code.
pub record WorkQueue : Type 0 where
  pub module_refs : ℕ
  pub static_pending : Bool
  pub static_running : ℕ
  pub dynamic_pending : ℕ
  pub dynamic_running : ℕ
  pub dynamic_freed : ℕ
  pub returning : ℕ
  pub allocated : ℕ
  pub released : ℕ
  pub loaded : Bool
  pub faulted : Bool

-- `schedule_work` refuses a work that is pending. `got` is the answer of `try_module_get`.
unfoldable pub schedule_static_work : (got : Bool) → WorkQueue → WorkQueue
schedule_static_work got w =
    if not got
    then w
    else let held = record w { module_refs = w.module_refs + 1 } in
      if held.static_pending
      then record held { module_refs = held.module_refs - 1 }
      else record held { static_pending = true }

-- `static_work_func`, of a worker that runs it.
unfoldable pub static_work_func : WorkQueue → WorkQueue
static_work_func w = record w {
  static_running = w.static_running - 1;
  module_refs = w.module_refs - 1;
  returning = w.returning + 1;
}

-- `dynamic_work_func`, up to `kfree` and up to its end.
unfoldable pub free_dynamic_work : WorkQueue → WorkQueue
free_dynamic_work w = record w {
  dynamic_running = w.dynamic_running - 1;
  released = w.released + 1;
  dynamic_freed = w.dynamic_freed + 1;
}

unfoldable pub put_dynamic_work : WorkQueue → WorkQueue
put_dynamic_work w = record w {
  dynamic_freed = w.dynamic_freed - 1;
  module_refs = w.module_refs - 1;
  returning = w.returning + 1;
}

-- `out_free`, and `out_put` before it.
abbrev pub out_free : WorkQueue → WorkQueue
out_free w = record w { released = w.released + 1 }

abbrev pub out_put : WorkQueue → WorkQueue
out_put w = out_free (record w { module_refs = w.module_refs - 1 })

-- `made`, `got` and `queued` are the answers of `kmalloc`, `try_module_get` and `schedule_work`. The
-- name is written to the block before anything is checked.
unfoldable pub schedule_dynamic_work : (made got queued : Bool) → WorkQueue → WorkQueue
schedule_dynamic_work made got queued w =
    if not made
    then record w { faulted = true }
    else let kept = record w { allocated = w.allocated + 1 } in
      if not got
      then out_free kept
      else let held = record kept { module_refs = kept.module_refs + 1 } in
        if not queued
        then out_put held
        else record held { dynamic_pending = held.dynamic_pending + 1 }

unfoldable pub demo_workqueue_init : (got_static made got queued : Bool) → WorkQueue → WorkQueue × ℤ
unfolding schedule_static_work schedule_dynamic_work
demo_workqueue_init got_static made got queued w =
    (schedule_dynamic_work made got queued (schedule_static_work got_static w), pos 0)

unfoldable pub demo_workqueue_exit : WorkQueue → WorkQueue
demo_workqueue_exit w = w
