-- ===== src/WorkQueue/Tests.antt =====
-- Runs of kernel-module/kernel-tasks/work_queue_demo.c.
use snippet.Base.{◌≡◌, refl, ◌<◌, true, false, pos, arith}
use snippet.WorkQueue.Works.{
  WorkQueue, demo_workqueue_init, schedule_static_work, static_work_func, schedule_dynamic_work,
  demo_workqueue_exit,
}
use snippet.WorkQueue.Lifetime.{
  inserted, take_static, unload, Step, Reach, works, Reach-unloaded, Reach-unloaded_under_worker,
}

-- The module's init, with a static work and a dynamic one that the queue refuses.
abbrev initialised : WorkQueue
unfolding schedule_static_work schedule_dynamic_work
initialised = schedule_dynamic_work true true false (schedule_static_work true inserted)

initialised_by_init : demo_workqueue_init true true true false inserted ≡ (initialised, pos 0)
unfolding demo_workqueue_init
initialised_by_init = refl

initialised_reached : Reach initialised
unfolding schedule_static_work schedule_dynamic_work initialised
initialised_reached =
    Reach.later (Reach.later Reach.start (Step.schedules_static true refl))
      (Step.schedules_dynamic true true false refl)

abbrev at_work : WorkQueue
at_work = take_static initialised

at_work_reached : Reach at_work
unfolding schedule_static_work schedule_dynamic_work
at_work_reached = Reach.later initialised_reached (Step.takes_static refl)

abbrev gone : WorkQueue
unfolding static_work_func
gone = unload (static_work_func at_work)

gone_reached : Reach gone
unfolding schedule_static_work schedule_dynamic_work static_work_func
gone_reached =
    Reach.later (Reach.later at_work_reached (Step.runs_static (omega arith))) (Step.unloads refl)

Reach-unloaded_example : (works gone ≡ 0) × (gone.allocated ≡ gone.released)
unfolding schedule_static_work schedule_dynamic_work static_work_func demo_workqueue_exit
Reach-unloaded_example = Reach-unloaded gone_reached refl

Reach-unloaded_under_worker_example :
    (w : WorkQueue) × Reach w × (w.loaded ≡ false) × (0 < w.returning)
unfolding schedule_static_work schedule_dynamic_work
Reach-unloaded_under_worker_example = Reach-unloaded_under_worker at_work_reached (omega arith) refl
