-- ===== src/Manager/Loose/Running.antt =====
-- How a thread whose time is scaled becomes the running one, and what it comes to.
use vexjine.Common.{
  ℕ, ◌==◌, ◌≡◌, refl, ap, ◌∙◌, true, false, some, List, count, put, ℤ, ◌+ℤ◌, ==_refl,
}
use vexjine.Threads.Timers.{
  FloatOps, set_last_time_per_state_ert, float_one, set_synchronization_barrier_time,
}
use vexjine.Threads.State
use vexjine.Threads.State.{VexThreadState}
use vexjine.Threads.Scheduling.{set_awaken, set_thread_currently_controlling_manager}
use vexjine.Queue.Thread.{ThreadQueue}
use vexjine.Queue.Priority
use vexjine.Queue.Thread
use vexjine.Queue.Heap.{HeapFunctions}
use vexjine.Queue.Thread.Laws.{Ordered, absent, push-Ordered}
use vexjine.Queue.Thread.Expiry.{put-Ordered}
use vexjine.Timeline.Controllers.{VirtualTimelineController}
use vexjine.Manager.Rounds.Kept.{added_once}
use vexjine.Manager.{
  push_into_runnable_queue, ThreadManager, thread, set_thread, another_thread_already_set_running,
  change_thread_state_to_running,
}
use vexjine.Manager.Signals.{SchedulingManager}
use vexjine.Manager.Loose.{
  set_barrier, set_running_thread, raise_barrier, after_running, with_manager,
}
use vexjine.Manager.Loose.Barrier.{
  LeavesThreads, StandsAt, ticks, charged, scaled_by, ticks-StandsAt,
}

module _ {T : Type 0} where
  -- The manager whose running thread the thread has become.
  abbrev pub entered : SchedulingManager T → ℕ → ThreadManager T
  entered g t =
      let asleep = record (thread g.manager t) {
        scheduling = set_awaken (thread g.manager t).scheduling false;
      } in
      let m = set_thread g.manager t asleep in
      let s = State.set_running (thread m t) in
      let controlled = set_thread_currently_controlling_manager s.scheduling (some m.manager_id) in
      record (set_thread m t (record s { scheduling = controlled })) { running_thread = some t }

  -- The thread when the controller has moved it to the core's time.
  abbrev pub started : VirtualTimelineController T → SchedulingManager T → ℕ → VexThreadState
  started c g t =
      (c.update_resuming_suspended_thread_timestamp (entered g t).timeline
        (thread (entered g t) t)).1

module _ {T : Type 0} (H : HeapFunctions) (c : VirtualTimelineController T) (f : FloatOps)
    (global : ℕ) (leaves : LeavesThreads c) where
  raise-Raised :
      (m : ThreadManager T) (t : ℕ) (slot : ℤ)
      → Ordered H m.runnable_threads
      → count t m.runnable_threads.queue ≡ 0
      → (q' : ThreadQueue) × ((raise_barrier H c f global m t slot
            ≡ some (record m { runnable_threads = q' }))
          × ((q'.threads ≡ put m.runnable_threads.threads t (set_barrier (thread m t) slot))
              × ((count t q'.queue ≡ 1) × Ordered H q')))
  unfolding raise_barrier push_into_runnable_queue Thread.find Priority.find
  raise-Raised m t slot order out =
      let q = m.runnable_threads in
      let s = set_barrier (thread m t) slot in
      let (q', (e, (threads, (added, order')))) =
        push-Ordered H (record q { threads = put q.threads t s }) t (put-Ordered H q t s out order)
          out in
      (
        q',
        (
          rw (absent t q.queue out, raise_barrier) (rw (e, push_into_runnable_queue) refl),
          (threads, (added_once (count t q.queue) t out (added t), order')),
        ),
      )

  started-factor :
      (g : SchedulingManager T) (t factor : ℕ)
      → (thread g.manager t).timers.virtual_time_speedup ≡ factor
      → (started c g t).timers.virtual_time_speedup ≡ factor
  unfolding State.set_running State.set_new_state set_last_time_per_state_ert
  started-factor g t factor e =
      leaves.resumed (entered g t).timeline (thread (entered g t) t) ∙ rw (==_refl t) e

  after_running-StandsAt :
      (g : SchedulingManager T) (t factor : ℕ)
      → g.manager.running_thread ≡ some t
      → Ordered H g.manager.runnable_threads
      → count t g.manager.runnable_threads.queue ≡ 0
      → (factor == float_one) ≡ false
      → let s =
          (c.update_resuming_suspended_thread_timestamp g.manager.timeline
            (thread g.manager t)).1 in
        s.timers.virtual_time_speedup ≡ factor
        → (g' : SchedulingManager T) × ((after_running H c f global g t ≡ some g')
            × StandsAt H c f global g' t factor s.timers.estimated_real_time)
  unfolding after_running set_barrier set_synchronization_barrier_time
  after_running-StandsAt g t factor runs order out n e =
      let q = g.manager.runnable_threads in
      let (timeline', s) =
        c.update_resuming_suspended_thread_timestamp g.manager.timeline (thread g.manager t) in
      let m = record (set_thread g.manager t s) { timeline = timeline' } in
      let (q', (raises, (threads, (once, order')))) =
        raise-Raised m t g.scheduler_timeslot (put-Ordered H q t s out order) out in
      (
        with_manager g (record m { runnable_threads = q' }),
        (
          rw (scaled_by H c f global leaves s factor e n, raises, after_running) refl,
          (
            runs,
            (
              ap (λ th. (th t).timers.virtual_time_speedup) threads ∙ rw (==_refl t) e,
              (
                once,
                (
                  order',
                  ap (λ th. (th t).timers.estimated_real_time) threads ∙ rw (==_refl t) refl,
                ),
              ),
            ),
          ),
        ),
      )

  set_running-StandsAt :
      (g : SchedulingManager T) (t factor : ℕ)
      → another_thread_already_set_running g.manager t ≡ false
      → Ordered H g.manager.runnable_threads
      → count t g.manager.runnable_threads.queue ≡ 0
      → (factor == float_one) ≡ false
      → (thread g.manager t).timers.virtual_time_speedup ≡ factor
      → (g' : SchedulingManager T) × ((set_running_thread H c f global g t ≡ some (g', true))
          × StandsAt H c f global g' t factor (started c g t).timers.estimated_real_time)
  unfolding set_running_thread change_thread_state_to_running another_thread_already_set_running
  set_running-StandsAt g t factor free order out n e =
      let q = g.manager.runnable_threads in
      let asleep = record (thread g.manager t) {
        scheduling = set_awaken (thread g.manager t).scheduling false;
      } in
      let order' : Ordered H (entered g t).runnable_threads =
        put-Ordered H (record q { threads = put q.threads t asleep }) t _ out
          (put-Ordered H q t asleep out order) in
      let (g', (runs, stands)) =
        after_running-StandsAt (with_manager g (entered g t)) t factor refl order' out n
          (started-factor g t factor e) in
      (g', (rw (free, runs) refl, stands))

  -- The barrier of a thread whose time is scaled is always in its place. When such a thread, which
  -- is in no queue, becomes the running one of a manager with a queue in order, and no other
  -- thread runs, it runs, and stands in the queue too, once, one timeslot ahead of its time. So it
  -- is after any number of timeslots at whose end it updates its time and is left running: its
  -- time is then that at which it has started and the durations, scaled, and the queue is in
  -- order. The controller's commits leave the thread as it is.
  pub barrier-StandsAt :
      (g : SchedulingManager T) (t factor : ℕ) (ds : List ℤ)
      → another_thread_already_set_running g.manager t ≡ false
      → Ordered H g.manager.runnable_threads
      → count t g.manager.runnable_threads.queue ≡ 0
      → (factor == float_one) ≡ false
      → (thread g.manager t).timers.virtual_time_speedup ≡ factor
      → (g' : SchedulingManager T) × ((set_running_thread H c f global g t ≡ some (g', true))
          × StandsAt H c f global
              (ticks H c f global g' t ds)
              t
              factor
              ((started c g t).timers.estimated_real_time +ℤ charged H c f global factor ds))
  barrier-StandsAt g t factor ds free order out n e =
      let (g', (runs, stands)) = set_running-StandsAt g t factor free order out n e in
      (g', (runs, ticks-StandsAt H c f global leaves g' t factor _ ds n stands))
