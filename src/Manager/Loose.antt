-- ===== src/Manager/Loose.antt =====
-- src/vex/scheduler/LooseParallelThreadManager.cpp: the manager that keeps its core loosely in step
-- with the others. While a thread runs whose time is scaled, it stands in the queue of runnable
-- threads too, as a barrier one timeslot ahead of its time. What this class overrides of the class
-- ThreadManager; waking up the scheduler is left out.
pub mod Barrier
pub mod Running
mod Tests
use vexjine.Common.{
  ℕ, Option, none, some, Bool, true, false, not, ◌==◌, ◌&&◌, ◌||◌, ℤ, pos, ltb_ℤ, ◌>>=◌,
  if◌then◌else◌,
}
use vexjine.Threads.Timers.{
  FloatOps, float_one, set_synchronization_barrier_time, clear_synchronization_barrier_time,
}
use vexjine.Threads.Timers.Scaled.{add_local_time}
use vexjine.Threads.Scheduling
use vexjine.Threads.State
use vexjine.Threads.State.{VexThreadState, is_native_waiting, is_suspended, is_waiting}
use vexjine.Queue.Heap.{HeapFunctions}
use vexjine.Queue.Thread
use vexjine.Timeline.Controllers.{VirtualTimelineController}
use vexjine.Manager.{
  ThreadManager, thread, set_thread, change_thread_state_to_running, set_waiting_thread,
  unset_current_thread_from_running_thread, push_into_runnable_queue, update_runnable_queue,
}
use vexjine.Manager.Signals.{SchedulingManager}

abbrev pub is_scaled : VexThreadState → Bool
is_scaled s = not (s.timers.virtual_time_speedup == float_one)

abbrev pub set_time_scaling_factor : VexThreadState → ℕ → VexThreadState
set_time_scaling_factor s factor = record s {
  timers = record (s.timers) { virtual_time_speedup = factor };
}

unfoldable pub set_barrier : VexThreadState → ℤ → VexThreadState
unfolding set_synchronization_barrier_time
set_barrier s timeslot = record s { timers = set_synchronization_barrier_time s.timers timeslot }

unfoldable pub clear_barrier : VexThreadState → ℤ → VexThreadState
unfolding clear_synchronization_barrier_time
clear_barrier s timeslot = record s {
  timers = clear_synchronization_barrier_time s.timers timeslot;
}

module _ {T : Type 0} where
  abbrev pub with_manager : SchedulingManager T → ThreadManager T → SchedulingManager T
  with_manager g m = record g { manager = m }

  abbrev with_queued : SchedulingManager T → Option (ThreadManager T) → Option (SchedulingManager T)
  with_queued g none = none
  with_queued g (some m) = some (with_manager g m)

  abbrev pub erase_from : HeapFunctions → ThreadManager T → ℕ → ThreadManager T
  erase_from H m t = record m { runnable_threads = Thread.erase H m.runnable_threads t }

  module _ (H : HeapFunctions) (c : VirtualTimelineController T) (f : FloatOps) (global : ℕ) where
    unfoldable pub raise_barrier : ThreadManager T → ℕ → ℤ → Option (ThreadManager T)
    unfolding set_barrier Thread.find push_into_runnable_queue update_runnable_queue
    raise_barrier m t timeslot =
        let m' = set_thread m t (set_barrier (thread m t) timeslot) in
        if Thread.find m.runnable_threads t
        then some (update_runnable_queue H m')
        else push_into_runnable_queue H m' t

    -- The thread is the running one.
    unfoldable pub after_running : SchedulingManager T → ℕ → Option (SchedulingManager T)
    unfolding raise_barrier
    after_running g t =
        let m = g.manager in
        let (timeline', s) = c.update_resuming_suspended_thread_timestamp m.timeline (thread m t) in
        let m' = record (set_thread m t s) { timeline = timeline' } in
        let raised = with_queued g (raise_barrier m' t g.scheduler_timeslot) in
        if is_scaled s then raised else some (with_manager g m')

    -- `false`: another thread runs, and this one is to suspend itself, which is left out.
    unfoldable pub set_running_thread :
        SchedulingManager T → ℕ → Option (SchedulingManager T × Bool)
    unfolding Scheduling.set_awaken change_thread_state_to_running after_running
    set_running_thread g t =
        let s = thread g.manager t in
        let asleep = record s { scheduling = Scheduling.set_awaken s.scheduling false } in
        let m = set_thread g.manager t asleep in
        let (m', running) = change_thread_state_to_running m t in
        if running
        then (do g' ← after_running (with_manager g m') t; some (g', true))
        else some (with_manager g m, false)

    unfoldable pub set_suspended_and_push_to_runnables :
        SchedulingManager T → ℕ → Option (SchedulingManager T)
    unfolding unset_current_thread_from_running_thread clear_barrier State.set_suspended
        is_native_waiting is_suspended is_waiting push_into_runnable_queue update_runnable_queue
    set_suspended_and_push_to_runnables g t =
        let m = unset_current_thread_from_running_thread g.manager t in
        let s = thread m t in
        let cleared = clear_barrier s g.scheduler_timeslot in
        let m' = set_thread m t (State.set_suspended cleared) in
        if not (is_scaled s)
        then with_queued g (push_into_runnable_queue H (set_thread m t (State.set_suspended s)) t)
        else if is_native_waiting s || is_suspended s || is_waiting s
        then with_queued g (push_into_runnable_queue H m' t)
        else some (with_manager g (update_runnable_queue H m'))

    unfoldable pub set_timed_waiting_thread : SchedulingManager T → ℕ → Option (SchedulingManager T)
    unfolding set_waiting_thread push_into_runnable_queue
    set_timed_waiting_thread g t =
        let m = set_waiting_thread g.manager t in
        if ltb_ℤ (pos 0) (thread m t).timers.timeout
        then with_queued g (push_into_runnable_queue H m t)
        else some (with_manager g m)

    abbrev pub after_model_simulation : SchedulingManager T → SchedulingManager T
    after_model_simulation g = g

    -- The main update of a thread's time, which takes the barrier down.
    unfoldable pub lockless_update_time_by : SchedulingManager T → ℕ → ℤ → SchedulingManager T
    unfolding clear_barrier add_local_time is_native_waiting
    lockless_update_time_by g t diff =
        let m = g.manager in
        let s = thread m t in
        let cleared = if is_scaled s then clear_barrier s g.scheduler_timeslot else s in
        let s' = record cleared { timers = add_local_time f global cleared.timers diff } in
        let (timeline', s'') =
          if is_native_waiting s'
          then c.commit_native_waiting_progress m.timeline s'
          else c.commit_cpu_time_progress m.timeline s' in
        with_manager g (record (set_thread m t s'') { timeline = timeline' })

    unfoldable pub set_suspended : SchedulingManager T → ℕ → Option (SchedulingManager T)
    unfolding unset_current_thread_from_running_thread State.set_suspended push_into_runnable_queue
        update_runnable_queue
    set_suspended g t =
        let last = record (g.manager) { last_suspended = g.manager.running_thread } in
        let m = unset_current_thread_from_running_thread last t in
        let s = State.set_suspended (thread m t) in
        if is_scaled (thread m t)
        then some (with_manager g (set_thread (update_runnable_queue H m) t s))
        else with_queued g (push_into_runnable_queue H (set_thread m t s) t)

    unfoldable pub on_intention_to_keep_on_running : SchedulingManager T → ℕ → SchedulingManager T
    unfolding Scheduling.set_thread_currently_controlling_manager set_barrier update_runnable_queue
    on_intention_to_keep_on_running g t =
        let s = thread g.manager t in
        let controlled =
          Scheduling.set_thread_currently_controlling_manager s.scheduling
            (some g.manager.manager_id) in
        let s' = record s { scheduling = controlled } in
        let m = record (set_thread g.manager t s') { running_thread = some t } in
        let raised = set_thread m t (set_barrier s' g.scheduler_timeslot) in
        with_manager g (if is_scaled s then update_runnable_queue H raised else m)

    unfoldable pub on_intention_to_be_disregarded : SchedulingManager T → ℕ → SchedulingManager T
    unfolding unset_current_thread_from_running_thread Thread.erase
    on_intention_to_be_disregarded g t =
        let m = unset_current_thread_from_running_thread g.manager t in
        with_manager g (if is_scaled (thread m t) then erase_from H m t else m)

    -- A thread's time is scaled from now on, or no longer: `float_one`. The flag is that of
    -- `setRunningThread`.
    unfoldable pub notify_scheduler_for_virtualized_time :
        SchedulingManager T → ℕ → ℕ → Option (SchedulingManager T × Bool)
    unfolding Thread.erase clear_barrier set_running_thread
    notify_scheduler_for_virtualized_time g t factor =
        let m = set_thread g.manager t (set_time_scaling_factor (thread g.manager t) factor) in
        let erased = erase_from H m t in
        let cleared = set_thread erased t (clear_barrier (thread erased t) g.scheduler_timeslot) in
        if factor == float_one
        then some (with_manager g cleared, true)
        else set_running_thread (with_manager g m) t
