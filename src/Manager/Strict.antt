-- ===== src/Manager/Strict.antt =====
-- src/vex/scheduler/StrictParallelThreadManager.cpp: the manager of one core among several, which
-- does not let its core run ahead of the global virtual time by more than a timeslot. What it
-- overrides of the class ThreadManager; the rest is the base class's. A thread's access key is held
-- all along. `none` is a failed assertion, a signalled thread that has not answered yet, or a call
-- of the controller that never returns.
pub mod Outcome
pub mod Progress
mod Tests
use vexjine.Common.{
  ℕ, suc, ◌>>=◌, Bool, true, false, not, ◌&&◌, ◌||◌, Option, none, some, List, ltb_ℤ, if◌then◌else◌,
}
use vexjine.Threads.Scheduling
use vexjine.Queue.Heap.{HeapFunctions}
use vexjine.Queue.Thread
use vexjine.Queue.Priority.{top}
use vexjine.Timeline.Controllers.{VirtualTimelineController}
use vexjine.Manager.{thread, is_thread}
use vexjine.Manager.Signals.{SchedulingManager, is_signalled_thread_going_to_suspend}
use vexjine.Manager.Rounds.{
  Scheduler, Outside, VirtualMethods, manager_of, with_manager, with_thread, limit_next_timeslice,
  push_back_thread, is_valid_to_leap,
}
use vexjine.Manager.Rounds.Choice.{Others, Round, done, failed, out_of_fuel, continue_thread}

abbrev pub is_none : Option ℕ → Bool
is_none none = true
is_none (some t) = false

module _ {T : Type 0} where
  abbrev pub with_timeline : Scheduler T → T → Scheduler T
  with_timeline g timeline' = with_manager g (record (manager_of g) { timeline = timeline' })

  -- A round that has gone on with a thread is counted.
  unfoldable pub continued : Round (Scheduler T) → Round (Scheduler T)
  continued (done g) = done (record g { normal_continuations = suc g.normal_continuations })
  continued failed = failed
  continued out_of_fuel = out_of_fuel

  module _ (H : HeapFunctions) (c : VirtualTimelineController T) (o : Outside) where
    unfoldable pub is_thread_too_far_ahead_in_virtual_time : Scheduler T → ℕ → Bool
    is_thread_too_far_ahead_in_virtual_time g t = ltb_ℤ g.group.scheduler_timeslot (
        c.get_how_far_ahead_in_virtual_time_the_thread_is (manager_of g).timeline
          (thread (manager_of g) t))

    -- The handshake, which the source has twice: unlike the base class, the thread is stamped
    -- before it is awaken, and the time scaling factor is left as it is.
    unfoldable pub resume_as_controller : Scheduler T → ℕ → Scheduler T
    unfolding Scheduling.on_thread_resume_by_manager
        Scheduling.set_thread_currently_controlling_manager
    resume_as_controller g t =
        let m = manager_of g in
        let (timeline', s) =
          c.update_resuming_suspended_thread_resumed_last_timestamp m.timeline (thread m t)
            o.real_time in
        let awaken = Scheduling.on_thread_resume_by_manager s.scheduling m.manager_id in
        let controlled =
          Scheduling.set_thread_currently_controlling_manager awaken (some m.manager_id) in
        record (with_thread (with_timeline g timeline') t (record s { scheduling = controlled })) {
          last_resumed = some t;
        }

    -- A thread that is too far ahead, once this core is disabled.
    unfoldable pub resume_disabled : Scheduler T → ℕ → Bool → Option (Scheduler T)
    unfolding resume_as_controller push_back_thread limit_next_timeslice
    resume_disabled g t true =
        let (timeline', s) =
          c.update_resuming_suspended_thread_timestamp (manager_of g).timeline
            (thread (manager_of g) t) in
        some (resume_as_controller (with_thread (with_timeline g timeline') t s) t)
    resume_disabled g t false = do
      g' ← push_back_thread H c o g t
      some (limit_next_timeslice (record g' { blocked_by_ert = suc g'.blocked_by_ert }) o)

    unfoldable pub resume_far_ahead : Scheduler T → ℕ → Option (Scheduler T)
    unfolding resume_disabled
    resume_far_ahead g t = do
      (timeline', everyone_disabled) ← c.disable_core (manager_of g).timeline
      resume_disabled (with_timeline g timeline') t everyone_disabled

    -- Only a thread that is too far ahead is asked whether it may leap.
    unfoldable pub resume_thread : Scheduler T → ℕ → Option (Scheduler T)
    unfolding is_thread_too_far_ahead_in_virtual_time is_valid_to_leap resume_as_controller
        resume_far_ahead
    resume_thread g t =
        let (asked, valid) = is_valid_to_leap H c o g t in
        if is_thread_too_far_ahead_in_virtual_time g t
        then if valid then some (resume_as_controller asked t) else resume_far_ahead asked t
        else some (resume_as_controller g t)

    abbrev pub after_model_simulation : Scheduler T → Scheduler T
    after_model_simulation g = g

    abbrev pub strict_methods : VirtualMethods T
    strict_methods = record { resume = resume_thread; after_model = after_model_simulation }

    -- `frozen`: is the scheduler's `freeze` other than 0?
    unfoldable pub no_threads_to_schedule : Scheduler T → Bool → Option (Scheduler T × Bool)
    unfolding Thread.empty
    no_threads_to_schedule g frozen =
        if (is_none (manager_of g).running_thread && Thread.empty (manager_of g).runnable_threads)
          || frozen
        then (do
          (timeline', _) ← c.disable_core (manager_of g).timeline
          some (with_timeline g timeline', true))
        else some (g, false)

    -- A thread whose core is to wait for the others is made to suspend, whatever it intends.
    unfoldable pub force_if_blocked : Scheduler T → ℕ → Option (Scheduler T)
    unfolding Scheduling.force_thread_suspend limit_next_timeslice
    force_if_blocked g t = do
      (timeline', blocks) ←
          c.should_block_core_progress (manager_of g).timeline g.group.scheduler_timeslot
      let g' = with_timeline g timeline'
      let s = thread (manager_of g') t
      let forced = record s { scheduling = Scheduling.force_thread_suspend s.scheduling }
      some (if blocks then limit_next_timeslice (with_thread g' t forced) o else g')

    unfoldable pub signal_running : Scheduler T → ℕ → Bool → Option (Scheduler T × Bool)
    unfolding is_signalled_thread_going_to_suspend Thread.erase
    signal_running g t true = do
      (group', suspended) ← is_signalled_thread_going_to_suspend H g.group t
      some (record g { group = group' }, suspended)
    signal_running g t false =
        let q = Thread.erase H (manager_of g).runnable_threads t in
        some (with_manager g (record (manager_of g) { runnable_threads = q }), false)

    unfoldable pub suspend_thread : Scheduler T → ℕ → Bool → Option (Scheduler T × Bool)
    unfolding is_thread force_if_blocked signal_running
    suspend_thread g t sent =
        if is_thread (manager_of g).running_thread t
        then (do g' ← force_if_blocked g t; signal_running g' t sent)
        else some (g, true)

    -- By the thread on top of the queue.
    unfoldable pub resume_top : List Others → Scheduler T → Option ℕ → Round (Scheduler T)
    unfolding continue_thread continued
    resume_top acts g none = elim (c.disable_core (manager_of g).timeline) [
      | none ↦ failed
      | some (timeline', everyone_disabled) ↦ continued (done (with_timeline g timeline'))
    ]
    resume_top acts g (some t) = continued (continue_thread H c o strict_methods acts g (some t))

    unfoldable pub resume_next : List Others → Scheduler T → Round (Scheduler T)
    unfolding limit_next_timeslice resume_top
    resume_next acts g =
        elim (c.should_block_core_progress (manager_of g).timeline g.group.scheduler_timeslot) [
          | none ↦ failed
          | some (timeline', blocks) ↦
              let g' = with_timeline g timeline' in
              let waits = record g' { synchronization_waits = suc g'.synchronization_waits } in
              let next = resume_top acts g' (top (manager_of g').runnable_threads.queue) in
              if blocks then done (limit_next_timeslice waits o) else next
        ]

    unfoldable pub after_suspension :
        List Others → Option (Scheduler T × Bool) → Round (Scheduler T)
    unfolding resume_next
    after_suspension acts none = failed
    after_suspension acts (some (g, suspended)) =
        let next = resume_next acts g in if suspended then next else done g

    unfoldable pub round_from : List Others → Scheduler T → Option ℕ → Round (Scheduler T)
    unfolding suspend_thread resume_next after_suspension
    round_from acts g none = resume_next acts g
    round_from acts g (some r) = after_suspension acts (suspend_thread g r (o.signal_sent r))

    unfoldable pub suspend_running_resume_next : List Others → Scheduler T → Round (Scheduler T)
    unfolding round_from
    suspend_running_resume_next acts g = round_from acts g (manager_of g).running_thread
