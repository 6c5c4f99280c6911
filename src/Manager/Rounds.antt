-- ===== src/Manager/Rounds.antt =====
-- ThreadManager.cpp: one round of the scheduler, which suspends the running thread and goes on with
-- the thread on top of the queue, by that thread's state. A thread's access key is held all along.
-- `none` is a failed assertion, or a signalled thread that has not answered yet.
pub mod Choice
pub mod Kept
pub mod Progress
pub mod Samples
mod Tests
use vexjine.Common.{
  ℕ, zero, suc, ◌+◌, ◌==◌, Bool, true, false, not, ◌&&◌, ◌||◌, Option, none, some, ℤ, pos, negsuc,
  ◌-ℤ◌, ltb_ℤ, leb_ℤ, ◌>>=◌, eqb_ℤ, if◌then◌else◌,
}
use vexjine.Threads.Code.{in_io_stale, custom3, eq_code, in_model}
use vexjine.Threads.Timers.{update_cpu_time_adding_simulated_virtual_time, float_one}
use vexjine.Threads.Timers.Waiting.{set_timeout}
use vexjine.Threads.Scheduling
use vexjine.Threads.Scheduling.{to_be_disregarded, Intention}
use vexjine.Threads.State.{
  VexThreadState, is_suspended, is_running, in_io_learning_phase, in_io_prediction_phase,
  is_timed_waiting, is_model_timed_waiting, is_simulating_model,
  is_waiting_real_code_to_complete_after_model_simulation, set_logged_only,
  wait_for_real_code_to_complete,
}
use vexjine.Threads.State.Waiting.{is_io_prediction_still_valid}
use vexjine.Registries.Threads.{ThreadRegistry}
use vexjine.Queue.Heap.{HeapFunctions}
use vexjine.Queue.Thread
use vexjine.Queue.Priority.{top}
use vexjine.Timeline.Controllers.{VirtualTimelineController}
use vexjine.Manager.{
  ThreadManager, thread, set_thread, is_thread, push_into_runnable_queue,
  on_any_replaced_waiting_interrupt,
}
use vexjine.Manager.Signals.{SchedulingManager, suspend_thread}
use vexjine.Manager.Leaps.{LeapMemory, LeapCall, is_valid_to_leap_in_virtual_time_to}

-- A manager with all that its scheduler's rounds change.
pub record Scheduler (T : Type 0) : Type 0 where
  pub group : SchedulingManager T
  pub leap_memory : LeapMemory
  pub thread_registry : ThreadRegistry
  pub pending_notifications : ℕ
  pub last_resumed : Option ℕ
  pub force_minimum_timeslot_selection : Bool
  pub times_of_minimum_timeslot_forcing : ℕ
  pub timed_outs_succeeded : ℕ
  pub timed_outs_failed : ℕ
  pub current_time_scaling_factor : ℕ
  -- The counters of a StrictParallelThreadManager.
  pub synchronization_waits : ℕ
  pub normal_continuations : ℕ
  pub blocked_by_ert : ℕ

-- The virtual methods that the rounds of every class of manager call.
pub record VirtualMethods (T : Type 0) : Type 0 where
  pub resume : Scheduler T → ℕ → Option (Scheduler T)
  pub after_model : Scheduler T → Scheduler T

-- What a round reads from outside: the clock, signals, the system's view of the threads, a model's
-- run for some time, and `(long long)(0.75 * t)` and `(long long)(1.2 * t)`.
pub record Outside : Type 0 where
  pub real_time : ℤ
  pub signal_sent : ℕ → Bool
  pub waiting_in_real_time : ℕ → Bool
  pub all_native_waiting_blocked : Bool
  pub resume_model_simulation : VexThreadState → ℤ → VexThreadState × Bool
  pub three_quarters : ℤ → ℤ
  pub six_fifths : ℤ → ℤ

module _ {T : Type 0} where
  abbrev pub manager_of : Scheduler T → ThreadManager T
  manager_of g = g.group.manager

  abbrev pub with_manager : Scheduler T → ThreadManager T → Scheduler T
  with_manager g m = record g { group = record (g.group) { manager = m } }

  abbrev pub with_thread : Scheduler T → ℕ → VexThreadState → Scheduler T
  with_thread g t s = with_manager g (set_thread (manager_of g) t s)

  -- What `isValidToLeapInVirtualTimeTo` reads.
  abbrev pub leap_call : Scheduler T → Outside → ℕ → LeapCall T
  leap_call g o t = record {
    timeline = (manager_of g).timeline;
    thread_registry = record (g.thread_registry) {
      threads = (manager_of g).runnable_threads.threads;
    };
    state = t;
    waiting_in_real_time = o.waiting_in_real_time t;
    pending_notifications = g.pending_notifications;
    all_native_waiting_blocked = o.all_native_waiting_blocked;
    real_time = o.real_time;
  }

  unfoldable pub limit_next_timeslice : Scheduler T → Outside → Scheduler T
  limit_next_timeslice g o = record g {
    group = record (g.group) {
      decrease_scheduler_sleeping_time_by = o.three_quarters g.group.scheduler_timeslot;
    };
  }

  unfoldable pub after_model_simulation : Scheduler T → Scheduler T
  after_model_simulation g = record g {
    group = record (g.group) {
      decrease_scheduler_sleeping_time_by = g.group.scheduler_timeslot -ℤ pos 1_000_000;
    };
  }

  module _ (H : HeapFunctions) (c : VirtualTimelineController T) (o : Outside) where
    unfoldable pub push_back_thread : Scheduler T → ℕ → Option (Scheduler T)
    unfolding push_into_runnable_queue
    push_back_thread g t = do
      m ← push_into_runnable_queue H (manager_of g) t
      some (with_manager g m)

    -- The handshake: the thread is awaken, and is stamped and controlled by this manager.
    unfoldable pub resume_thread : Scheduler T → ℕ → Scheduler T
    unfolding Scheduling.on_thread_resume_by_manager
        Scheduling.set_thread_currently_controlling_manager
    resume_thread g t =
        let m = manager_of g in
        let s = thread m t in
        let (timeline', s') =
          c.update_resuming_suspended_thread_resumed_last_timestamp m.timeline
            (record s {
              scheduling = Scheduling.on_thread_resume_by_manager s.scheduling m.manager_id;
            })
            o.real_time in
        let controlled =
          Scheduling.set_thread_currently_controlling_manager s'.scheduling (some m.manager_id) in
        let m' = record (set_thread m t (record s' { scheduling = controlled })) {
          timeline = timeline';
        } in
        record (with_manager g m') {
          last_resumed = some t;
          current_time_scaling_factor = s'.timers.virtual_time_speedup;
        }

    unfoldable pub is_valid_to_leap : Scheduler T → ℕ → Scheduler T × Bool
    unfolding is_valid_to_leap_in_virtual_time_to
    is_valid_to_leap g t =
        let (memory, valid) =
          is_valid_to_leap_in_virtual_time_to c g.leap_memory (leap_call g o t) in
        (record g { leap_memory = memory }, valid)

    unfoldable pub interrupt_timed_out_io_thread : Scheduler T → ℕ → Option (Scheduler T)
    unfolding is_valid_to_leap push_back_thread
    interrupt_timed_out_io_thread g t =
        let (g', valid) = is_valid_to_leap g t in
        let m = manager_of g' in
        if valid
        then (do
          (timeline', s) ← c.commit_timed_out_io_progress m.timeline (thread m t)
          some (
              with_manager g'
                (record (set_thread m t (record s { timed_out = true })) { timeline = timeline' })))
        else push_back_thread g' t

    unfoldable pub handle_io_performing_thread : Scheduler T → ℕ → Option (Scheduler T)
    unfolding in_io_prediction_phase is_io_prediction_still_valid set_logged_only
        Thread.invalidate_expired_io_predictions interrupt_timed_out_io_thread
    handle_io_performing_thread g t =
        let m = manager_of g in
        let s = thread m t in
        if in_io_prediction_phase s
        then if s.io_handler.io_finished_before_logging
          then some g
          else if is_io_prediction_still_valid s o.real_time
          then some (record (with_thread g t (set_logged_only s in_io_stale)) {
            force_minimum_timeslot_selection = true;
            times_of_minimum_timeslot_forcing = suc g.times_of_minimum_timeslot_forcing;
          })
          else (do
            q ← Thread.invalidate_expired_io_predictions H m.runnable_threads o.real_time
            some (with_manager g (record m { runnable_threads = q })))
        else if s.timers.virtual_time_speedup == float_one
        then if eqb_ℤ s.timers.timeout (negsuc 0) then none else interrupt_timed_out_io_thread g t
        else some g

    -- The methods of the class ThreadManager itself.
    abbrev pub thread_manager_methods : VirtualMethods T
    thread_manager_methods = record {
      resume = λ g t. some (resume_thread g t);
      after_model = after_model_simulation;
    }

    unfoldable pub interrupt_timed_waiting_thread :
        VirtualMethods T → Scheduler T → ℕ → Option (Scheduler T)
    unfolding is_valid_to_leap set_logged_only on_any_replaced_waiting_interrupt push_back_thread
    interrupt_timed_waiting_thread methods g t =
        let (g', valid) = is_valid_to_leap g t in
        let m = manager_of g' in
        let (timeline', s) = c.commit_timed_waiting_progress m.timeline (thread m t) in
        let committed = record (set_thread m t s) { timeline = timeline' } in
        if valid
        then (do
          m' ← on_any_replaced_waiting_interrupt H c committed t (pos 0)
          let g'' =
              record (with_thread (with_manager g' m') t
                (record (thread m' t) { timed_out = true })) {
                  timed_outs_succeeded = suc g'.timed_outs_succeeded;
                }
          methods.resume g'' t)
        else push_back_thread
            (record (with_thread g' t (set_logged_only (thread m t) custom3)) {
              timed_outs_failed = suc g'.timed_outs_failed;
            })
            t
