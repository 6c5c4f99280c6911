-- ===== src/Manager/Signals.antt =====
-- ThreadManager.cpp: how a manager's scheduler suspends a thread. It sends a signal, whose handler
-- in the thread leaves an intention, which the scheduler waits for and follows. The scheduler holds
-- the thread's access key all along; the branch for a key that it does not get is left out.
pub mod Outcome
use vexjine.Common.{
  ℕ, zero, suc, ◌+◌, ◌/◌, ◌==◌, Bool, true, false, Option, none, some, ℤ, pos, negsuc, ◌+ℤ◌, ltb_ℤ,
  if◌then◌else◌,
}
use vexjine.Threads.Scheduling
use vexjine.Threads.Scheduling.{
  Scheduling, Intention, clear_suspendflag, to_be_suspended, to_keep_on_running, to_be_disregarded,
  resuming_suspendflag,
}
use vexjine.Queue.Heap.{HeapFunctions}
use vexjine.Queue.Thread
use vexjine.Manager.{
  ThreadManager, thread, set_thread, is_thread, unset_current_thread_from_running_thread,
  set_suspended,
}

-- A manager with the timeslots and counters of its scheduler.
pub record SchedulingManager (T : Type 0) : Type 0 where
  pub manager : ThreadManager T
  pub minimize_timeslot_on_nw : Bool
  pub number_of_native_waiting_threads : ℤ
  pub scheduler_timeslot : ℤ
  pub default_scheduler_timeslot : ℤ
  pub decrease_scheduler_sleeping_time_by : ℤ
  pub posix_signals_sent : ℕ

-- The quotient by 2, towards 0.
unfoldable pub half_ℤ : ℤ → ℤ
half_ℤ (pos n) = pos (n / 2)
half_ℤ (negsuc zero) = pos 0
half_ℤ (negsuc (suc n)) = negsuc (n / 2)

module _ {T : Type 0} where
  unfoldable pub minimize_scheduler_timeslot : SchedulingManager T → SchedulingManager T
  minimize_scheduler_timeslot g =
      if ltb_ℤ (pos 2_000_000) g.default_scheduler_timeslot
      then record g { scheduler_timeslot = pos 2_000_000 }
      else g

  unfoldable pub on_intention_to_be_disregarded : SchedulingManager T → ℕ → SchedulingManager T
  unfolding unset_current_thread_from_running_thread minimize_scheduler_timeslot
  on_intention_to_be_disregarded g t =
      let g' = record g { manager = unset_current_thread_from_running_thread g.manager t } in
      let count = g.number_of_native_waiting_threads +ℤ pos 1 in
      let counted = record g' { number_of_native_waiting_threads = count } in
      if g.minimize_timeslot_on_nw
      then if ltb_ℤ (pos 0) count then minimize_scheduler_timeslot counted else counted
      else g'

  unfoldable pub on_intention_to_keep_on_running : SchedulingManager T → ℕ → SchedulingManager T
  unfolding Scheduling.set_thread_currently_controlling_manager half_ℤ
  on_intention_to_keep_on_running g t =
      let m = g.manager in
      let s = thread m t in
      let controlled =
        Scheduling.set_thread_currently_controlling_manager s.scheduling (some m.manager_id) in
      record g {
        manager = record (set_thread m t (record s { scheduling = controlled })) {
          running_thread = some t;
        };
        decrease_scheduler_sleeping_time_by =
            g.decrease_scheduler_sleeping_time_by +ℤ half_ℤ g.scheduler_timeslot;
      }

  -- The thread's state once its intention is read.
  unfoldable pub answered : SchedulingManager T → ℕ → Scheduling → SchedulingManager T
  answered g t scheduling = record g {
    manager = set_thread g.manager t (record (thread g.manager t) { scheduling = scheduling });
    posix_signals_sent = suc g.posix_signals_sent;
  }

  module _ (H : HeapFunctions) where
    unfoldable pub suspend_signalled : SchedulingManager T → ℕ → Option (SchedulingManager T × Bool)
    unfolding set_suspended
    suspend_signalled g t = elim (set_suspended H g.manager t) [
      | none ↦ none
      | some m ↦ some (record g { manager = m }, true)
    ]

    unfoldable pub follow :
        SchedulingManager T → ℕ → Intention → Option (SchedulingManager T × Bool)
    unfolding suspend_signalled on_intention_to_be_disregarded on_intention_to_keep_on_running
    follow g t to_be_suspended = suspend_signalled g t
    follow g t to_be_disregarded = some (on_intention_to_be_disregarded g t, true)
    follow g t to_keep_on_running = some (on_intention_to_keep_on_running g t, false)
    follow g t resuming_suspendflag = some (on_intention_to_keep_on_running g t, false)
    follow g t clear_suspendflag = some (on_intention_to_keep_on_running g t, false)

    -- `none`: the thread has not left its intention yet, or the queue's assertion fails.
    unfoldable pub is_signalled_thread_going_to_suspend :
        SchedulingManager T → ℕ → Option (SchedulingManager T × Bool)
    unfolding Scheduling.get_suspending_thread_intention answered follow
    is_signalled_thread_going_to_suspend g t =
        elim (Scheduling.get_suspending_thread_intention (thread g.manager t).scheduling) [
          | none ↦ none
          | some (scheduling, intention) ↦ follow (answered g t scheduling) t intention
        ]

    -- `sent` tells whether the signal could be sent.
    unfoldable pub suspend_thread :
        SchedulingManager T → ℕ → Bool → Option (SchedulingManager T × Bool)
    unfolding is_thread is_signalled_thread_going_to_suspend Thread.erase
    suspend_thread g t sent =
        let erased = Thread.erase H g.manager.runnable_threads t in
        let failed = record g { manager = record (g.manager) { runnable_threads = erased } } in
        let asked = is_signalled_thread_going_to_suspend g t in
        if is_thread g.manager.running_thread t
        then if sent then asked else some (failed, false)
        else some (g, true)
