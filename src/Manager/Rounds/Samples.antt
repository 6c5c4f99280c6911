-- ===== src/Manager/Rounds/Samples.antt =====
-- A scheduler for the tests, over any timeline, and a calm world around it.
use vexjine.Common.{ℕ, true, false, none, List, pos}
use vexjine.Threads.Samples.{thread_at}
use vexjine.Threads.State.{VexThreadState}
use vexjine.Threads.Timers
use vexjine.Registries.Threads
use vexjine.Manager.Leaps.{new_leap_memory}
use vexjine.Manager.Rounds.{Scheduler, Outside}

abbrev pub calm : Outside
calm = record {
  real_time = pos 50;
  signal_sent = λ t. true;
  waiting_in_real_time = λ t. false;
  all_native_waiting_blocked = false;
  resume_model_simulation = λ s total. (s, true);
  three_quarters = λ z. z;
  six_fifths = λ z. z;
}

-- No thread runs, and the queue holds the given threads.
abbrev pub idle_scheduler : {T : Type 0} → T → (ℕ → VexThreadState) → List ℕ → ℕ → Scheduler T
idle_scheduler timeline threads queue pending = record {
  group = record {
    manager = record {
      manager_id = 0;
      runnable_threads = record { threads = threads; queue = queue };
      running_thread = none;
      last_suspended = none;
      timeline = timeline;
      object_registry = none;
    };
    minimize_timeslot_on_nw = false;
    number_of_native_waiting_threads = pos 0;
    scheduler_timeslot = pos 1000;
    default_scheduler_timeslot = pos 1000;
    decrease_scheduler_sleeping_time_by = pos 0;
    posix_signals_sent = 0;
  };
  leap_memory = new_leap_memory;
  thread_registry = Threads.new_registry (λ t. thread_at t (pos 0));
  pending_notifications = pending;
  last_resumed = none;
  force_minimum_timeslot_selection = false;
  times_of_minimum_timeslot_forcing = 0;
  timed_outs_succeeded = 0;
  timed_outs_failed = 0;
  current_time_scaling_factor = Timers.float_one;
  synchronization_waits = 0;
  normal_continuations = 0;
  blocked_by_ert = 0;
}
