-- ===== src/Manager/Tests.antt =====
-- A manager with two queued threads.
use vexjine.Common.{
  ℕ, ◌≡◌, ◌-ℤ◌, ◌+ℤ◌, if◌then◌else◌, ℤ, ◌≢◌, Bool, ◌==◌, refl, true, false, none, some, [], ◌∷◌,
  count, pos, arith,
}
use vexjine.Threads.Samples.{thread_at}
use vexjine.Threads.State.{is_running}
use vexjine.Threads.Timers
use vexjine.Queue.Heap.Sorted.{sorted_heap}
use vexjine.Queue.Thread.{ThreadQueue}
use vexjine.Queue.Thread.Laws.{Ordered}
use vexjine.Timeline.Virtual
use vexjine.Timeline.Virtual.{VirtualTimeline}
use vexjine.Timeline.Controllers.Single
use vexjine.Timeline.Controllers.Single.{single_controller}
use vexjine.Manager.{
  ThreadManager, thread, is_queued_timeout, change_thread_state_to_running, set_system_call_thread,
  on_any_replaced_waiting_interrupt,
}
use vexjine.Manager.Interrupts.{KeepsTimeout, IsPlaced, Requeued, interrupt-Requeued}
use vexjine.Threads.Scheduling.{new_scheduling, to_be_suspended, clear_suspendflag}
use vexjine.Manager.Signals.{SchedulingManager, suspend_thread}
use vexjine.Manager.Signals.Outcome.{Outcome, suspend_thread-Outcome}
use vexjine.Threads.Code.{native_waiting}
use vexjine.Threads.State
use vexjine.Threads.IoHandler.{new_io_handler}
use vexjine.Registries.Threads
use vexjine.Registries.Threads.Activity
use vexjine.Manager.Leaps.{
  LeapCall, leap_by_activity, poll_progress, is_valid_to_leap_in_virtual_time_to,
}
use vexjine.Manager.Leaps.Unmoved.{memory_after, Justified, leap-Justified}
use vexjine.Manager.Running.{Moves, stays, runs, calls_system, Moves-IsConsistent}

-- Thread 1 at time 4 and thread 2 at time 9.
abbrev two_queued : ThreadQueue
two_queued = record {
  threads = λ t. elim (t == 1) [ true ↦ thread_at 1 (pos 4) | false ↦ thread_at t (pos 9) ];
  queue = 1 ∷ 2 ∷ [];
}

abbrev idle_manager : ThreadManager VirtualTimeline
idle_manager = record {
  manager_id = 0;
  runnable_threads = two_queued;
  running_thread = none;
  last_suspended = none;
  timeline = Virtual.reset;
  object_registry = none;
}

two_queued-Ordered : Ordered sorted_heap two_queued
two_queued-Ordered = ((omega arith, tt), (tt, tt))

single-KeepsTimeout : KeepsTimeout single_controller
unfolding Single.update_interrupted_waiting_thread_timestamp Timers.set_estimated_real_time
single-KeepsTimeout v s time = refl

two_queued-IsPlaced : IsPlaced idle_manager 1
unfolding count is_queued_timeout Timers.new_timers
two_queued-IsPlaced = refl

interrupt-Requeued_example :
    (m' : ThreadManager VirtualTimeline) × ((on_any_replaced_waiting_interrupt sorted_heap
          single_controller idle_manager 1
          (pos 20)
        ≡ some m')
      × Requeued sorted_heap single_controller idle_manager 1 m')
interrupt-Requeued_example =
    interrupt-Requeued sorted_heap single_controller single-KeepsTimeout idle_manager 1 (pos 20)
      two_queued-Ordered two_queued-IsPlaced

-- Thread 1 starts to run and calls the system.
calling_manager :
    Moves sorted_heap idle_manager
      (set_system_call_thread (change_thread_state_to_running idle_manager 1).0 1)
calling_manager = calls_system 1 (runs 1 (stays idle_manager))

idle-IsConsistent : (r : ℕ) → none ≡ some r → is_running (thread idle_manager r) ≡ true
idle-IsConsistent r h = ground arith

Moves-IsConsistent_example :
    is_running
      (thread (set_system_call_thread (change_thread_state_to_running idle_manager 1).0 1) 1)
    ≡ true
unfolding change_thread_state_to_running set_system_call_thread
Moves-IsConsistent_example = Moves-IsConsistent sorted_heap calling_manager idle-IsConsistent 1 refl

-- Thread 3 runs and has left the answer that it is going to suspend.
abbrev signalled_manager : SchedulingManager VirtualTimeline
signalled_manager = record {
  manager = record idle_manager {
    running_thread = some 3;
    runnable_threads = record two_queued {
      threads = λ t. record (thread_at t (pos 9)) {
        scheduling = record (new_scheduling (pos 0)) { suspend_flag = to_be_suspended };
      };
    };
  };
  minimize_timeslot_on_nw = false;
  number_of_native_waiting_threads = pos 0;
  scheduler_timeslot = pos 1000;
  default_scheduler_timeslot = pos 1000;
  decrease_scheduler_sleeping_time_by = pos 0;
  posix_signals_sent = 0;
}

suspends-differs : to_be_suspended ≢ clear_suspendflag
suspends-differs h = ground arith

signalled-Ordered : Ordered sorted_heap signalled_manager.manager.runnable_threads
signalled-Ordered = ((omega arith, tt), (tt, tt))

suspend_thread-Outcome_example :
    (g' : SchedulingManager VirtualTimeline) × ((answer : Bool) × ((suspend_thread sorted_heap
            signalled_manager 3 true
          ≡ some (g', answer))
        × Outcome sorted_heap to_be_suspended signalled_manager 3 g' answer))
unfolding count
suspend_thread-Outcome_example =
    suspend_thread-Outcome sorted_heap signalled_manager 3 to_be_suspended refl refl
      suspends-differs signalled-Ordered refl

-- Thread 2 waits in native code, before the time of thread 1, and thread 3 is suspended after it.
abbrev waiting_registry : Threads.ThreadRegistry
waiting_registry =
    record (Threads.new_registry (λ t.
      if t == 2
      then record (thread_at 2 (pos 4)) { current_state = native_waiting }
      else if t == 1
      then thread_at 1 (pos 100)
      else thread_at t (pos 200))) { thread_state_index = (1, 1) ∷ (2, 2) ∷ (3, 3) ∷ [] }

abbrev call_at : ℤ → LeapCall VirtualTimeline
call_at now = record {
  timeline = Virtual.reset;
  thread_registry = waiting_registry;
  state = 1;
  waiting_in_real_time = false;
  pending_notifications = 0;
  all_native_waiting_blocked = true;
  real_time = now;
}

second_call :
    (is_valid_to_leap_in_virtual_time_to single_controller
      (memory_after single_controller (call_at (pos 1000) ∷ []))
      (call_at (pos 300_000_000))).1
    ≡ true
unfolding is_valid_to_leap_in_virtual_time_to Single.get_how_far_ahead_in_virtual_time_the_thread_is
    Timers.new_timers Threads.new_registry leap_by_activity poll_progress
    Activity.are_any_other_threads_active_in_former_time Activity.first_opinion Activity.opinion
    Activity.decide Activity.exists_suspended_from Activity.summed_ert
    Activity.get_summed_ert_of_all_threads State.is_definitely_active
    State.is_definitely_active_in_io State.is_registering State.is_suspended State.is_running
    State.is_somewhere_in_vex State.is_native_waiting ◌-ℤ◌ ◌+ℤ◌ new_scheduling new_io_handler
second_call = refl

leap-Justified_example :
    (false ≡ false)
    × Justified single_controller (call_at (pos 300_000_000)) (call_at (pos 1000) ∷ [])
leap-Justified_example =
    leap-Justified single_controller (call_at (pos 1000) ∷ []) (call_at (pos 300_000_000))
      second_call
