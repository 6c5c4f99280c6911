-- ===== src/Manager/Loose/Tests.antt =====
-- A loose manager of one core of two, and a thread whose time is scaled.
use vexjine.Common.{
  ◌≡◌, ◌==◌, refl, ℕ, arith, true, some, none, [], ◌∷◌, count, pos, ◌+ℤ◌, if◌then◌else◌,
}
use vexjine.Threads.Samples.{thread_at, unscaled}
use vexjine.Threads.Timers
use vexjine.Queue.Heap.Sorted.{sorted_heap}
use vexjine.Timeline.Multicore.{MulticoreVirtualTimeline}
use vexjine.Timeline.Controllers.Multiple
use vexjine.Timeline.Controllers.Multiple.{multiple_controller}
use vexjine.Manager.{another_thread_already_set_running}
use vexjine.Manager.Signals.{SchedulingManager}
use vexjine.Manager.Rounds.Samples.{idle_scheduler}
use vexjine.Manager.Loose.{set_time_scaling_factor, set_running_thread}
use vexjine.Manager.Loose.Barrier.{LeavesThreads, StandsAt, ticks, charged}
use vexjine.Manager.Loose.Running.{started, barrier-StandsAt}

abbrev two_cores : MulticoreVirtualTimeline
two_cores = record {
  global_virtual_time = pos 5;
  local_core_virtual_times = pos 30 ∷ pos 5 ∷ [];
  local_core_active = none;
}

core-LeavesThreads : LeavesThreads (multiple_controller 0)
unfolding Multiple.commit_cpu_time_progress Multiple.commit_native_waiting_progress
    Multiple.update_resuming_suspended_thread_timestamp Timers.leap_forward_to
core-LeavesThreads = record {
  cpu = λ v s. refl;
  native = λ v s. refl;
  resumed = λ v s. ground arith;
}

abbrev twice : ℕ
twice = 0x40000000

-- Thread 1 runs at twice the speed.
abbrev scaled_and_not : SchedulingManager MulticoreVirtualTimeline
scaled_and_not =
    (idle_scheduler two_cores
      (λ t.
        if t == 1 then set_time_scaling_factor (thread_at 1 (pos 4)) twice else thread_at t (pos 9))
      (2 ∷ []) 0).group

barrier-StandsAt_example :
    (g' : SchedulingManager MulticoreVirtualTimeline) × ((set_running_thread sorted_heap
          (multiple_controller 0)
          unscaled
          1
          scaled_and_not
          1
        ≡ some (g', true))
      × StandsAt sorted_heap
          (multiple_controller 0)
          unscaled
          1
          (ticks sorted_heap (multiple_controller 0) unscaled 1 g' 1 (pos 7 ∷ pos 8 ∷ []))
          1
          twice
          ((started (multiple_controller 0) scaled_and_not 1).timers.estimated_real_time
            +ℤ charged sorted_heap (multiple_controller 0) unscaled 1 twice (pos 7 ∷ pos 8 ∷ [])))
unfolding another_thread_already_set_running count
barrier-StandsAt_example =
    barrier-StandsAt sorted_heap (multiple_controller 0) unscaled 1 core-LeavesThreads
      scaled_and_not 1 twice (pos 7 ∷ pos 8 ∷ []) refl (tt, tt) refl refl refl
