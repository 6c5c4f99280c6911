-- ===== src/Manager/Strict/Tests.antt =====
-- A strict manager of one core of two.
use vexjine.Common.{
  ◌≡◌, ◌==◌, refl, inl, true, false, some, [], ◌∷◌, count, pos, ◌-ℤ◌, arith, if◌then◌else◌,
}
use vexjine.Threads.Samples.{thread_at}
use vexjine.Threads.State.{is_suspended}
use vexjine.Threads.Timers
use vexjine.Threads.Timers.Waiting
use vexjine.Queue.Heap.Sorted.{sorted_heap}
use vexjine.Queue.Priority
use vexjine.Timeline.Multicore
use vexjine.Timeline.Multicore.{MulticoreVirtualTimeline}
use vexjine.Timeline.Multicore.Blocking.{disable-free}
use vexjine.Timeline.Controllers.{VirtualTimelineController}
use vexjine.Timeline.Controllers.Multiple
use vexjine.Timeline.Controllers.Multiple.{multiple_controller}
use vexjine.Manager.Rounds.{Scheduler, is_valid_to_leap}
use vexjine.Manager.Leaps.{is_valid_to_leap_in_virtual_time_to}
use vexjine.Manager.Rounds.Choice.{undisturbed, done}
use vexjine.Manager.Rounds.Kept.{OnlyStamps}
use vexjine.Manager.Rounds.Samples.{calm, idle_scheduler}
use vexjine.Manager.Strict.{
  is_thread_too_far_ahead_in_virtual_time, resume_thread, suspend_running_resume_next,
}
use vexjine.Manager.Strict.Outcome.{Disables, Ends, is_held_back, resume_thread-Resumed}
use vexjine.Manager.Strict.Progress.{RoundEnd, strict_round-RoundEnd}

-- Both cores take part, and this one is ahead.
abbrev two_active : MulticoreVirtualTimeline
two_active = record {
  global_virtual_time = pos 5;
  local_core_virtual_times = pos 30 ∷ pos 5 ∷ [];
  local_core_active = some (true ∷ true ∷ []);
}

abbrev core : VirtualTimelineController MulticoreVirtualTimeline
core = multiple_controller 0

core-OnlyStamps : OnlyStamps core
unfolding Multiple.update_resuming_suspended_thread_resumed_last_timestamp
    Multiple.commit_timed_waiting_progress Multiple.update_interrupted_waiting_thread_timestamp
    Timers.update_times_after_resuming Timers.set_estimated_real_time Timers.leap_forward_to
    Waiting.update_waiting_time_from
core-OnlyStamps = record {
  resumed = λ v s now. (refl, ground arith);
  committed = λ v s. (refl, ground arith);
  interrupted = λ v s time. (refl, refl);
}

core-Disables : Disables core
core-Disables v = disable-free v 0

-- Thread 1 far ahead of the global time, and thread 2 near it; a notification is pending.
abbrev far_and_near : Scheduler MulticoreVirtualTimeline
far_and_near =
    idle_scheduler two_active (λ t. if t == 1 then thread_at 1 (pos 4000) else thread_at t (pos 9))
      (2 ∷ []) 1

thread_1_is_held_back : is_held_back sorted_heap core calm far_and_near 1 false ≡ true
unfolding is_thread_too_far_ahead_in_virtual_time is_valid_to_leap
    is_valid_to_leap_in_virtual_time_to Multiple.get_how_far_ahead_in_virtual_time_the_thread_is
    ◌-ℤ◌
thread_1_is_held_back = refl

resume_thread-Resumed_example :
    (g' : Scheduler MulticoreVirtualTimeline) × ((resume_thread sorted_heap core calm far_and_near 1
        ≡ some g')
      × Ends sorted_heap core calm far_and_near 1
          (is_held_back sorted_heap core calm far_and_near 1 false)
          g')
unfolding count Multicore.disable_local_timeline
resume_thread-Resumed_example =
    resume_thread-Resumed sorted_heap core calm far_and_near 1
      (record two_active { local_core_active = some (false ∷ true ∷ []) }) false refl (tt, tt) refl

strict_round-RoundEnd_example :
    (g' : Scheduler MulticoreVirtualTimeline) × ((suspend_running_resume_next sorted_heap core calm
          (undisturbed ∷ [])
          far_and_near
        ≡ done g')
      × RoundEnd sorted_heap far_and_near undisturbed 2 g' false)
unfolding count Priority.top is_suspended Multicore.should_block_core_progress ◌-ℤ◌
strict_round-RoundEnd_example =
    strict_round-RoundEnd sorted_heap core calm core-OnlyStamps core-Disables undisturbed []
      far_and_near 2 two_active false refl refl refl (tt, tt) refl refl (inl refl)
