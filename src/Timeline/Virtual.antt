-- ===== src/Timeline/Virtual.antt =====
-- The class VirtualTimeline: one virtual clock. Its mutex makes each operation one step. Times are
-- exact integers in nanoseconds, as in the clocks of the threads.
pub mod Parallel
use vexjine.Common.{ℤ, pos, ◌+ℤ◌, ltb_ℤ, if◌then◌else◌}

pub record VirtualTimeline : Type 0 where
  pub global_virtual_time : ℤ
  pub unknown_parallel_time : ℤ

abbrev pub reset : VirtualTimeline
reset = record { global_virtual_time = pos 0; unknown_parallel_time = pos 0 }

unfoldable pub leap_forward_to : VirtualTimeline → ℤ → VirtualTimeline
leap_forward_to v forward =
    let target = forward +ℤ v.unknown_parallel_time in
    record v {
      global_virtual_time =
          if ltb_ℤ v.global_virtual_time target then target else v.global_virtual_time;
      unknown_parallel_time = pos 0;
    }

unfoldable pub add_time_of_unknown_real_time_duration_and_synchronize :
    VirtualTimeline → ℤ → VirtualTimeline
add_time_of_unknown_real_time_duration_and_synchronize v forward = record v {
  global_virtual_time = v.global_virtual_time +ℤ forward;
}

unfoldable pub add_time_of_thread_executing_at_unknown_time : VirtualTimeline → ℤ → VirtualTimeline
add_time_of_thread_executing_at_unknown_time v forward = record v {
  global_virtual_time = v.global_virtual_time +ℤ forward;
  unknown_parallel_time = v.unknown_parallel_time +ℤ forward;
}
