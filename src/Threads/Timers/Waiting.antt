-- ===== src/Threads/Timers/Waiting.antt =====
-- Timers.h and Timers.cpp: timeouts, and the time spent waiting.
use vexjine.Common.{ℕ, Bool, false, ℤ, pos, negsuc, ◌+ℤ◌, ◌-ℤ◌, ltb_ℤ, eqb_ℤ, if◌then◌else◌}
use vexjine.Threads.Timers.{
  Timers, FloatOps, long_max, maximum_consecutive_timeslices_as_blocked_in_monitor,
}

unfoldable pub update_io_waiting_time_from : Timers → ℤ → ℤ → Timers
update_io_waiting_time_from t starting actual =
    let leap = t.estimated_real_time -ℤ starting in
    if ltb_ℤ (pos 0) leap
    then if ltb_ℤ actual leap
      then record t { io_waiting_time = t.io_waiting_time +ℤ actual }
      else record t { io_waiting_time = t.io_waiting_time +ℤ leap }
    else t

unfoldable pub update_waiting_time_from : Timers → ℤ → Timers
update_waiting_time_from t starting =
    let leap = t.estimated_real_time -ℤ starting in
    if ltb_ℤ (pos 0) leap
    then record t { monitor_waiting_time = t.monitor_waiting_time +ℤ leap }
    else t

unfoldable pub set_timeout : Timers → ℤ → Timers
set_timeout t time = record t { timeout = time }

unfoldable pub set_timeout_flag_to_denote_possibly_resuming_thread : Timers → Timers
set_timeout_flag_to_denote_possibly_resuming_thread t = record t {
  timeout = pos 0;
  thread_still_blocked = maximum_consecutive_timeslices_as_blocked_in_monitor;
}

unfoldable pub rollback_from_time_out_value : Timers → Timers
rollback_from_time_out_value t = record t {
  estimated_real_time = t.estimated_real_time -ℤ t.timeout;
  timeout = negsuc 0;
}

-- Each query of a thread with timeout 0 uses up one of its chances.
unfoldable pub is_thread_still_blocked_in_monitor : Timers → Timers × Bool
is_thread_still_blocked_in_monitor t =
    if eqb_ℤ t.timeout (pos 0)
    then (
      record t { thread_still_blocked = t.thread_still_blocked -ℤ pos 1 },
      ltb_ℤ (pos 0) t.thread_still_blocked,
    )
    else (t, false)

-- `global` is the static `globalScalingFactor`.
unfoldable pub update_times_before_waiting_with_timeout : FloatOps → ℕ → Timers → ℤ → Timers
update_times_before_waiting_with_timeout f global t time =
    let t' = record t { timeout = time } in
    if eqb_ℤ time (pos 0)
    then record t' { thread_still_blocked = maximum_consecutive_timeslices_as_blocked_in_monitor }
    else if f.reaches time (long_max -ℤ t.estimated_real_time) t.virtual_time_speedup global
    then record t' { estimated_real_time = long_max }
    else record t' {
      estimated_real_time = f.plus_times₂ t.estimated_real_time time t.virtual_time_speedup global;
    }
