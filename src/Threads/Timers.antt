-- ===== src/Threads/Timers.antt =====
-- Timers.h and Timers.cpp: the clocks of one thread, in nanoseconds.
-- Times are exact integers (a `long long` of nanoseconds reaches 292 years). A `float` factor is
-- kept as its bit pattern, and what the code computes with floats is a parameter, `FloatOps`.
-- Reading a clock (`Time::getRealTime()`, `getVirtualTime()`) is an argument of the operation.
pub mod Waiting
pub mod Scaled
pub mod Laws
use vexjine.Common.{
  ℕ, Bool, true, false, not, ◌&&◌, ℤ, pos, negsuc, ◌+ℤ◌, ◌-ℤ◌, ltb_ℤ, eqb_ℤ, if◌then◌else◌,
}

pub record Timers : Type 0 where
  pub virtual_time : ℤ
  pub estimated_real_time : ℤ
  pub last_cpu_time : ℤ
  pub last_real_time : ℤ
  pub local_time_since_last_resume : ℤ
  pub resumed_last_at : ℤ
  pub resumed_last_at_real : ℤ
  pub last_time_in_handler : ℤ
  pub last_real_time_in_handler : ℤ
  pub last_time_per_state_ert : ℤ
  pub virtual_time_at_simulation_start : ℤ
  pub io_waiting_time : ℤ
  pub monitor_waiting_time : ℤ
  pub dont_update_to_global_time : Bool
  pub virtual_time_speedup : ℕ
  pub timeout : ℤ
  pub thread_still_blocked : ℤ

-- Products and quotients with `float` factors, each rounded and truncated as the hardware does.
pub record FloatOps : Type 0 where
  -- (long long)(t * a * b)
  pub times₂ : ℤ → ℕ → ℕ → ℤ
  -- (long long)(u + t * a * b), the sum in floats too
  pub plus_times₂ : ℤ → ℤ → ℕ → ℕ → ℤ
  -- (long long)(t * a)
  pub times₁ : ℤ → ℕ → ℤ
  -- (long long)(t / (a * b))
  pub over₂ : ℤ → ℕ → ℕ → ℤ
  -- t >= u / (a * b), compared as floats
  pub reaches : ℤ → ℤ → ℕ → ℕ → Bool
  -- t < a * u, compared as floats
  pub below : ℤ → ℕ → ℤ → Bool

-- LONG_MAX on the 64-bit platforms that the framework supports.
abbrev pub long_max : ℤ
long_max = pos 9_223_372_036_854_775_807

abbrev pub maximum_consecutive_timeslices_as_blocked_in_monitor : ℤ
maximum_consecutive_timeslices_as_blocked_in_monitor = pos 10

-- The bit pattern of 1.0f.
abbrev pub float_one : ℕ
float_one = 0x3f800000

-- The constructor: `resetCounters` at the real time `now`. The two fields that it does not
-- initialise come as arguments.
unfoldable pub new_timers : ℤ → ℤ → ℤ → Timers
new_timers now simulation_start still_blocked = record {
  virtual_time = pos 0;
  estimated_real_time = pos 0;
  last_cpu_time = pos 0;
  last_real_time = now;
  local_time_since_last_resume = pos 0;
  resumed_last_at = pos 0;
  resumed_last_at_real = now;
  last_time_in_handler = pos 0;
  last_real_time_in_handler = now;
  last_time_per_state_ert = pos 0;
  virtual_time_at_simulation_start = simulation_start;
  io_waiting_time = pos 0;
  monitor_waiting_time = pos 0;
  dont_update_to_global_time = false;
  virtual_time_speedup = float_one;
  timeout = negsuc 0;
  thread_still_blocked = still_blocked;
}

unfoldable pub set_estimated_real_time : Timers → ℤ → Timers
set_estimated_real_time t time = record t { estimated_real_time = time }

unfoldable pub set_synchronization_barrier_time : Timers → ℤ → Timers
set_synchronization_barrier_time t timeslot = record t {
  estimated_real_time = t.estimated_real_time +ℤ timeslot;
}

unfoldable pub clear_synchronization_barrier_time : Timers → ℤ → Timers
clear_synchronization_barrier_time t timeslot = record t {
  estimated_real_time = t.estimated_real_time -ℤ timeslot;
}

unfoldable pub leap_forward_to : Timers → ℤ → Timers
leap_forward_to t time =
    if ltb_ℤ t.estimated_real_time time then record t { estimated_real_time = time } else t

unfoldable pub leap_to_global_time : Timers → ℤ → Timers
leap_to_global_time t time =
    if not t.dont_update_to_global_time then record t { estimated_real_time = time } else t

unfoldable pub add_elapsed_time : Timers → ℤ → Timers × ℤ
add_elapsed_time t time =
    let t' = record t {
      virtual_time = t.virtual_time +ℤ time;
      estimated_real_time = t.estimated_real_time +ℤ time;
    } in
    (t', t'.virtual_time)

unfoldable pub add_global_time : Timers → ℤ → Timers
unfolding add_elapsed_time
add_global_time t time =
    let t' = (add_elapsed_time t time).0 in
    record t' { local_time_since_last_resume = t'.local_time_since_last_resume +ℤ time }

unfoldable pub before_current_global_time : Timers → ℤ → Bool
before_current_global_time t now = if ltb_ℤ t.estimated_real_time now then true else false

unfoldable pub set_last_cpu_time : Timers → ℤ → Timers
set_last_cpu_time t time = record t { last_cpu_time = time }

unfoldable pub set_resumed_last_at : Timers → ℤ → Timers
set_resumed_last_at t time = record t { resumed_last_at = time }

unfoldable pub update_last_resumed_to : Timers → ℤ → Timers
update_last_resumed_to t real = record t {
  last_time_in_handler = t.estimated_real_time;
  last_real_time_in_handler = real;
}

unfoldable pub update_times_after_resuming : Timers → ℤ → ℤ → Timers
update_times_after_resuming t resuming now =
    let resumed = if t.dont_update_to_global_time then t.estimated_real_time else resuming in
    record t {
      resumed_last_at = resumed;
      resumed_last_at_real = now;
      last_time_in_handler = resumed;
      last_real_time_in_handler = now;
      local_time_since_last_resume = pos 0;
    }

unfoldable pub set_last_time_per_state_ert : Timers → ℤ → Timers
set_last_time_per_state_ert t time = record t { last_time_per_state_ert = time }

unfoldable pub log_starting_virtual_time : Timers → Timers
log_starting_virtual_time t = record t { virtual_time_at_simulation_start = t.virtual_time }

unfoldable pub update_cpu_time_adding_simulated_virtual_time : Timers → Timers
update_cpu_time_adding_simulated_virtual_time t = record t {
  last_cpu_time = t.last_cpu_time +ℤ (t.virtual_time -ℤ t.virtual_time_at_simulation_start);
}

unfoldable pub get_current_virtual_timestamp_of_running_thread : Timers → ℤ
get_current_virtual_timestamp_of_running_thread t =
    t.resumed_last_at +ℤ t.local_time_since_last_resume

-- `setBlockingTimeToLastResumedTime`, and `unsetBlockingTimeToLastResumedTime`, which is the same.
unfoldable pub swap_blocking_time : Timers → Timers
swap_blocking_time t = record t {
  estimated_real_time = t.resumed_last_at;
  resumed_last_at = t.estimated_real_time;
}

unfoldable pub update_clocks : Timers → ℤ → ℤ → Timers × ℤ
update_clocks t cpu real = (record t { last_cpu_time = cpu; last_real_time = real }, cpu)

unfoldable pub leap_forward_by : Timers → ℤ → Timers × ℤ
leap_forward_by t time =
    let t' = record t { estimated_real_time = t.estimated_real_time +ℤ time } in
    (t', t'.estimated_real_time)

unfoldable pub leap_to : Timers → ℤ → Timers × ℤ
leap_to t time =
    let t' =
      if ltb_ℤ t.estimated_real_time time then record t { estimated_real_time = time } else t in
    (t', t'.estimated_real_time)

unfoldable pub get_and_reset_local_time : Timers → Timers × ℤ
get_and_reset_local_time t =
    (record t { local_time_since_last_resume = pos 0 }, t.local_time_since_last_resume)
