-- ===== src/Threads/Timers/Scaled.antt =====
-- Timers.h and Timers.cpp: the operations that scale CPU time by the speed-up factors.
-- `global` is the static `globalScalingFactor`, `cpu` what `getVirtualTime()` returns.
use vexjine.Common.{ℕ, Bool, ℤ, pos, ◌+ℤ◌, ◌-ℤ◌, ltb_ℤ, if◌then◌else◌}
use vexjine.Threads.Timers.{Timers, FloatOps, add_elapsed_time, get_and_reset_local_time}

module _ (f : FloatOps) (global : ℕ) where
  unfoldable pub add_local_time : Timers → ℤ → Timers
  unfolding add_elapsed_time
  add_local_time t diff =
      let added = f.times₂ diff t.virtual_time_speedup global in
      let t' = (add_elapsed_time t added).0 in
      record t' { local_time_since_last_resume = t'.local_time_since_last_resume +ℤ added }

  unfoldable pub update_thread_local_time_since_last_resume_to : Timers → ℤ → Timers
  unfolding add_local_time
  update_thread_local_time_since_last_resume_to t preset =
      let diff = preset -ℤ t.last_cpu_time in
      if ltb_ℤ (pos 0) diff then add_local_time t diff else t

  unfoldable pub update_thread_local_time_since_last_resume_to_real_time : Timers → ℤ → Timers
  unfolding add_local_time
  update_thread_local_time_since_last_resume_to_real_time t preset =
      let diff = preset -ℤ t.last_real_time in
      if ltb_ℤ (pos 0) diff then add_local_time t diff else t

  unfoldable pub update_current_local_time : Timers → ℤ → Timers
  unfolding update_thread_local_time_since_last_resume_to
  update_current_local_time t cpu = update_thread_local_time_since_last_resume_to t cpu

  unfoldable pub get_difference_between_cpu_and_real_time_since_last_signalling : Timers → ℤ → ℤ
  get_difference_between_cpu_and_real_time_since_last_signalling t real =
      let cpu =
        f.over₂ (t.estimated_real_time -ℤ t.last_time_in_handler) t.virtual_time_speedup global in
      real -ℤ t.last_real_time_in_handler -ℤ cpu

  unfoldable pub does_the_difference_indicate_lack_of_progress : Timers → ℤ → ℕ → Bool
  does_the_difference_indicate_lack_of_progress t real percentage =
      let cpu =
        f.over₂ (t.estimated_real_time -ℤ t.last_time_in_handler) t.virtual_time_speedup global in
      f.below cpu percentage (real -ℤ t.last_real_time_in_handler)

unfoldable pub add_local_io_time : FloatOps → Timers → ℤ → Timers
add_local_io_time f t diff =
    let added = f.times₁ diff t.virtual_time_speedup in
    record t {
      estimated_real_time = t.estimated_real_time +ℤ added;
      local_time_since_last_resume = t.local_time_since_last_resume +ℤ added;
    }

unfoldable pub get_time_difference_until : FloatOps → ℕ → Timers → ℤ → Timers × ℤ
unfolding get_and_reset_local_time
get_time_difference_until f global t starting =
    let (t', local) = get_and_reset_local_time t in
    (t', f.plus_times₂ local (starting -ℤ t.last_cpu_time) t.virtual_time_speedup global)
