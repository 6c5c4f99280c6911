-- ===== src/Profiler/Measures.antt =====
-- MethodCallInfo.h and .cpp, PerformanceMeasure.h and .cpp, and ProfilingInvalidationPolicy.cpp. The
-- four times of a call that the classes keep in fields of their own, CPU time, estimated real time,
-- monitor waiting and I/O waiting, stand in one record here.
use vexjine.Common.{
  ℕ, suc, ◌+◌, ◌/◌, ◌==◌, Bool, true, false, not, ◌&&◌, Option, none, some, ltb, ℤ, pos, ◌+ℤ◌, ◌-ℤ◌,
  ◌*ℤ◌, ltb_ℤ, if◌then◌else◌,
}
use vexjine.Threads.Timers.{Timers}

pub record CallTimes : Type 0 where
  pub cpu_time : ℤ
  pub estimated_real_time : ℤ
  pub monitor_wait : ℤ
  pub io_wait : ℤ

abbrev pub no_times : CallTimes
no_times = record {
  cpu_time = pos 0;
  estimated_real_time = pos 0;
  monitor_wait = pos 0;
  io_wait = pos 0;
}

abbrev pub plus_times : CallTimes → CallTimes → CallTimes
plus_times a b = record {
  cpu_time = a.cpu_time +ℤ b.cpu_time;
  estimated_real_time = a.estimated_real_time +ℤ b.estimated_real_time;
  monitor_wait = a.monitor_wait +ℤ b.monitor_wait;
  io_wait = a.io_wait +ℤ b.io_wait;
}

abbrev pub minus_times : CallTimes → CallTimes → CallTimes
minus_times a b = record {
  cpu_time = a.cpu_time -ℤ b.cpu_time;
  estimated_real_time = a.estimated_real_time -ℤ b.estimated_real_time;
  monitor_wait = a.monitor_wait -ℤ b.monitor_wait;
  io_wait = a.io_wait -ℤ b.io_wait;
}

-- The clocks of the thread, as an entry or an exit stores them.
unfoldable pub times_of : Timers → CallTimes
times_of t = record {
  cpu_time = t.virtual_time;
  estimated_real_time = t.estimated_real_time;
  monitor_wait = t.monitor_waiting_time;
  io_wait = t.io_waiting_time;
}

pub record MethodCallInfo : Type 0 where
  pub method_id : ℕ
  pub entry_timestamp : CallTimes
  pub callee_time : CallTimes
  pub should_reset_vt_factor : Bool
  pub recursive : Bool

unfoldable pub set_info : ℕ → CallTimes → MethodCallInfo
set_info id times = record {
  method_id = id;
  entry_timestamp = times;
  callee_time = no_times;
  should_reset_vt_factor = false;
  recursive = false;
}

unfoldable pub update_callee_time : MethodCallInfo → CallTimes → MethodCallInfo
update_callee_time i diff = record i { callee_time = plus_times i.callee_time diff }

unfoldable pub get_inclusive_difference_from : MethodCallInfo → MethodCallInfo → CallTimes
get_inclusive_difference_from i start = minus_times i.entry_timestamp start.entry_timestamp

pub record PerformanceMeasure : Type 0 where
  pub measured_id : ℕ
  pub excluding_callee_methods : CallTimes
  pub including_callee_methods : CallTimes
  pub samples : ℕ
  pub total_callee_time : ℤ

unfoldable pub new_measure : ℕ → PerformanceMeasure
new_measure id = record {
  measured_id = id;
  excluding_callee_methods = no_times;
  including_callee_methods = no_times;
  samples = 0;
  total_callee_time = pos 0;
}

unfoldable pub add : PerformanceMeasure → CallTimes → CallTimes → PerformanceMeasure
add m excluding including = record m {
  excluding_callee_methods = plus_times m.excluding_callee_methods excluding;
  including_callee_methods = plus_times m.including_callee_methods including;
  samples = suc m.samples;
}

unfoldable pub more_info : PerformanceMeasure → ℤ → PerformanceMeasure
more_info m callee = record m { total_callee_time = m.total_callee_time +ℤ callee }

-- `operator+=`, which leaves the waiting times as they are.
unfoldable pub merge : PerformanceMeasure → PerformanceMeasure → PerformanceMeasure
merge m pm =
    let ex = m.excluding_callee_methods in
    let inc = m.including_callee_methods in
    record m {
      excluding_callee_methods = record ex {
        cpu_time = ex.cpu_time +ℤ pm.excluding_callee_methods.cpu_time;
        estimated_real_time =
            ex.estimated_real_time +ℤ pm.excluding_callee_methods.estimated_real_time;
      };
      including_callee_methods = record inc {
        cpu_time = inc.cpu_time +ℤ pm.including_callee_methods.cpu_time;
        estimated_real_time =
            inc.estimated_real_time +ℤ pm.including_callee_methods.estimated_real_time;
      };
      samples = m.samples + pm.samples;
    }

-- `logTimesOnMethodExit` on the measure of the method that ends.
unfoldable pub log_times_on_method_exit :
    MethodCallInfo → PerformanceMeasure → MethodCallInfo → PerformanceMeasure
unfolding get_inclusive_difference_from add more_info
log_times_on_method_exit exiting measure entry =
    let including = get_inclusive_difference_from exiting entry in
    let excluding = minus_times including entry.callee_time in
    more_info (add measure excluding including) entry.callee_time.cpu_time

-- The hard-coded method by which the instrumentation's overhead is measured.
abbrev pub instrumentation_overhead_profiling_method_id : ℕ
instrumentation_overhead_profiling_method_id = 50

unfoldable pub is_the_instrumentation_profiling_method : PerformanceMeasure → Bool
is_the_instrumentation_profiling_method m =
    m.measured_id == instrumentation_overhead_profiling_method_id

-- Whether a method is worth profiling on: by its samples, and by its time.
unfoldable pub keep_on_profiling : ℕ → PerformanceMeasure → Bool
unfolding is_the_instrumentation_profiling_method
keep_on_profiling limit m =
    not (ltb limit m.samples && not (is_the_instrumentation_profiling_method m))

-- `scaled` is the policy's percentage of the global time, in float arithmetic.
unfoldable pub relative_keep_on_profiling : ℕ → ℤ → PerformanceMeasure → Bool
unfolding is_the_instrumentation_profiling_method
relative_keep_on_profiling limit scaled m =
    if ltb limit m.samples && not (is_the_instrumentation_profiling_method m)
    then not (ltb_ℤ m.including_callee_methods.estimated_real_time scaled)
    else true

-- `none` is the division by a limit of 0.
unfoldable pub absolute_keep_on_profiling : ℕ → ℤ → PerformanceMeasure → Option Bool
unfolding is_the_instrumentation_profiling_method
absolute_keep_on_profiling limit minimum m =
    if m.samples == 0
    then some true
    else if limit == 0
    then none
    else let ratio = m.samples / limit in
      if ltb 0 ratio && not (is_the_instrumentation_profiling_method m)
      then some (not (ltb_ℤ m.including_callee_methods.estimated_real_time (pos ratio *ℤ minimum)))
      else some true
