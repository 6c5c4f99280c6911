-- ===== src/Profiler/Tests.antt =====
-- A profiled run of two methods.
use vexjine.Common.{ℕ, ◌≡◌, refl, false, [], ◌∷◌, ℤ, pos, ◌+ℤ◌, ◌-ℤ◌, some}
use vexjine.Threads.Timers.{Timers}
use vexjine.Threads.Samples.{thread_at}
use vexjine.Profiler.Measures.{times_of, PerformanceMeasure}
use vexjine.Profiler.Log.{MethodLog, new_log, log_method_entry, on_vex_method_exit}
use vexjine.Profiler.Total.{real, exclusive_total, outermost, dropped}
use vexjine.Profiler.Merging.{EventLogger, create_measures_for_thread}
use vexjine.Profiler.Merging.Sums.{sum_of, sum_of-create_measures, merge-Additive}
use vexjine.Profiler.Accounts.{Logs, starts, enters, leaves, Logs-AddsUp, AddsUp}

abbrev clock_at : ℕ → Timers
clock_at n = (thread_at 1 (pos n)).timers

-- Method 7 from 10, which calls method 8 from 12 to 15.
abbrev called : MethodLog
called =
    on_vex_method_exit
      (log_method_entry (log_method_entry new_log 7 false (clock_at 10)) 8 false (clock_at 12)) 8
      (clock_at 15)

called-Logs : Logs real (pos 0) (pos 0) called
unfolding ◌+ℤ◌ outermost log_method_entry new_log dropped
called-Logs =
    leaves 8 (clock_at 15) (enters 8 false (clock_at 12) (enters 7 false (clock_at 10) starts))

Logs-AddsUp_example : AddsUp real (pos 0) (pos 0) called
Logs-AddsUp_example = Logs-AddsUp real (pos 0) (pos 0) called called-Logs

-- Method 8 has taken 3 of its own.
called_total : exclusive_total real called.measures ≡ pos 3
unfolding ◌+ℤ◌ ◌-ℤ◌ exclusive_total log_method_entry on_vex_method_exit new_log
called_total = refl

-- A program that has measured method 7 once, and a thread that has twice.
abbrev once : PerformanceMeasure
once = record {
  measured_id = 7;
  excluding_callee_methods = times_of (clock_at 4);
  including_callee_methods = times_of (clock_at 9);
  samples = 1;
  total_callee_time = pos 5;
}

abbrev logger : EventLogger
logger = record { registered_method_names = λ i. some i; measures = once ∷ [] }

abbrev sample_count : PerformanceMeasure → ℤ
sample_count m = pos m.samples

sum_of-create_measures_example :
    sum_of sample_count 7
      (create_measures_for_thread logger (record once { samples = 2 } ∷ [])).measures
    ≡ sum_of sample_count 7 (once ∷ []) +ℤ sum_of sample_count 7 (record once { samples = 2 } ∷ [])
sum_of-create_measures_example =
    sum_of-create_measures sample_count merge-Additive.4 7 logger 7
      (record once { samples = 2 } ∷ []) refl
