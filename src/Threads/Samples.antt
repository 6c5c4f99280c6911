-- ===== src/Threads/Samples.antt =====
-- A thread for the tests, and floating-point operations that count every factor as 1.
use vexjine.Common.{ℕ, false, ℤ, pos, ltb_ℤ}
use vexjine.Threads.Code.{suspended, running}
use vexjine.Threads.Timers.{FloatOps, new_timers}
use vexjine.Threads.IoHandler.{new_io_handler}
use vexjine.Threads.Scheduling.{new_scheduling}
use vexjine.Threads.Statistics.{new_statistics}
use vexjine.Threads.State.{VexThreadState}

abbrev pub unscaled : FloatOps
unscaled = record {
  times₂ = λ t a b. t;
  plus_times₂ = λ u t a b. u;
  times₁ = λ t a. t;
  over₂ = λ t a b. t;
  reaches = λ t u a b. ltb_ℤ u t;
  below = λ t a u. ltb_ℤ t u;
}

-- A suspended thread at time `ert`.
abbrev pub thread_at : ℕ → ℤ → VexThreadState
thread_at id ert = record {
  jthread_id = id;
  current_state = suspended;
  previous_state = running;
  timers = record (new_timers (pos 0) (pos 0) (pos 0)) { estimated_real_time = ert };
  io_handler = new_io_handler false (pos 0);
  scheduling = new_scheduling (pos 0);
  stats = new_statistics;
  in_vex = false;
  timed_out = false;
  parked = false;
  already_unparked = false;
  after_interrupted_timed_parking = false;
  timed_waiting_object_id = 0;
}
