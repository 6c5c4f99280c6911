-- ===== src/Threads/Aggregate.antt =====
-- AggregateStateCounters.h and AggregateStateCounters.cpp: the statistics of all threads together.
-- `unsigned int` counters wrap at 2^32, the `unsigned long` one at 2^64.
pub mod Sums
use vexjine.Common.{ℕ, ◌+◌, ◌%◌, ◌&&◌, ltb, ℤ, pos, ◌+ℤ◌, if◌then◌else◌}
use vexjine.Threads.Code.{possible_threadstates}
use vexjine.Threads.Statistics.{Statistics}

pub record AggregateStateCounters : Type 0 where
  pub total_invocation_points : ℕ
  pub aggregate_state_transitions : ℕ → ℕ → ℕ
  pub aggregate_total_time_per_state : ℕ → ℤ

unfoldable pub new_counters : AggregateStateCounters
new_counters = record {
  total_invocation_points = 0;
  aggregate_state_transitions = λ i j. 0;
  aggregate_total_time_per_state = λ i. pos 0;
}

-- The loops run over the states that there are.
unfoldable pub add_transitions_of : AggregateStateCounters → Statistics → AggregateStateCounters
add_transitions_of a s = record {
  total_invocation_points =
      (a.total_invocation_points + s.invocation_points) % 18_446_744_073_709_551_616;
  aggregate_state_transitions = λ i j.
      if ltb i possible_threadstates && ltb j possible_threadstates
      then (a.aggregate_state_transitions i j + s.state_transitions i j) % 4_294_967_296
      else a.aggregate_state_transitions i j;
  aggregate_total_time_per_state = λ i.
      if ltb i possible_threadstates
      then a.aggregate_total_time_per_state i +ℤ s.total_time_per_state i
      else a.aggregate_total_time_per_state i;
}

-- The invocation points are not cleared.
unfoldable pub clear : AggregateStateCounters → AggregateStateCounters
clear a = record a {
  aggregate_state_transitions = λ i j.
      if ltb i possible_threadstates && ltb j possible_threadstates
      then 0
      else a.aggregate_state_transitions i j;
  aggregate_total_time_per_state =
      λ i. if ltb i possible_threadstates then pos 0 else a.aggregate_total_time_per_state i;
}
