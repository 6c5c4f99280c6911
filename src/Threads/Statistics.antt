-- ===== src/Threads/Statistics.antt =====
-- Statistics.h and Statistics.cpp: the transitions of one thread, and the time it spent in each state.
pub mod Totals
use vexjine.Common.{ℕ, ◌+◌, ◌%◌, ℤ, pos, ◌+ℤ◌, put}
use vexjine.Threads.Code.{Code, ordinal}

pub record Statistics : Type 0 where
  pub total_time_per_state : ℕ → ℤ
  pub state_transitions : ℕ → ℕ → ℕ
  pub invocation_points : ℕ

unfoldable pub new_statistics : Statistics
new_statistics = record {
  total_time_per_state = λ i. pos 0;
  state_transitions = λ i j. 0;
  invocation_points = 0;
}

-- One more transition between the two states, in a table of `unsigned int`.
unfoldable pub log_transition : Statistics → Code → Code → Statistics
unfolding ordinal
log_transition s current next =
    let i = ordinal current in
    let j = ordinal next in
    record s {
      state_transitions =
          put s.state_transitions i
            (put (s.state_transitions i) j ((s.state_transitions i j + 1) % 4_294_967_296));
    }

unfoldable pub log_transition_after : Statistics → Code → Code → ℤ → Statistics
unfolding log_transition ordinal
log_transition_after s current next duration =
    let i = ordinal current in
    log_transition
      (record s {
        total_time_per_state = put s.total_time_per_state i (s.total_time_per_state i +ℤ duration);
      })
      current next

unfoldable pub add_invocation_points : Statistics → Statistics
add_invocation_points s = record s { invocation_points = s.invocation_points + 1 }

unfoldable pub clear_transition_counters : Statistics → Statistics
clear_transition_counters s = record s {
  total_time_per_state = λ i. pos 0;
  state_transitions = λ i j. 0;
}
