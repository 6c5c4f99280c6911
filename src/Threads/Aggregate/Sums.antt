-- ===== src/Threads/Aggregate/Sums.antt =====
-- The aggregate of several threads, over all states.
use vexjine.Common.{
  ℕ, zero, suc, ◌≤◌, ◌<◌, ◌≡◌, refl, ap, ◌∙◌, List, [], ◌∷◌, ℤ, pos, ◌+ℤ◌, int_laws, arith,
}
use vexjine.Threads.Code.{possible_threadstates}
use vexjine.Threads.Statistics.{Statistics}
use vexjine.Threads.Statistics.Totals.{sum_below, total_time}
use vexjine.Threads.Aggregate.{AggregateStateCounters, add_transitions_of, clear}

unfoldable pub add_all : AggregateStateCounters → List Statistics → AggregateStateCounters
unfolding add_transitions_of
add_all a [] = a
add_all a (s ∷ ss) = add_all (add_transitions_of a s) ss

unfoldable pub total_times : List Statistics → ℤ
total_times [] = pos 0
total_times (s ∷ ss) = total_time s +ℤ total_times ss

-- The time of all states in the aggregate.
abbrev pub aggregate_time : AggregateStateCounters → ℤ
aggregate_time a = sum_below possible_threadstates a.aggregate_total_time_per_state

swap : (a b c d : ℤ) → a +ℤ b +ℤ (c +ℤ d) ≡ a +ℤ c +ℤ (b +ℤ d)
swap a b c d = omega int_laws

-- The time of one state.
cell :
    (a : AggregateStateCounters) (s : Statistics) (n : ℕ)
    → n < possible_threadstates
    → (add_transitions_of a s).aggregate_total_time_per_state n
      ≡ a.aggregate_total_time_per_state n +ℤ s.total_time_per_state n
unfolding add_transitions_of
cell a s n h = ground arith

sum_below-added :
    (a : AggregateStateCounters) (s : Statistics) (n : ℕ)
    → n ≤ possible_threadstates
    → sum_below n (add_transitions_of a s).aggregate_total_time_per_state
      ≡ sum_below n a.aggregate_total_time_per_state +ℤ sum_below n s.total_time_per_state
unfolding sum_below
sum_below-added a s zero h = omega int_laws
sum_below-added a s (suc n) h =
    let times = (add_transitions_of a s).aggregate_total_time_per_state in
    let t = a.aggregate_total_time_per_state n in
    let u = s.total_time_per_state n in
    ap (λ z. z +ℤ sum_below n times) (cell a s n (omega arith))
    ∙ ap (λ z. t +ℤ u +ℤ z) (sum_below-added a s n (omega arith))
    ∙ swap t u (sum_below n a.aggregate_total_time_per_state) (sum_below n s.total_time_per_state)

cleared_cell :
    (a : AggregateStateCounters) (n : ℕ)
    → n < possible_threadstates
    → (clear a).aggregate_total_time_per_state n ≡ pos 0
unfolding clear
cleared_cell a n h = ground arith

sum_below-cleared :
    (a : AggregateStateCounters) (n : ℕ)
    → n ≤ possible_threadstates
    → sum_below n (clear a).aggregate_total_time_per_state ≡ pos 0
unfolding sum_below
sum_below-cleared a zero h = refl
sum_below-cleared a (suc n) h =
    let times = (clear a).aggregate_total_time_per_state in
    ap (λ z. z +ℤ sum_below n times) (cleared_cell a n (omega arith))
    ∙ ap (λ z. pos 0 +ℤ z) (sum_below-cleared a n (omega arith))
    ∙ omega int_laws

assoc : (a b c : ℤ) → a +ℤ b +ℤ c ≡ a +ℤ (b +ℤ c)
assoc a b c = omega int_laws

zero_left : (a : ℤ) → pos 0 +ℤ a ≡ a
zero_left a = omega int_laws

zero_right : (a : ℤ) → a ≡ a +ℤ pos 0
zero_right a = omega int_laws

add_all-time :
    (a : AggregateStateCounters) (ss : List Statistics)
    → aggregate_time (add_all a ss) ≡ aggregate_time a +ℤ total_times ss
unfolding add_all total_times total_time
add_all-time a [] = zero_right (aggregate_time a)
add_all-time a (s ∷ ss) =
    add_all-time (add_transitions_of a s) ss
    ∙ ap (λ z. z +ℤ total_times ss) (sum_below-added a s possible_threadstates (omega arith))
    ∙ assoc (aggregate_time a) (total_time s) (total_times ss)

-- After a clearing, the times that the threads of a list bring into the aggregate add up to the
-- times that each has gathered over all states, wherever the aggregate stood before.
pub add_all-clear :
    (a : AggregateStateCounters) (ss : List Statistics)
    → aggregate_time (add_all (clear a) ss) ≡ total_times ss
add_all-clear a ss =
    add_all-time (clear a) ss
    ∙ ap (λ z. z +ℤ total_times ss) (sum_below-cleared a possible_threadstates (omega arith))
    ∙ zero_left (total_times ss)
