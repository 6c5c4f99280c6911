-- ===== src/Threads/Statistics/Totals.antt =====
-- The time of all states together.
use vexjine.Common.{
  ℕ, zero, suc, ◌≤◌, ◌<◌, ◌≡◌, refl, ℤ, pos, ◌+ℤ◌, int_laws, put, arith, ◌==◌, Bool-cases, inl, inr,
  ==_iff,
}
use vexjine.Threads.Code.{Code, ordinal, ordinal_lt, possible_threadstates}
use vexjine.Threads.Statistics.{
  Statistics, log_transition_after, log_transition, clear_transition_counters,
}

unfoldable pub sum_below : ℕ → (ℕ → ℤ) → ℤ
sum_below zero f = pos 0
sum_below (suc n) f = f n +ℤ sum_below n f

-- The time that is accounted for, over all states.
unfoldable pub total_time : Statistics → ℤ
total_time s = sum_below possible_threadstates s.total_time_per_state

sum_below-put_above :
    (n k : ℕ) (f : ℕ → ℤ) (v : ℤ) → n ≤ k → sum_below n (put f k v) ≡ sum_below n f
unfolding sum_below
sum_below-put_above zero k f v h = refl
sum_below-put_above (suc n) k f v h = ground (arith, ==_iff k n, sum_below-put_above n k f v)

+ℤ_right_comm : (a b c : ℤ) → a +ℤ b +ℤ c ≡ a +ℤ c +ℤ b
+ℤ_right_comm a b c = omega int_laws

+ℤ_assoc : (a b c : ℤ) → a +ℤ (b +ℤ c) ≡ a +ℤ b +ℤ c
+ℤ_assoc a b c = omega int_laws

sum_below-put :
    (n k : ℕ) (f : ℕ → ℤ) (d : ℤ) → k < n → sum_below n (put f k (f k +ℤ d)) ≡ sum_below n f +ℤ d
unfolding sum_below
sum_below-put zero k f d h = elim h [ ]
sum_below-put (suc n) k f d h = elim (Bool-cases (k == n)) [
  | inl same ↦
      let e = (==_iff k n).0 same in
      rw (sum_below-put_above n k f (f k +ℤ d) (omega arith), same, e)
        (+ℤ_right_comm (f n) d (sum_below n f))
  | inr other ↦ rw (other, sum_below-put n k f d (ground arith)) (+ℤ_assoc (f n) (sum_below n f) d)
]

-- A logged transition adds its duration to the total, whatever the two states.
pub total_time-log :
    (s : Statistics) (current next : Code) (d : ℤ)
    → total_time (log_transition_after s current next d) ≡ total_time s +ℤ d
unfolding total_time log_transition_after
total_time-log s current next d =
    sum_below-put possible_threadstates (ordinal current) s.total_time_per_state d
      (ordinal_lt current)

pub total_time-transition :
    (s : Statistics) (current next : Code)
    → total_time (log_transition s current next) ≡ total_time s
unfolding total_time log_transition
total_time-transition s current next = refl

sum_below-zero : (n : ℕ) → sum_below n (λ i. pos 0) ≡ pos 0
unfolding sum_below
sum_below-zero zero = refl
sum_below-zero (suc n) = rw (sum_below-zero n) (omega int_laws)

pub total_time-clear : (s : Statistics) → total_time (clear_transition_counters s) ≡ pos 0
unfolding total_time clear_transition_counters
total_time-clear s = sum_below-zero possible_threadstates
