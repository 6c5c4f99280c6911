-- ===== src/Threads/State/Totals.antt =====
-- The time that the statistics give to the states of a thread.
use vexjine.Common.{
  ℕ, ◌≡◌, ap, ◌∙◌, List, [], ◌∷◌, none, sym, +ℤ_parts, ℤ, pos, ◌+ℤ◌, ◌-ℤ◌, int_laws, eq_of_parts,
  -ℤ_parts, pos_part, neg_part, arith,
}
use vexjine.Threads.Code.{
  Code, suspended, native_waiting, waiting, in_io_invalidation,
  after_model_sim_waiting_for_real_code,
}
use vexjine.Threads.Timers.{Timers, FloatOps, leap_forward_by, set_last_time_per_state_ert}
use vexjine.Threads.Timers.Waiting.{update_times_before_waiting_with_timeout}
use vexjine.Threads.IoHandler.{extend_prediction_period}
use vexjine.Threads.Statistics.{clear_transition_counters}
use vexjine.Threads.Statistics.Totals.{
  total_time, total_time-log, total_time-transition, total_time-clear,
}
use vexjine.Threads.State.{
  VexThreadState, set_new_state, set_logged_only, set_native_waiting, set_registering,
  wait_for_real_code_to_complete,
}
use vexjine.Threads.State.Waiting.{
  set_timed_waiting, invalidate_io_prediction, before_thread_interrupt_at, restart_counter,
  unpark_by_interrupt,
}

-- What happens to a thread between two looks at its statistics: it moves in virtual time, changes
-- its state in one of the ways that differ, logs a passing state, registers, which changes its
-- state without logging, or has its statistics cleared.
pub data Event : Type 0 where
  leaps : ℤ → Event
  becomes : Code → Event
  passes : Code → Event
  invalidates interrupted natively_waits completes_real_code registers clears : Event
  waits : ℤ → Event

-- The time that is not yet given to a state.
abbrev pub unlogged : VexThreadState → ℤ
unlogged s = s.timers.last_time_per_state_ert -ℤ total_time s.stats

nothing_more : (a : ℤ) → a +ℤ pos 0 ≡ a
nothing_more a = omega int_laws

+ℤ_assoc : (a b c : ℤ) → a +ℤ b +ℤ c ≡ a +ℤ (b +ℤ c)
+ℤ_assoc a b c = omega int_laws

registered : (e l t : ℤ) → e -ℤ t ≡ l -ℤ t +ℤ (e -ℤ l)
registered e l t = omega int_laws

cleared : (l t : ℤ) → l -ℤ pos 0 ≡ l -ℤ t +ℤ t
cleared l t = omega int_laws

settle : (e l t : ℤ) → e -ℤ (t +ℤ (e -ℤ l)) ≡ l -ℤ t
settle e l t = omega int_laws

unlogged-set_new_state : (s : VexThreadState) (c : Code) → unlogged (set_new_state s c) ≡ unlogged s
unfolding set_new_state
unlogged-set_new_state s c =
    let ert = s.timers.estimated_real_time in
    let last = s.timers.last_time_per_state_ert in
    ap (λ z. ert -ℤ z) (total_time-log s.stats s.current_state c (ert -ℤ last))
    ∙ settle ert last (total_time s.stats)

unlogged-set_logged_only :
    (s : VexThreadState) (c : Code) → unlogged (set_logged_only s c) ≡ unlogged s
unfolding set_logged_only
unlogged-set_logged_only s c =
    ap (λ z. s.timers.last_time_per_state_ert -ℤ z)
      (total_time-transition s.stats s.current_state c)

unlogged-interrupt :
    (s : VexThreadState) → unlogged (before_thread_interrupt_at s none).0 ≡ unlogged s
unfolding before_thread_interrupt_at
unlogged-interrupt s =
    unlogged-set_new_state (restart_counter (unpark_by_interrupt s)) suspended ∙ ground arith

last_ert-timeout :
    (f : FloatOps) (global : ℕ) (t : Timers) (timeout : ℤ)
    → (update_times_before_waiting_with_timeout f global t timeout).last_time_per_state_ert
      ≡ t.last_time_per_state_ert
unfolding update_times_before_waiting_with_timeout
last_ert-timeout f global t timeout = ground arith

unlogged-set_timed_waiting :
    (f : FloatOps) (global : ℕ) (s : VexThreadState) (t : ℤ)
    → unlogged (set_timed_waiting f global s t) ≡ unlogged s
unfolding set_timed_waiting
unlogged-set_timed_waiting f global s t =
    ap (λ z. z -ℤ total_time (set_new_state s waiting).stats)
      (last_ert-timeout f global (set_new_state s waiting).timers t)
    ∙ unlogged-set_new_state s waiting

invalidated : VexThreadState → VexThreadState
invalidated s =
    let (h, period) = extend_prediction_period s.io_handler in
    record s { io_handler = h; timers = (leap_forward_by s.timers period).0 }

module _ (f : FloatOps) (global : ℕ) where
  unfoldable pub happen : VexThreadState → Event → VexThreadState
  happen s (leaps time) = record s { timers = (leap_forward_by s.timers time).0 }
  happen s (becomes c) = set_new_state s c
  happen s (passes c) = set_logged_only s c
  happen s invalidates = invalidate_io_prediction s
  happen s interrupted = (before_thread_interrupt_at s none).0
  happen s natively_waits = set_native_waiting s
  happen s completes_real_code = wait_for_real_code_to_complete s
  happen s registers = set_registering s
  happen s clears = record s { stats = clear_transition_counters s.stats }
  happen s (waits timeout) = set_timed_waiting f global s timeout

  unfoldable pub happen_all : VexThreadState → List Event → VexThreadState
  happen_all s [] = s
  happen_all s (e ∷ es) = happen_all (happen s e) es

  -- What an event takes away: the time before a registration, which no state gets, and what the
  -- states had gathered before a clearing.
  unfoldable pub taken_by : VexThreadState → Event → ℤ
  taken_by s (leaps time) = pos 0
  taken_by s (becomes c) = pos 0
  taken_by s (passes c) = pos 0
  taken_by s invalidates = pos 0
  taken_by s interrupted = pos 0
  taken_by s natively_waits = pos 0
  taken_by s completes_real_code = pos 0
  taken_by s registers = s.timers.estimated_real_time -ℤ s.timers.last_time_per_state_ert
  taken_by s clears = total_time s.stats
  taken_by s (waits timeout) = pos 0

  unfoldable pub taken : VexThreadState → List Event → ℤ
  taken s [] = pos 0
  taken s (e ∷ es) = taken_by s e +ℤ taken (happen s e) es

  unlogged-happen :
      (s : VexThreadState) (e : Event) → unlogged (happen s e) ≡ unlogged s +ℤ taken_by s e
  unfolding happen invalidated taken_by
  unlogged-happen s (leaps time) = unfold leap_forward_by in sym (nothing_more (unlogged s))
  unlogged-happen s (becomes c) = unlogged-set_new_state s c ∙ sym (nothing_more (unlogged s))
  unlogged-happen s (passes c) = unlogged-set_logged_only s c ∙ sym (nothing_more (unlogged s))
  unlogged-happen s invalidates =
      unfold invalidate_io_prediction in
      unlogged-set_logged_only (invalidated s) in_io_invalidation ∙ sym (nothing_more (unlogged s))
  unlogged-happen s interrupted = unlogged-interrupt s ∙ sym (nothing_more (unlogged s))
  unlogged-happen s natively_waits =
      unfold set_native_waiting in
      unlogged-set_new_state s native_waiting ∙ sym (nothing_more (unlogged s))
  unlogged-happen s completes_real_code =
      unfold wait_for_real_code_to_complete in
      unlogged-set_new_state s after_model_sim_waiting_for_real_code
      ∙ sym (nothing_more (unlogged s))
  unlogged-happen s registers =
      unfold set_registering in
      unfold set_last_time_per_state_ert in
      registered s.timers.estimated_real_time s.timers.last_time_per_state_ert (total_time s.stats)
  unlogged-happen s clears =
      ap (λ z. s.timers.last_time_per_state_ert -ℤ z) (total_time-clear s.stats)
      ∙ cleared s.timers.last_time_per_state_ert (total_time s.stats)
  unlogged-happen s (waits timeout) =
      unlogged-set_timed_waiting f global s timeout ∙ sym (nothing_more (unlogged s))

  unlogged-happen_all :
      (s : VexThreadState) (es : List Event) → unlogged (happen_all s es) ≡ unlogged s +ℤ taken s es
  unfolding happen_all taken
  unlogged-happen_all s [] = sym (nothing_more (unlogged s))
  unlogged-happen_all s (e ∷ es) =
      unlogged-happen_all (happen s e) es
      ∙ ap (λ z. z +ℤ taken (happen s e) es) (unlogged-happen s e)
      ∙ +ℤ_assoc (unlogged s) (taken_by s e) (taken (happen s e) es)

  balance : (e t l u k : ℤ) → e -ℤ t ≡ l -ℤ u +ℤ k → t -ℤ u ≡ e -ℤ l -ℤ k
  balance e t l u k h = eq_of_parts _ _ (
      omega (
        arith,
        -ℤ_parts t u,
        -ℤ_parts e l,
        -ℤ_parts (e -ℤ l) k,
        -ℤ_parts e t,
        -ℤ_parts l u,
        +ℤ_parts (l -ℤ u) k,
        ap pos_part h,
        ap neg_part h,
      ))

  -- After any history of events that ends with a change of state, the times that the statistics
  -- have gathered for all states together are the virtual time that has passed since the last
  -- change of state before the history, less what registrations and clearings have taken away: the
  -- time before a registration, which is given to no state, and the times gathered before a
  -- clearing.
  pub total_time-history :
      (s : VexThreadState) (es : List Event) (c : Code)
      → let s' = set_new_state (happen_all s es) c in
        total_time s'.stats -ℤ total_time s.stats
        ≡ s'.timers.estimated_real_time -ℤ s.timers.last_time_per_state_ert -ℤ taken s es
  unfolding set_new_state
  total_time-history s es c =
      let s' = set_new_state (happen_all s es) c in
      balance s'.timers.last_time_per_state_ert (total_time s'.stats)
        s.timers.last_time_per_state_ert (total_time s.stats) (taken s es)
        (unlogged-set_new_state (happen_all s es) c ∙ unlogged-happen_all s es)
