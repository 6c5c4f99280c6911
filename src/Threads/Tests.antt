-- ===== src/Threads/Tests.antt =====
-- The state of a thread on small histories.
use vexjine.Common.{◌≡◌, ◌≢◌, refl, inr, arith, List, [], ◌∷◌, pos, ◌+ℤ◌, ◌-ℤ◌}
use vexjine.Threads.Code.{running, waiting}
use vexjine.Threads.Samples.{unscaled, thread_at}
use vexjine.Threads.Timers.{Timers, update_times_after_resuming}
use vexjine.Threads.Timers.Laws.{
  IsInStep, charge_all, global_time, local_time, preset, resumed-IsInStep,
}
use vexjine.Threads.Scheduling.{to_be_suspended, clear_suspendflag}
use vexjine.Threads.State.{VexThreadState, set_new_state}
use vexjine.Threads.State.Waiting.{
  add_prediction_to_estimated_real_time, update_estimated_real_time_after_io_prediction,
}
use vexjine.Threads.State.Accounting.{invalidate_times, io_prediction_corrected}
use vexjine.Threads.State.Totals.{
  Event, registers, clears, taken, leaps, becomes, interrupted, happen_all, total_time-history,
}
use vexjine.Threads.State.Parking.{
  parks, unparks, permit, permit_run, state_run, state_run-permit_run,
}
use vexjine.Threads.Statistics.Totals.{total_time}
use vexjine.Threads.Statistics.{new_statistics}
use vexjine.Threads.Aggregate.{new_counters, clear}
use vexjine.Threads.Aggregate.Sums.{add_all, aggregate_time, total_times, add_all-clear}

abbrev at_5 : Timers
at_5 = (thread_at 1 (pos 5)).timers

resumed-IsInStep_example : IsInStep (
    charge_all unscaled 1
      (update_times_after_resuming at_5 (pos 5) (pos 9))
      (local_time (pos 3) ∷ preset (pos 20) ∷ global_time (pos 4) ∷ []))
resumed-IsInStep_example =
    resumed-IsInStep unscaled 1 at_5 (pos 5) (pos 9)
      (local_time (pos 3) ∷ preset (pos 20) ∷ global_time (pos 4) ∷ []) (inr refl)

abbrev predicts_7 : VexThreadState
predicts_7 =
    let s = thread_at 1 (pos 5) in
    record s { io_handler = record (s.io_handler) { last_io_prediction = pos 7 } }

io_prediction_corrected_example :
    (update_estimated_real_time_after_io_prediction
      (invalidate_times 3 (add_prediction_to_estimated_real_time predicts_7))
      (pos 40)).timers.estimated_real_time
    ≡ pos 5 +ℤ pos 40
io_prediction_corrected_example = io_prediction_corrected predicts_7 3 7 (pos 40) refl (omega arith)

state_run-permit_run_example :
    permit (state_run (thread_at 1 (pos 5)) (unparks ∷ parks ∷ parks ∷ unparks ∷ [])).0
    ≡ (permit_run (permit (thread_at 1 (pos 5))) (unparks ∷ parks ∷ parks ∷ unparks ∷ [])).0
state_run-permit_run_example =
    (state_run-permit_run (thread_at 1 (pos 5)) (unparks ∷ parks ∷ parks ∷ unparks ∷ [])
      (λ e. refl)).0

abbrev some_history : List Event
some_history = leaps (pos 3) ∷ registers ∷ becomes running ∷ interrupted ∷ clears ∷ []

total_time-history_example :
    let s' = set_new_state (happen_all unscaled 1 (thread_at 1 (pos 5)) some_history) waiting in
    total_time s'.stats -ℤ total_time (thread_at 1 (pos 5)).stats
    ≡ s'.timers.estimated_real_time
      -ℤ (thread_at 1 (pos 5)).timers.last_time_per_state_ert
      -ℤ taken unscaled 1 (thread_at 1 (pos 5)) some_history
total_time-history_example =
    total_time-history unscaled 1 (thread_at 1 (pos 5)) some_history waiting

differ : to_be_suspended ≢ clear_suspendflag
differ e = absurd (cc)

add_all-clear_example :
    aggregate_time
      (add_all (clear new_counters) ((thread_at 1 (pos 5)).stats ∷ new_statistics ∷ []))
    ≡ total_times ((thread_at 1 (pos 5)).stats ∷ new_statistics ∷ [])
add_all-clear_example =
    add_all-clear new_counters ((thread_at 1 (pos 5)).stats ∷ new_statistics ∷ [])
