-- ===== src/Threads/State.antt =====
-- ThreadState.h and ThreadState.cpp: the state of one thread, which owns the parts above.
-- Names, performance logs, models and the JVM side are left out.
pub mod Waiting
pub mod Accounting
pub mod Parking
pub mod Totals
use vexjine.Common.{
  ℕ, ◌==◌, Bool, true, false, not, ◌&&◌, ◌||◌, Option, none, some, ℤ, pos, negsuc, ◌+ℤ◌, ◌-ℤ◌,
  ltb_ℤ, eqb_ℤ, if◌then◌else◌,
}
use vexjine.Threads.Code.{
  Code, eq_code, running, waiting, suspended, learning_io, in_io, in_model, registering,
  native_waiting, in_io_stale, in_io_invalidation, recovered_after_failed_io, awaking_from_waiting,
  vex_zombie, custom1, custom2, custom3, in_model_waiting, after_model_sim_waiting_for_real_code,
  in_system_call,
}
use vexjine.Threads.Timers.{
  Timers, FloatOps, set_last_time_per_state_ert, swap_blocking_time, leap_forward_by, leap_to,
}
use vexjine.Threads.Statistics.{Statistics, log_transition, log_transition_after}
use vexjine.Threads.IoHandler.{
  IoHandler, extend_prediction_period, get_total_time_predicted,
  add_prediction_to_estimated_real_time as restart_prediction,
}
use vexjine.Threads.Scheduling.{Scheduling, set_awaken, release_thread_from_its_controlling_manager}

pub record VexThreadState : Type 0 where
  pub jthread_id : ℕ
  pub current_state : Code
  pub previous_state : Code
  pub timers : Timers
  pub io_handler : IoHandler
  pub scheduling : Scheduling
  pub stats : Statistics
  pub in_vex : Bool
  pub timed_out : Bool
  pub parked : Bool
  pub already_unparked : Bool
  pub after_interrupted_timed_parking : Bool
  pub timed_waiting_object_id : ℕ

unfoldable pub is_registering : VexThreadState → Bool
unfolding eq_code
is_registering s = eq_code s.current_state registering

unfoldable pub is_suspended : VexThreadState → Bool
unfolding eq_code
is_suspended s = eq_code s.current_state suspended

unfoldable pub is_native_waiting : VexThreadState → Bool
unfolding eq_code
is_native_waiting s = eq_code s.current_state native_waiting

unfoldable pub in_io_learning_phase : VexThreadState → Bool
unfolding eq_code
in_io_learning_phase s = eq_code s.current_state learning_io

unfoldable pub in_io_prediction_phase : VexThreadState → Bool
unfolding eq_code
in_io_prediction_phase s = eq_code s.current_state in_io

unfoldable pub is_running : VexThreadState → Bool
unfolding eq_code
is_running s = eq_code s.current_state running || eq_code s.current_state in_system_call

unfoldable pub is_waiting_real_code_to_complete_after_model_simulation : VexThreadState → Bool
unfolding eq_code
is_waiting_real_code_to_complete_after_model_simulation s =
    eq_code s.current_state after_model_sim_waiting_for_real_code

unfoldable pub is_simulating_model : VexThreadState → Bool
unfolding eq_code
is_simulating_model s = eq_code s.current_state in_model || eq_code s.current_state in_model_waiting

unfoldable pub is_waiting : VexThreadState → Bool
unfolding eq_code
is_waiting s = eq_code s.current_state waiting

unfoldable pub is_dead : VexThreadState → Bool
unfolding eq_code
is_dead s = eq_code s.current_state vex_zombie

unfoldable pub is_in_any_io : VexThreadState → Bool
unfolding in_io_learning_phase in_io_prediction_phase
is_in_any_io s = in_io_learning_phase s || in_io_prediction_phase s

unfoldable pub is_definitely_active_in_io : VexThreadState → Bool
unfolding is_in_any_io
is_definitely_active_in_io s = is_in_any_io s && not s.io_handler.possibly_blocking_io

unfoldable pub is_somewhere_in_vex : VexThreadState → Bool
unfolding is_waiting
is_somewhere_in_vex s = s.in_vex && not (is_waiting s)

unfoldable pub is_definitely_active : VexThreadState → Bool
unfolding is_definitely_active_in_io is_registering is_suspended is_running is_somewhere_in_vex
is_definitely_active s =
    is_definitely_active_in_io s
    || is_registering s
    || is_suspended s
    || is_running s
    || s.scheduling.awaken
    || s.scheduling.awakening_from_join
    || is_somewhere_in_vex s

unfoldable pub is_timed_waiting : VexThreadState → Bool
unfolding eq_code
is_timed_waiting s = eq_code s.current_state waiting && ltb_ℤ (pos 0) s.timers.timeout

unfoldable pub is_model_timed_waiting : VexThreadState → Bool
unfolding eq_code
is_model_timed_waiting s = eq_code s.current_state in_model && ltb_ℤ (pos 0) s.timers.timeout

unfoldable pub set_registering : VexThreadState → VexThreadState
unfolding set_last_time_per_state_ert
set_registering s = record s {
  timers = set_last_time_per_state_ert s.timers s.timers.estimated_real_time;
  current_state = registering;
}

unfoldable pub set_new_state : VexThreadState → Code → VexThreadState
unfolding log_transition_after set_last_time_per_state_ert
set_new_state s c = record s {
  previous_state = s.current_state;
  stats =
      log_transition_after s.stats s.current_state c
        (s.timers.estimated_real_time -ℤ s.timers.last_time_per_state_ert);
  timers = set_last_time_per_state_ert s.timers s.timers.estimated_real_time;
  current_state = c;
}

-- The setters of `setInIoStale` and its like only count a transition.
unfoldable pub set_logged_only : VexThreadState → Code → VexThreadState
unfolding log_transition
set_logged_only s c = record s { stats = log_transition s.stats s.current_state c }

unfoldable pub set_suspended : VexThreadState → VexThreadState
unfolding set_new_state set_awaken
set_suspended s =
    let s' = set_new_state s suspended in record s' { scheduling = set_awaken s'.scheduling false }

unfoldable pub set_waiting : VexThreadState → VexThreadState
unfolding set_new_state
set_waiting s =
    set_new_state (record s { timed_out = true; after_interrupted_timed_parking = false }) waiting

unfoldable pub set_native_waiting : VexThreadState → VexThreadState
unfolding set_new_state release_thread_from_its_controlling_manager
set_native_waiting s =
    let s' = set_new_state s native_waiting in
    record s' { scheduling = release_thread_from_its_controlling_manager s'.scheduling }

unfoldable pub set_running : VexThreadState → VexThreadState
unfolding set_new_state
set_running s = set_new_state s running

unfoldable pub set_learning_io : VexThreadState → VexThreadState
unfolding set_new_state
set_learning_io s = set_new_state s learning_io

unfoldable pub set_in_io : VexThreadState → VexThreadState
unfolding set_new_state
set_in_io s = set_new_state s in_io

unfoldable pub set_in_system_call : VexThreadState → VexThreadState
unfolding set_new_state
set_in_system_call s = set_new_state s in_system_call

unfoldable pub set_in_model_simulation : VexThreadState → VexThreadState
unfolding set_new_state
set_in_model_simulation s = set_new_state s in_model

unfoldable pub set_in_model_waiting : VexThreadState → VexThreadState
unfolding set_new_state
set_in_model_waiting s = set_new_state s in_model_waiting

unfoldable pub set_dead : VexThreadState → VexThreadState
unfolding set_new_state
set_dead s = set_new_state s vex_zombie

unfoldable pub set_join_wait_completed : VexThreadState → VexThreadState
unfolding set_new_state
set_join_wait_completed s = set_new_state s awaking_from_waiting

unfoldable pub wait_for_real_code_to_complete : VexThreadState → VexThreadState
unfolding set_new_state swap_blocking_time
wait_for_real_code_to_complete s =
    let s' = set_new_state s after_model_sim_waiting_for_real_code in
    record s' { timers = swap_blocking_time s'.timers }
