-- ===== src/Threads/State/Waiting.antt =====
-- ThreadState.h and ThreadState.cpp: timed waits, parking, interrupts and I/O predictions.
use vexjine.Common.{
  ℕ, ◌==◌, Bool, true, false, Option, none, some, ℤ, pos, negsuc, ◌-ℤ◌, ltb_ℤ, eqb_ℤ, if◌then◌else◌,
}
use vexjine.Threads.Code.{waiting, in_io_invalidation}
use vexjine.Threads.Timers.{FloatOps, add_elapsed_time, leap_forward_by}
use vexjine.Threads.Timers.Waiting.{
  update_times_before_waiting_with_timeout, set_timeout_flag_to_denote_possibly_resuming_thread,
}
use vexjine.Threads.IoHandler.{
  extend_prediction_period, get_total_time_predicted,
  add_prediction_to_estimated_real_time as restart_prediction,
}
use vexjine.Threads.Scheduling.{set_awaken}
use vexjine.Threads.State.{
  VexThreadState, set_new_state, set_suspended, set_logged_only, set_learning_io, set_in_io,
}
use vexjine.Registries.Object.{ObjectRegistry, erase}

unfoldable pub set_timed_waiting : FloatOps → ℕ → VexThreadState → ℤ → VexThreadState
unfolding set_new_state set_awaken update_times_before_waiting_with_timeout
set_timed_waiting f global s timeout =
    let s' = set_new_state s waiting in
    record s' {
      timed_out = true;
      after_interrupted_timed_parking = false;
      scheduling = set_awaken s'.scheduling false;
      timers = update_times_before_waiting_with_timeout f global s'.timers timeout;
    }

unfoldable pub set_waiting_object_id : VexThreadState → ℕ → VexThreadState
set_waiting_object_id s object =
    if object == 0 then s else record s { timed_waiting_object_id = object }

unfoldable pub get_and_set_unparked_state : VexThreadState → VexThreadState × Bool
get_and_set_unparked_state s =
    if s.already_unparked
    then (record s { already_unparked = false; parked = false }, true)
    else (record s { parked = true; timed_waiting_object_id = 0 }, false)

unfoldable pub get_and_set_parked_state : VexThreadState → VexThreadState × Bool
get_and_set_parked_state s =
    if s.parked
    then (record s { already_unparked = false; parked = false }, true)
    else (record s { already_unparked = true }, false)

unfoldable pub erase_waiting_object_id_from_registry :
    VexThreadState → Option ObjectRegistry → Option ObjectRegistry
unfolding erase
erase_waiting_object_id_from_registry s none = none
erase_waiting_object_id_from_registry s (some r) =
    if s.timed_waiting_object_id == 0
    then some r
    else some (erase r s.timed_waiting_object_id s.jthread_id)

-- The interrupt of a parked thread ends its parking, and remembers that it was a timed one.
unfoldable pub unpark_by_interrupt : VexThreadState → VexThreadState
unpark_by_interrupt s =
    if s.parked
    then record s {
      parked = false;
      after_interrupted_timed_parking =
          if ltb_ℤ (pos 0) s.timers.timeout then true else s.after_interrupted_timed_parking;
    }
    else s

unfoldable pub restart_counter : VexThreadState → VexThreadState
unfolding set_timeout_flag_to_denote_possibly_resuming_thread
restart_counter s =
    if ltb_ℤ s.timers.timeout (pos 0)
    then record s { timers = set_timeout_flag_to_denote_possibly_resuming_thread s.timers }
    else s

unfoldable pub before_thread_interrupt_at :
    VexThreadState → Option ObjectRegistry → VexThreadState × Option ObjectRegistry
unfolding erase_waiting_object_id_from_registry unpark_by_interrupt restart_counter set_suspended
before_thread_interrupt_at s r =
    let s' = set_suspended (restart_counter (unpark_by_interrupt s)) in
    (record s' { timed_out = false }, erase_waiting_object_id_from_registry s r)

unfoldable pub add_prediction_to_estimated_real_time : VexThreadState → VexThreadState
unfolding add_elapsed_time restart_prediction
add_prediction_to_estimated_real_time s = record s {
  timers = (add_elapsed_time s.timers s.io_handler.last_io_prediction).0;
  io_handler = restart_prediction s.io_handler;
}

unfoldable pub invalidate_io_prediction : VexThreadState → VexThreadState
unfolding leap_forward_by extend_prediction_period set_logged_only
invalidate_io_prediction s =
    let (h, period) = extend_prediction_period s.io_handler in
    let s' = record s { io_handler = h; timers = (leap_forward_by s.timers period).0 } in
    set_logged_only s' in_io_invalidation

unfoldable pub update_estimated_real_time_after_io_prediction : VexThreadState → ℤ → VexThreadState
unfolding leap_forward_by get_total_time_predicted
update_estimated_real_time_after_io_prediction s actual = record s {
  timers = (leap_forward_by s.timers (actual -ℤ get_total_time_predicted s.io_handler)).0;
}

unfoldable pub get_prediction_error : VexThreadState → ℤ → ℤ
unfolding get_total_time_predicted
get_prediction_error s now = now -ℤ s.timers.last_real_time -ℤ get_total_time_predicted s.io_handler

unfoldable pub is_io_prediction_still_valid : VexThreadState → ℤ → Bool
unfolding get_prediction_error
is_io_prediction_still_valid s now =
    if ltb_ℤ (pos 0) (get_prediction_error s now) then false else true

-- Does the operation block the progress of the simulation? Learning with a timeout, and any other.
unfoldable pub set_io_and_check_if_operation_should_block :
    VexThreadState → Bool → VexThreadState × Bool
unfolding set_learning_io set_in_io leap_forward_by
set_io_and_check_if_operation_should_block s true =
    let s' = set_learning_io s in
    if eqb_ℤ s'.timers.timeout (negsuc 0)
    then (s', false)
    else (record s' { timers = (leap_forward_by s'.timers s'.timers.timeout).0 }, true)
set_io_and_check_if_operation_should_block s false = (set_in_io s, true)
