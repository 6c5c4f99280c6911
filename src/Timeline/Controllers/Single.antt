-- ===== src/Timeline/Controllers/Single.antt =====
-- The classes SingleVirtualTimelineController and PassiveVirtualTimelineController: one clock for
-- all threads. The passive controller adds what the threads report, where the other one leaps.
use vexjine.Common.{true, false, not, ◌&&◌, Option, none, some, ℤ, pos, ◌-ℤ◌, eqb_ℤ, if◌then◌else◌}
use vexjine.Threads.Timers
use vexjine.Threads.Timers.Waiting
use vexjine.Threads.State.{VexThreadState, is_model_timed_waiting}
use vexjine.Timeline.Virtual
use vexjine.Timeline.Virtual.{VirtualTimeline}
use vexjine.Timeline.Controllers.{VirtualTimelineController}

unfoldable pub commit_cpu_time_progress :
    VirtualTimeline → VexThreadState → VirtualTimeline × VexThreadState
unfolding Virtual.leap_forward_to Timers.get_current_virtual_timestamp_of_running_thread
commit_cpu_time_progress v s =
    (Virtual.leap_forward_to v (Timers.get_current_virtual_timestamp_of_running_thread s.timers), s)

unfoldable pub commit_io_time_progress :
    VirtualTimeline → VexThreadState → ℤ → VirtualTimeline × VexThreadState
unfolding Virtual.leap_forward_to Waiting.update_io_waiting_time_from
commit_io_time_progress v s actual =
    let t = Waiting.update_io_waiting_time_from s.timers v.global_virtual_time actual in
    (Virtual.leap_forward_to v t.estimated_real_time, record s { timers = t })

unfoldable pub commit_timed_waiting_progress :
    VirtualTimeline → VexThreadState → VirtualTimeline × VexThreadState
unfolding Virtual.leap_forward_to Waiting.update_waiting_time_from
commit_timed_waiting_progress v s =
    let t = Waiting.update_waiting_time_from s.timers v.global_virtual_time in
    (Virtual.leap_forward_to v t.estimated_real_time, record s { timers = t })

unfoldable pub commit_native_waiting_progress :
    VirtualTimeline → VexThreadState → VirtualTimeline × VexThreadState
unfolding Virtual.add_time_of_thread_executing_at_unknown_time
commit_native_waiting_progress v s = (
  Virtual.add_time_of_thread_executing_at_unknown_time v s.timers.local_time_since_last_resume,
  s,
)

unfoldable pub commit_background_load_execution_time : VirtualTimeline → ℤ → VirtualTimeline
unfolding Virtual.add_time_of_unknown_real_time_duration_and_synchronize
commit_background_load_execution_time v time =
    Virtual.add_time_of_unknown_real_time_duration_and_synchronize v time

unfoldable pub commit_model_simulation_progress :
    VirtualTimeline → VexThreadState → VirtualTimeline × VexThreadState
unfolding Virtual.leap_forward_to Timers.get_current_virtual_timestamp_of_running_thread
    is_model_timed_waiting
commit_model_simulation_progress v s =
    let time = Timers.get_current_virtual_timestamp_of_running_thread s.timers in
    (if not (is_model_timed_waiting s) then Virtual.leap_forward_to v time else v, s)

-- The assertion that no timed-out I/O is committed here always fails.
unfoldable pub commit_timed_out_io_progress :
    VirtualTimeline → VexThreadState → Option (VirtualTimeline × VexThreadState)
commit_timed_out_io_progress v s = none

-- Also `updateTimedOutWaitingThreadTimestamp`.
unfoldable pub update_resuming_suspended_thread_timestamp :
    VirtualTimeline → VexThreadState → VirtualTimeline × VexThreadState
unfolding Timers.leap_forward_to
update_resuming_suspended_thread_timestamp v s =
    (v, record s { timers = Timers.leap_forward_to s.timers v.global_virtual_time })

unfoldable pub update_resuming_suspended_thread_resumed_last_timestamp :
    VirtualTimeline → VexThreadState → ℤ → VirtualTimeline × VexThreadState
unfolding Timers.update_times_after_resuming
update_resuming_suspended_thread_resumed_last_timestamp v s now =
    let t = Timers.update_times_after_resuming s.timers v.global_virtual_time now in
    (v, record s { timers = t })

unfoldable pub update_interrupted_waiting_thread_timestamp :
    VirtualTimeline → VexThreadState → ℤ → VirtualTimeline × VexThreadState
unfolding Timers.set_estimated_real_time
update_interrupted_waiting_thread_timestamp v s interrupt_time =
    let time =
      if eqb_ℤ interrupt_time (pos 0) && not s.timers.dont_update_to_global_time
      then v.global_virtual_time
      else interrupt_time in
    (v, record s { timers = Timers.set_estimated_real_time s.timers time })

unfoldable pub update_blocked_thread_timestamp :
    VirtualTimeline → VexThreadState → VirtualTimeline × VexThreadState
unfolding Timers.leap_forward_to Timers.set_resumed_last_at Timers.get_and_reset_local_time
update_blocked_thread_timestamp v s =
    let time = v.global_virtual_time in
    let t = Timers.set_resumed_last_at (Timers.leap_forward_to s.timers time) time in
    (v, record s { timers = (Timers.get_and_reset_local_time t).0 })

unfoldable pub get_how_far_ahead_in_virtual_time_the_thread_is :
    VirtualTimeline → VexThreadState → ℤ
get_how_far_ahead_in_virtual_time_the_thread_is v s =
    s.timers.estimated_real_time -ℤ v.global_virtual_time

abbrev pub single_controller : VirtualTimelineController VirtualTimeline
single_controller = record {
  commit_cpu_time_progress = commit_cpu_time_progress;
  commit_io_time_progress = commit_io_time_progress;
  commit_timed_waiting_progress = commit_timed_waiting_progress;
  commit_native_waiting_progress = commit_native_waiting_progress;
  commit_background_load_execution_time = commit_background_load_execution_time;
  commit_model_simulation_progress = commit_model_simulation_progress;
  commit_timed_out_io_progress = commit_timed_out_io_progress;
  update_resuming_suspended_thread_timestamp = update_resuming_suspended_thread_timestamp;
  update_resuming_suspended_thread_resumed_last_timestamp =
      update_resuming_suspended_thread_resumed_last_timestamp;
  update_timed_out_waiting_thread_timestamp = update_resuming_suspended_thread_timestamp;
  update_interrupted_waiting_thread_timestamp = update_interrupted_waiting_thread_timestamp;
  update_blocked_thread_timestamp = update_blocked_thread_timestamp;
  get_how_far_ahead_in_virtual_time_the_thread_is = get_how_far_ahead_in_virtual_time_the_thread_is;
  should_block_core_progress = λ v timeslot. some (v, true);
  disable_core = λ v. some (v, false);
  get_global_time = λ v. v.global_virtual_time;
  get_current_time_snapshot = λ v. record {
    global_time = v.global_virtual_time;
    local_time = v.global_virtual_time;
    local_timeline_id = 0;
  };
}

-- `addTimeOfUnknown…(getAndResetLocalTime())` and `setEstimatedRealTime(getGlobalTime())`.
unfoldable pub report_local_time :
    VirtualTimeline → VexThreadState → VirtualTimeline × VexThreadState
unfolding Virtual.add_time_of_unknown_real_time_duration_and_synchronize
    Timers.get_and_reset_local_time Timers.set_estimated_real_time
report_local_time v s =
    let (t, local) = Timers.get_and_reset_local_time s.timers in
    let v' = Virtual.add_time_of_unknown_real_time_duration_and_synchronize v local in
    (v', record s { timers = Timers.set_estimated_real_time t v'.global_virtual_time })

unfoldable pub commit_io_time_passively :
    VirtualTimeline → VexThreadState → ℤ → VirtualTimeline × VexThreadState
unfolding report_local_time Waiting.update_io_waiting_time_from
commit_io_time_passively v s actual =
    let t = Waiting.update_io_waiting_time_from s.timers v.global_virtual_time actual in
    report_local_time v (record s { timers = t })

abbrev pub passive_controller : VirtualTimelineController VirtualTimeline
passive_controller = record single_controller {
  commit_cpu_time_progress = report_local_time;
  commit_io_time_progress = commit_io_time_passively;
}
