-- ===== src/Timeline/Controllers/Multiple.antt =====
-- The class MultipleVirtualTimelinesController: one clock for each manager. `id` is the manager's
-- processor; the timeline decides by its class what a commit does to the global clock. A function
-- that calls the timeline once is one step; where it first reads the core's time and then leaps, the
-- model's step is the run in which no other thread commits between the two.
use vexjine.Common.{ℕ, false, not, ◌&&◌, Option, none, ℤ, pos, ◌-ℤ◌, eqb_ℤ, if◌then◌else◌}
use vexjine.Threads.Timers
use vexjine.Threads.Timers.Waiting
use vexjine.Threads.State.{VexThreadState, is_model_timed_waiting}
use vexjine.Timeline.Multicore
use vexjine.Timeline.Multicore.{MulticoreVirtualTimeline, get_local_time}
use vexjine.Timeline.Controllers.{VirtualTimelineController}

module _ (id : ℕ) where
  unfoldable pub commit_cpu_time_progress :
      MulticoreVirtualTimeline → VexThreadState → MulticoreVirtualTimeline × VexThreadState
  unfolding Multicore.leap_forward_to Timers.get_current_virtual_timestamp_of_running_thread
  commit_cpu_time_progress m s =
      let time = Timers.get_current_virtual_timestamp_of_running_thread s.timers in
      (Multicore.leap_forward_to m time id, s)

  unfoldable pub commit_io_time_progress :
      MulticoreVirtualTimeline → VexThreadState → ℤ → MulticoreVirtualTimeline × VexThreadState
  unfolding Multicore.leap_forward_to get_local_time Waiting.update_io_waiting_time_from
  commit_io_time_progress m s actual =
      let t = Waiting.update_io_waiting_time_from s.timers (get_local_time m id) actual in
      (Multicore.leap_forward_to m t.estimated_real_time id, record s { timers = t })

  unfoldable pub commit_timed_waiting_progress :
      MulticoreVirtualTimeline → VexThreadState → MulticoreVirtualTimeline × VexThreadState
  unfolding Multicore.leap_forward_to get_local_time Waiting.update_waiting_time_from
  commit_timed_waiting_progress m s =
      let t = Waiting.update_waiting_time_from s.timers (get_local_time m id) in
      (Multicore.leap_forward_to m t.estimated_real_time id, record s { timers = t })

  unfoldable pub commit_native_waiting_progress :
      MulticoreVirtualTimeline → VexThreadState → MulticoreVirtualTimeline × VexThreadState
  unfolding Multicore.add_time_of_thread_executing_at_unknown_time
  commit_native_waiting_progress m s = (
    Multicore.add_time_of_thread_executing_at_unknown_time m s.timers.local_time_since_last_resume,
    s,
  )

  unfoldable pub commit_background_load_execution_time :
      MulticoreVirtualTimeline → ℤ → MulticoreVirtualTimeline
  unfolding Multicore.add_time_of_thread_executing_at_unknown_time
  commit_background_load_execution_time m time =
      Multicore.add_time_of_thread_executing_at_unknown_time m time

  unfoldable pub commit_model_simulation_progress :
      MulticoreVirtualTimeline → VexThreadState → MulticoreVirtualTimeline × VexThreadState
  unfolding Multicore.leap_forward_to get_local_time is_model_timed_waiting Timers.leap_forward_to
  commit_model_simulation_progress m s =
      let m' = Multicore.leap_forward_to m s.timers.estimated_real_time id in
      let t = Timers.leap_forward_to s.timers (get_local_time m' id) in
      if not (is_model_timed_waiting s) then (m', record s { timers = t }) else (m, s)

  -- The assertion that no timed-out I/O is committed here always fails.
  unfoldable pub commit_timed_out_io_progress :
      MulticoreVirtualTimeline → VexThreadState → Option (MulticoreVirtualTimeline × VexThreadState)
  commit_timed_out_io_progress m s = none

  -- What follows the reading of the core's time. The two calls are locked one by one, and other
  -- threads may commit between them.
  unfoldable pub leap_after_reading :
      ℤ → MulticoreVirtualTimeline → VexThreadState → MulticoreVirtualTimeline × VexThreadState
  unfolding Multicore.leap_forward_to Timers.leap_forward_to
  leap_after_reading time m s =
      let t = Timers.leap_forward_to s.timers time in
      let m' =
        if not (eqb_ℤ time t.estimated_real_time)
        then Multicore.leap_forward_to m t.estimated_real_time id
        else m in
      (m', record s { timers = t })

  unfoldable pub update_resuming_suspended_thread_timestamp :
      MulticoreVirtualTimeline → VexThreadState → MulticoreVirtualTimeline × VexThreadState
  unfolding get_local_time leap_after_reading
  update_resuming_suspended_thread_timestamp m s = leap_after_reading (get_local_time m id) m s

  unfoldable pub update_resuming_suspended_thread_resumed_last_timestamp :
      MulticoreVirtualTimeline → VexThreadState → ℤ → MulticoreVirtualTimeline × VexThreadState
  unfolding Multicore.get_local_timeline_activation_time Timers.leap_forward_to
      Timers.update_times_after_resuming
  update_resuming_suspended_thread_resumed_last_timestamp m s now =
      let (m', activation) =
        Multicore.get_local_timeline_activation_time m s.timers.estimated_real_time id in
      let t = Timers.leap_forward_to s.timers activation in
      (m', record s { timers = Timers.update_times_after_resuming t activation now })

  unfoldable pub update_interrupted_waiting_thread_timestamp :
      MulticoreVirtualTimeline → VexThreadState → ℤ → MulticoreVirtualTimeline × VexThreadState
  unfolding get_local_time Timers.set_estimated_real_time
  update_interrupted_waiting_thread_timestamp m s interrupt_time =
      let time =
        if eqb_ℤ interrupt_time (pos 0) && not s.timers.dont_update_to_global_time
        then get_local_time m id
        else interrupt_time in
      (m, record s { timers = Timers.set_estimated_real_time s.timers time })

  unfoldable pub update_timed_out_waiting_thread_timestamp :
      MulticoreVirtualTimeline → VexThreadState → MulticoreVirtualTimeline × VexThreadState
  unfolding get_local_time Timers.leap_forward_to
  update_timed_out_waiting_thread_timestamp m s =
      (m, record s { timers = Timers.leap_forward_to s.timers (get_local_time m id) })

  unfoldable pub update_blocked_thread_timestamp :
      MulticoreVirtualTimeline → VexThreadState → MulticoreVirtualTimeline × VexThreadState
  unfolding Multicore.get_updated_global_time Timers.leap_forward_to Timers.set_resumed_last_at
      Timers.get_and_reset_local_time
  update_blocked_thread_timestamp m s =
      let (m', time) = Multicore.get_updated_global_time m in
      let t = Timers.set_resumed_last_at (Timers.leap_forward_to s.timers time) time in
      (m', record s { timers = (Timers.get_and_reset_local_time t).0 })

  unfoldable pub get_how_far_ahead_in_virtual_time_the_thread_is :
      MulticoreVirtualTimeline → VexThreadState → ℤ
  get_how_far_ahead_in_virtual_time_the_thread_is m s =
      s.timers.estimated_real_time -ℤ m.global_virtual_time

  abbrev pub multiple_controller : VirtualTimelineController MulticoreVirtualTimeline
  multiple_controller = record {
    commit_cpu_time_progress = commit_cpu_time_progress;
    commit_io_time_progress = commit_io_time_progress;
    commit_timed_waiting_progress = commit_timed_waiting_progress;
    commit_native_waiting_progress = commit_native_waiting_progress;
    commit_background_load_execution_time = commit_background_load_execution_time;
    commit_model_simulation_progress = commit_model_simulation_progress;
    commit_timed_out_io_progress = commit_timed_out_io_progress;
    update_resuming_suspended_thread_timestamp = update_resuming_suspended_thread_timestamp;
    update_resuming_suspended_thread_resumed_last_timestamp =
        update_resuming_suspended_thread_resumed_last_timestamp;
    update_timed_out_waiting_thread_timestamp = update_timed_out_waiting_thread_timestamp;
    update_interrupted_waiting_thread_timestamp = update_interrupted_waiting_thread_timestamp;
    update_blocked_thread_timestamp = update_blocked_thread_timestamp;
    get_how_far_ahead_in_virtual_time_the_thread_is =
        get_how_far_ahead_in_virtual_time_the_thread_is;
    should_block_core_progress = λ m timeslot. Multicore.should_block_core_progress m timeslot id;
    disable_core = λ m. Multicore.disable_local_timeline false m id;
    get_global_time = λ m. get_local_time m id;
    get_current_time_snapshot = λ m. record {
      global_time = m.global_virtual_time;
      local_time = get_local_time m id;
      local_timeline_id = id;
    };
  }
