-- ===== src/Timeline/Controllers/Logged.antt =====
-- The class StatisticsEnabledVirtualTimelineController: it passes every call on to another controller
-- and hands the snapshots before and after each commit to a TimeLoggingBehaviour. That behaviour is
-- chosen at run time; the model keeps what it is given, in order.
use vexjine.Common.{Bool, Option, none, some, List, push_back}
use vexjine.Threads.State.{VexThreadState}
use vexjine.Timeline.Controllers.{VirtualTimelineController, VirtualTimeSnapshot}

-- The functions of TimeLoggingBehaviour that are called.
pub data Logged : Type 0 where
  cpu_time io_time timed_waiting_time native_waiting_time background_load_execution_time
        model_simulation_time timed_out_io_time :
      Logged

pub record Entry : Type 0 where
  pub kind : Logged
  pub before : VirtualTimeSnapshot
  pub after : VirtualTimeSnapshot

-- The snapshot before, the controller's commit, and the snapshot after.
unfoldable pub logged :
    {T : Type 0} → VirtualTimelineController T → Logged → (T × List Entry) → T → T × List Entry
logged c kind (t, log) t' = (
  t',
  push_back log (record {
    kind = kind;
    before = c.get_current_time_snapshot t;
    after = c.get_current_time_snapshot t';
  }),
)

module _ {T : Type 0} (c : VirtualTimelineController T) where
  commit : Logged → (T × List Entry) → (T × VexThreadState) → (T × List Entry) × VexThreadState
  unfolding logged
  commit kind t (t', s) = (logged c kind t t', s)

  pass : (T × List Entry) → (T × VexThreadState) → (T × List Entry) × VexThreadState
  pass (t, log) (t', s) = ((t', log), s)

  answer : (T × List Entry) → Option (T × Bool) → Option ((T × List Entry) × Bool)
  answer (t, log) none = none
  answer (t, log) (some (t', b)) = some ((t', log), b)

  timed_out :
      (T × List Entry) → Option (T × VexThreadState) → Option ((T × List Entry) × VexThreadState)
  unfolding commit
  timed_out t none = none
  timed_out t (some r) = some (commit timed_out_io_time t r)

  unfoldable pub statistics_enabled : VirtualTimelineController (T × List Entry)
  unfolding commit pass answer timed_out logged
  statistics_enabled = record {
    commit_cpu_time_progress = λ t s. commit cpu_time t (c.commit_cpu_time_progress t.0 s);
    commit_io_time_progress =
        λ t s actual. commit io_time t (c.commit_io_time_progress t.0 s actual);
    commit_timed_waiting_progress =
        λ t s. commit timed_waiting_time t (c.commit_timed_waiting_progress t.0 s);
    commit_native_waiting_progress =
        λ t s. commit native_waiting_time t (c.commit_native_waiting_progress t.0 s);
    commit_background_load_execution_time = λ t time.
        logged c background_load_execution_time t
          (c.commit_background_load_execution_time t.0 time);
    commit_model_simulation_progress =
        λ t s. commit model_simulation_time t (c.commit_model_simulation_progress t.0 s);
    commit_timed_out_io_progress = λ t s. timed_out t (c.commit_timed_out_io_progress t.0 s);
    update_resuming_suspended_thread_timestamp =
        λ t s. pass t (c.update_resuming_suspended_thread_timestamp t.0 s);
    update_resuming_suspended_thread_resumed_last_timestamp =
        λ t s now. pass t (c.update_resuming_suspended_thread_resumed_last_timestamp t.0 s now);
    update_timed_out_waiting_thread_timestamp =
        λ t s. pass t (c.update_timed_out_waiting_thread_timestamp t.0 s);
    update_interrupted_waiting_thread_timestamp =
        λ t s time. pass t (c.update_interrupted_waiting_thread_timestamp t.0 s time);
    update_blocked_thread_timestamp = λ t s. pass t (c.update_blocked_thread_timestamp t.0 s);
    get_how_far_ahead_in_virtual_time_the_thread_is =
        λ t s. c.get_how_far_ahead_in_virtual_time_the_thread_is t.0 s;
    should_block_core_progress = λ t timeslot. answer t (c.should_block_core_progress t.0 timeslot);
    disable_core = λ t. answer t (c.disable_core t.0);
    get_global_time = λ t. c.get_global_time t.0;
    get_current_time_snapshot = λ t. c.get_current_time_snapshot t.0;
  }
