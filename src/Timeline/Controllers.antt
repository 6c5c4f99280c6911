-- ===== src/Timeline/Controllers.antt =====
-- The class VirtualTimelineController, which the managers call, as an interface: a controller acts on
-- a timeline of type `T` and on the thread whose progress is committed. `now` is what
-- `Time::getRealTime()` answers. `none` is a failed `assert(false)`, or a call that never returns.
pub mod Single
pub mod Multiple
pub mod Logged
pub mod Laws
pub mod Cores
use vexjine.Common.{ℕ, ◌==◌, Bool, Option, none, some, ℤ, pos, ◌-ℤ◌, if◌then◌else◌}
use vexjine.Threads.State.{VexThreadState}

pub record VirtualTimeSnapshot : Type 0 where
  pub global_time : ℤ
  pub local_time : ℤ
  pub local_timeline_id : ℕ

-- `operator-=`: only snapshots of one core are compared.
unfoldable pub minus : VirtualTimeSnapshot → VirtualTimeSnapshot → Option VirtualTimeSnapshot
minus a b =
    if a.local_timeline_id == b.local_timeline_id
    then some (record a {
      global_time = a.global_time -ℤ b.global_time;
      local_time = a.local_time -ℤ b.local_time;
    })
    else none

pub record VirtualTimelineController (T : Type 0) : Type 0 where
  pub commit_cpu_time_progress : T → VexThreadState → T × VexThreadState
  pub commit_io_time_progress : T → VexThreadState → ℤ → T × VexThreadState
  pub commit_timed_waiting_progress : T → VexThreadState → T × VexThreadState
  pub commit_native_waiting_progress : T → VexThreadState → T × VexThreadState
  pub commit_background_load_execution_time : T → ℤ → T
  pub commit_model_simulation_progress : T → VexThreadState → T × VexThreadState
  pub commit_timed_out_io_progress : T → VexThreadState → Option (T × VexThreadState)
  pub update_resuming_suspended_thread_timestamp : T → VexThreadState → T × VexThreadState
  pub update_resuming_suspended_thread_resumed_last_timestamp :
      T → VexThreadState → ℤ → T × VexThreadState
  pub update_timed_out_waiting_thread_timestamp : T → VexThreadState → T × VexThreadState
  pub update_interrupted_waiting_thread_timestamp : T → VexThreadState → ℤ → T × VexThreadState
  pub update_blocked_thread_timestamp : T → VexThreadState → T × VexThreadState
  pub get_how_far_ahead_in_virtual_time_the_thread_is : T → VexThreadState → ℤ
  pub should_block_core_progress : T → ℤ → Option (T × Bool)
  pub disable_core : T → Option (T × Bool)
  pub get_global_time : T → ℤ
  pub get_current_time_snapshot : T → VirtualTimeSnapshot
