-- ===== src/Threads/Scheduling.antt =====
-- Scheduling.h and Scheduling.cpp: how a thread and its scheduler agree on suspending and resuming.
-- A manager is known by its id. Mutexes are not modelled: each operation holds its own. A wait on a
-- condition variable is `none` while the condition does not hold, so the caller has to come again.
pub mod Handshake
use vexjine.Common.{
  ℕ, suc, ◌+◌, ◌==◌, Bool, true, false, Option, none, some, ℤ, pos, ◌+ℤ◌, ltb_ℤ, if◌then◌else◌,
}

pub data Intention : Type 0 where
  clear_suspendflag to_be_suspended to_keep_on_running to_be_disregarded : Intention
  resuming_suspendflag : Intention

abbrev pub maximum_consecutive_timeslices_as_native_waiting : ℤ
maximum_consecutive_timeslices_as_native_waiting = pos 5

pub record Scheduling : Type 0 where
  pub local_manager_id : ℕ
  pub thread_currently_controlling_manager : Option ℕ
  pub previously_controlling_manager : Option ℕ
  pub force_suspend : Bool
  pub in_vex : Bool
  pub awakening_from_join : Bool
  pub suspend_flag : Intention
  pub vtf_invocations_since_last_resume : ℤ
  pub waiting_in_native_vtf_code : ℤ
  pub awaken : Bool
  pub simulating_model : Bool
  pub currently_polled_for_whether_it_is_native_waiting : Bool
  pub consecutive_timeslots : ℕ
  pub consecutive_times_found_native_waiting : ℤ
  pub do_not_suspend_until : ℤ

-- The constructor leaves `consecutiveTimesFoundNativeWaiting` uninitialised: it is an argument.
unfoldable pub new_scheduling : ℤ → Scheduling
new_scheduling found = record {
  local_manager_id = 0;
  thread_currently_controlling_manager = none;
  previously_controlling_manager = none;
  force_suspend = true;
  in_vex = false;
  awakening_from_join = false;
  suspend_flag = clear_suspendflag;
  vtf_invocations_since_last_resume = pos 0;
  waiting_in_native_vtf_code = pos 0;
  awaken = false;
  simulating_model = false;
  currently_polled_for_whether_it_is_native_waiting = false;
  consecutive_timeslots = 0;
  consecutive_times_found_native_waiting = found;
  do_not_suspend_until = pos 0;
}

-- `now` is what `Time::getRealTime()` returns.
unfoldable pub is_suspending_allowed : Scheduling → ℤ → Bool
is_suspending_allowed s now = ltb_ℤ s.do_not_suspend_until now

unfoldable pub halt_suspend_for_awhile : Scheduling → ℤ → Scheduling
halt_suspend_for_awhile s now = record s { do_not_suspend_until = now +ℤ pos 3_000_000 }

unfoldable pub notify_scheduler_for_intention : Scheduling → Intention → Scheduling
notify_scheduler_for_intention s i = record s { suspend_flag = i }

unfoldable pub notify_scheduler_that_thread_resumed : Scheduling → Scheduling
notify_scheduler_that_thread_resumed s = record s { suspend_flag = resuming_suspendflag }

read_intention : Intention → Scheduling → Option (Scheduling × Intention)
read_intention clear_suspendflag s = none
read_intention i s = some (record s { suspend_flag = clear_suspendflag }, i)

unfoldable pub get_suspending_thread_intention : Scheduling → Option (Scheduling × Intention)
unfolding read_intention
get_suspending_thread_intention s = read_intention s.suspend_flag s

unfoldable pub wait_for_resuming_thread : Scheduling → Option Scheduling
unfolding read_intention
wait_for_resuming_thread s = elim (read_intention s.suspend_flag s) [
  | none ↦ none
  | some (s', i) ↦ some s'
]

-- `blockHereUntilSignaled`: the flag is cleared, and the wait ends once someone has set it.
unfoldable pub start_blocking : Scheduling → Scheduling
start_blocking s = record s { awaken = false }

unfoldable pub finish_blocking : Scheduling → Option Scheduling
finish_blocking s = if s.awaken then some s else none

unfoldable pub on_thread_resume_by_manager : Scheduling → ℕ → Scheduling
on_thread_resume_by_manager s manager = record s {
  awaken = true;
  vtf_invocations_since_last_resume = pos 0;
  local_manager_id = manager;
  consecutive_timeslots = 0;
}

unfoldable pub set_awaken : Scheduling → Bool → Scheduling
set_awaken s b = record s { awaken = b }

unfoldable pub exiting_vex : Scheduling → Scheduling
exiting_vex s = record s { in_vex = false }

unfoldable pub add_vtf_invocation_point : Scheduling → Scheduling
add_vtf_invocation_point s = record s {
  vtf_invocations_since_last_resume = s.vtf_invocations_since_last_resume +ℤ pos 1;
}

unfoldable pub set_awakening_from_join : Scheduling → Bool → Scheduling
set_awakening_from_join s b = record s { awakening_from_join = b }

unfoldable pub set_thread_currently_controlling_manager : Scheduling → Option ℕ → Scheduling
set_thread_currently_controlling_manager s m = record s { thread_currently_controlling_manager = m }

unfoldable pub release_thread_from_its_controlling_manager : Scheduling → Scheduling
release_thread_from_its_controlling_manager s = record s {
  waiting_in_native_vtf_code = pos 0;
  previously_controlling_manager = s.thread_currently_controlling_manager;
  thread_currently_controlling_manager = none;
  consecutive_times_found_native_waiting = maximum_consecutive_timeslices_as_native_waiting;
}

unfoldable pub start_scheduler_controlled_model_simulation : Scheduling → Scheduling
start_scheduler_controlled_model_simulation s = record s { simulating_model = true }

unfoldable pub block_until_model_simulation_end : Scheduling → Option Scheduling
block_until_model_simulation_end s = if s.simulating_model then none else some s

unfoldable pub notify_model_simulation_end : Scheduling → Scheduling
notify_model_simulation_end s = record s { simulating_model = false }

unfoldable pub get_and_reset_forced_suspend_flag : Scheduling → Scheduling × Bool
get_and_reset_forced_suspend_flag s = (record s { force_suspend = false }, s.force_suspend)

unfoldable pub force_thread_suspend : Scheduling → Scheduling
force_thread_suspend s = record s { force_suspend = true }
