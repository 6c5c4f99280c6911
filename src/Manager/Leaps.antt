-- ===== src/Manager/Leaps.antt =====
-- ThreadManager.cpp: may virtual time leap to a thread of the queue? When another thread may be
-- alive, a manager remembers the sum of the threads' times and asks again 200 ms later.
-- What the operating system says of the waiting threads, and `Time::getRealTime()`, are arguments.
pub mod Unmoved
use vexjine.Common.{
  ℕ, ◌==◌, Bool, true, false, not, ◌&&◌, some, ℤ, pos, ◌-ℤ◌, ltb_ℤ, eqb_ℤ, if◌then◌else◌,
}
use vexjine.Registries.Threads.{ThreadRegistry}
use vexjine.Registries.Threads.Activity.{
  Activity, at_least_one_alive, maybe_one_alive, none_alive,
  are_any_other_threads_active_in_former_time, get_summed_ert_of_all_threads,
}
use vexjine.Timeline.Controllers.{VirtualTimelineController}

-- What the manager remembers between two calls.
pub record LeapMemory : Type 0 where
  pub last_total_thread_ert : ℤ
  pub last_global_virtual_time : ℤ

abbrev pub new_leap_memory : LeapMemory
new_leap_memory = record { last_total_thread_ert = pos 0; last_global_virtual_time = pos 0 }

-- What a call reads: its argument is the pointer `state`.
pub record LeapCall (T : Type 0) : Type 0 where
  pub timeline : T
  pub thread_registry : ThreadRegistry
  pub state : ℕ
  pub waiting_in_real_time : Bool
  pub pending_notifications : ℕ
  pub all_native_waiting_blocked : Bool
  pub real_time : ℤ

-- The branch of a thread that may be alive: the sum of all times, and whether the system says that
-- all native waiting threads are blocked.
unfoldable pub poll_progress : LeapMemory → ℤ → Bool → ℤ → LeapMemory × Bool
poll_progress p summed blocked now =
    if eqb_ℤ p.last_total_thread_ert (pos 0)
    then (record { last_total_thread_ert = summed; last_global_virtual_time = now }, false)
    else if ltb_ℤ (now -ℤ p.last_global_virtual_time) (pos 200_000_000)
    then (p, false)
    else (
      record p { last_total_thread_ert = pos 0 },
      eqb_ℤ summed p.last_total_thread_ert && blocked,
    )

-- By what the registry answers on the other threads.
unfoldable pub leap_by_activity : LeapMemory → Activity → ℤ → Bool → ℤ → LeapMemory × Bool
unfolding poll_progress
leap_by_activity p at_least_one_alive summed blocked now =
    (record p { last_total_thread_ert = pos 0 }, false)
leap_by_activity p maybe_one_alive summed blocked now = poll_progress p summed blocked now
leap_by_activity p none_alive summed blocked now = (p, true)

module _ {T : Type 0} (c : VirtualTimelineController T) where
  unfoldable pub is_valid_to_leap_in_virtual_time_to : LeapMemory → LeapCall T → LeapMemory × Bool
  unfolding leap_by_activity are_any_other_threads_active_in_former_time
      get_summed_ert_of_all_threads
  is_valid_to_leap_in_virtual_time_to p k =
      let r = k.thread_registry in
      let remaining =
        c.get_how_far_ahead_in_virtual_time_the_thread_is k.timeline (r.threads k.state) in
      let activity = are_any_other_threads_active_in_former_time r k.state (some remaining) in
      if k.waiting_in_real_time
      then (p, false)
      else if ltb_ℤ remaining (pos 0)
      then (p, true)
      else if k.pending_notifications == 0
      then leap_by_activity p activity (get_summed_ert_of_all_threads r)
          k.all_native_waiting_blocked k.real_time
      else (record p { last_total_thread_ert = pos 0 }, false)
