-- ===== src/Manager.antt =====
-- src/vex/scheduler/ThreadManager.cpp: how a manager moves threads between running, waiting and the
-- queue of runnable threads. Waking up the scheduler's own thread is left out, and with it the
-- choice of the thread that it resumes. The spin lock on the running thread makes each operation on
-- it one step; a NULL thread, which every operation ignores, is left out.
pub mod Interrupts
pub mod Running
pub mod Signals
pub mod Leaps
pub mod Rounds
pub mod Strict
pub mod Loose
mod Tests
use vexjine.Common.{
  ℕ, ◌==◌, Bool, true, false, not, ◌&&◌, Option, none, some, ℤ, pos, negsuc, eqb_ℤ, put,
  if◌then◌else◌,
}
use vexjine.Threads.Timers.Waiting.{set_timeout}
use vexjine.Threads.Scheduling
use vexjine.Threads.State.{VexThreadState}
use vexjine.Threads.State
use vexjine.Threads.State.Waiting.{
  before_thread_interrupt_at, set_io_and_check_if_operation_should_block,
}
use vexjine.Registries.Object.{ObjectRegistry}
use vexjine.Queue.Heap.{HeapFunctions}
use vexjine.Queue.Thread
use vexjine.Queue.Thread.{ThreadQueue}
use vexjine.Timeline.Controllers.{VirtualTimelineController}

pub record ThreadManager (T : Type 0) : Type 0 where
  pub manager_id : ℕ
  pub runnable_threads : ThreadQueue
  pub running_thread : Option ℕ
  pub last_suspended : Option ℕ
  pub timeline : T
  pub object_registry : Option ObjectRegistry

unfoldable pub is_thread : Option ℕ → ℕ → Bool
is_thread none t = false
is_thread (some r) t = r == t

-- A thread that waits for ever (0) or has no place in the queue (-2) is not queued.
unfoldable pub is_queued_timeout : ℤ → Bool
is_queued_timeout timeout = not (eqb_ℤ timeout (pos 0)) && not (eqb_ℤ timeout (negsuc 1))

module _ {T : Type 0} where
  abbrev pub thread : ThreadManager T → ℕ → VexThreadState
  thread m t = m.runnable_threads.threads t

  abbrev pub set_thread : ThreadManager T → ℕ → VexThreadState → ThreadManager T
  set_thread m t s = record m {
    runnable_threads = record (m.runnable_threads) { threads = put m.runnable_threads.threads t s };
  }

  unfoldable pub another_thread_already_set_running : ThreadManager T → ℕ → Bool
  unfolding is_thread
  another_thread_already_set_running m t = elim m.running_thread [
    | none ↦ false
    | some r ↦ not (r == t)
  ]

  unfoldable pub change_thread_state_to_running : ThreadManager T → ℕ → ThreadManager T × Bool
  unfolding another_thread_already_set_running State.set_running
      Scheduling.set_thread_currently_controlling_manager
  change_thread_state_to_running m t =
      let s = State.set_running (thread m t) in
      let controlled =
        Scheduling.set_thread_currently_controlling_manager s.scheduling (some m.manager_id) in
      if another_thread_already_set_running m t then (m, false) else (
        record (set_thread m t (record s { scheduling = controlled })) { running_thread = some t },
        true,
      )

  unfoldable pub unset_current_thread_from_running_thread : ThreadManager T → ℕ → ThreadManager T
  unfolding is_thread
  unset_current_thread_from_running_thread m t =
      if is_thread m.running_thread t then record m { running_thread = none } else m

  unfoldable pub set_waiting_thread : ThreadManager T → ℕ → ThreadManager T
  unfolding unset_current_thread_from_running_thread State.set_waiting
  set_waiting_thread m t =
      let m' = unset_current_thread_from_running_thread m t in
      set_thread m' t (State.set_waiting (thread m' t))

  unfoldable pub set_system_call_thread : ThreadManager T → ℕ → ThreadManager T
  unfolding State.set_in_system_call
  set_system_call_thread m t = set_thread m t (State.set_in_system_call (thread m t))

  module _ (H : HeapFunctions) where
    -- `none` is the failed assertion of the queue's `push`.
    unfoldable pub push_into_runnable_queue : ThreadManager T → ℕ → Option (ThreadManager T)
    unfolding Thread.push
    push_into_runnable_queue m t = elim (Thread.push H m.runnable_threads t) [
      | none ↦ none
      | some q ↦ some (record m { runnable_threads = q })
    ]

    unfoldable pub update_runnable_queue : ThreadManager T → ThreadManager T
    unfolding Thread.update
    update_runnable_queue m = record m { runnable_threads = Thread.update H m.runnable_threads }

    unfoldable pub set_suspended_and_push_to_runnables :
        ThreadManager T → ℕ → Option (ThreadManager T)
    unfolding unset_current_thread_from_running_thread State.set_suspended set_timeout
        push_into_runnable_queue
    set_suspended_and_push_to_runnables m t =
        let m' = unset_current_thread_from_running_thread m t in
        let s = State.set_suspended (thread m' t) in
        let s' = record s { timed_out = true; timers = set_timeout s.timers (negsuc 0) } in
        push_into_runnable_queue (set_thread m' t s') t

    unfoldable pub set_timed_waiting_thread : ThreadManager T → ℕ → Option (ThreadManager T)
    unfolding set_waiting_thread push_into_runnable_queue
    set_timed_waiting_thread m t = push_into_runnable_queue (set_waiting_thread m t) t

    unfoldable pub set_io_thread : ThreadManager T → ℕ → Bool → Option (ThreadManager T)
    unfolding unset_current_thread_from_running_thread set_io_and_check_if_operation_should_block
        push_into_runnable_queue
    set_io_thread m t learning =
        let m' = unset_current_thread_from_running_thread m t in
        let (s, blocks) = set_io_and_check_if_operation_should_block (thread m' t) learning in
        let m'' = set_thread m' t s in if blocks then push_into_runnable_queue m'' t else some m''

    unfoldable pub set_suspended : ThreadManager T → ℕ → Option (ThreadManager T)
    unfolding unset_current_thread_from_running_thread State.set_suspended push_into_runnable_queue
    set_suspended m t =
        let m' =
          unset_current_thread_from_running_thread (record m { last_suspended = m.running_thread })
            t in
        push_into_runnable_queue (set_thread m' t (State.set_suspended (thread m' t))) t

    -- An interrupt of a thread whose waiting the framework has replaced.
    unfoldable pub on_any_replaced_waiting_interrupt :
        VirtualTimelineController T → ThreadManager T → ℕ → ℤ → Option (ThreadManager T)
    unfolding before_thread_interrupt_at is_queued_timeout update_runnable_queue
        push_into_runnable_queue
    on_any_replaced_waiting_interrupt c m t interruption_time =
        let (timeline', s) =
          c.update_interrupted_waiting_thread_timestamp m.timeline (thread m t) interruption_time in
        let (s', registry) = before_thread_interrupt_at s m.object_registry in
        let m' = record (set_thread m t s') { timeline = timeline'; object_registry = registry } in
        if is_queued_timeout s.timers.timeout
        then some (update_runnable_queue m')
        else push_into_runnable_queue m' t
