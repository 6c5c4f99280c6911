-- ===== src/Manager/Rounds/Choice.antt =====
-- ThreadManager.cpp: what a round does with the thread on top of the queue, and the round itself.
use vexjine.Common.{
  ℕ, ◌>>=◌, Bool, true, false, not, ◌&&◌, ◌||◌, Option, none, some, List, [], ◌∷◌, ℤ, pos, negsuc,
  eqb_ℤ, if◌then◌else◌,
}
use vexjine.Threads.Code.{eq_code, in_model}
use vexjine.Threads.Timers.{update_cpu_time_adding_simulated_virtual_time}
use vexjine.Threads.Timers.Waiting.{set_timeout}
use vexjine.Threads.Scheduling
use vexjine.Threads.Scheduling.{
  Intention, clear_suspendflag, to_be_suspended, to_keep_on_running, to_be_disregarded,
  resuming_suspendflag,
}
use vexjine.Threads.State.{
  VexThreadState, is_suspended, is_running, in_io_learning_phase, in_io_prediction_phase,
  is_timed_waiting, is_model_timed_waiting, is_simulating_model,
  is_waiting_real_code_to_complete_after_model_simulation, wait_for_real_code_to_complete,
}
use vexjine.Queue.Heap.{HeapFunctions}
use vexjine.Queue.Thread
use vexjine.Queue.Thread.{ThreadQueue}
use vexjine.Queue.Priority.{top}
use vexjine.Timeline.Controllers.{VirtualTimelineController}
use vexjine.Manager.{thread, set_thread, is_thread}
use vexjine.Manager.Signals.{SchedulingManager, answered, suspend_thread}
use vexjine.Manager.Rounds.{
  Scheduler, Outside, manager_of, with_manager, with_thread, limit_next_timeslice, VirtualMethods,
  push_back_thread, is_valid_to_leap, handle_io_performing_thread, interrupt_timed_waiting_thread,
}

-- The queue is shared: what other managers do to it, and to the threads, before one of this
-- manager's accesses. A run has one for each call of `continueThread`.
abbrev pub Others : Type 0
Others = ThreadQueue → ThreadQueue

abbrev pub undisturbed : Others
undisturbed q = q

-- The end of a round: `failed` is a failed assertion or a signal without an answer, and
-- `out_of_fuel` the end of the given run before that of the round.
pub data Round (A : Type 0) : Type 0 where
  done : A → Round A
  failed : Round A
  out_of_fuel : Round A

abbrev pub from_option : {A : Type 0} → Option A → Round A
from_option none = failed
from_option (some a) = done a

unfoldable pub is_active_in_model : VexThreadState → Bool
unfolding eq_code
is_active_in_model s = eq_code s.current_state in_model

unfoldable pub in_io : VexThreadState → Bool
unfolding in_io_learning_phase in_io_prediction_phase
in_io s = in_io_prediction_phase s || in_io_learning_phase s

is_disregarded : Intention → Bool
is_disregarded to_be_disregarded = true
is_disregarded clear_suspendflag = false
is_disregarded to_be_suspended = false
is_disregarded to_keep_on_running = false
is_disregarded resuming_suspendflag = false

module _ {T : Type 0} (H : HeapFunctions) (c : VirtualTimelineController T) (o : Outside)
    (methods : VirtualMethods T) where
  -- The model runs on the thread's behalf, and the controller commits the time.
  unfoldable pub has_resumed_model_simulation_run_to_completion :
      Scheduler T → ℕ → ℤ → Scheduler T × Bool
  unfolding Scheduling.set_awaken
  has_resumed_model_simulation_run_to_completion g t total =
      let m = manager_of g in
      let s = thread m t in
      let asleep = record s { scheduling = Scheduling.set_awaken s.scheduling false } in
      let (s', finished) = o.resume_model_simulation asleep total in
      let (timeline', s'') = c.commit_model_simulation_progress m.timeline s' in
      (with_manager g (record (set_thread m t s'') { timeline = timeline' }), finished)

  unfoldable pub simulate_model : Scheduler T → ℕ → ℤ → Option (Scheduler T)
  unfolding has_resumed_model_simulation_run_to_completion push_back_thread is_active_in_model
      update_cpu_time_adding_simulated_virtual_time wait_for_real_code_to_complete
      Scheduling.notify_model_simulation_end
  simulate_model g t total =
      let (g', finished) = has_resumed_model_simulation_run_to_completion g t total in
      let s = thread (manager_of g') t in
      let timers' = update_cpu_time_adding_simulated_virtual_time s.timers in
      let waits = wait_for_real_code_to_complete (record s { timers = timers' }) in
      if finished
      then (do
        g'' ← push_back_thread H c o (with_thread g' t waits) t
        let s' = thread (manager_of g'') t
        some (
            with_thread g'' t
              (record s' { scheduling = Scheduling.notify_model_simulation_end s'.scheduling })))
      else if is_active_in_model s
      then push_back_thread H c o g' t
      else some g'

  -- What `resumeModelSimulation` does once the thread may go on.
  run_model : Scheduler T → ℕ → Option (Scheduler T)
  unfolding simulate_model is_active_in_model is_model_timed_waiting
      Scheduling.on_thread_resume_by_manager Scheduling.set_thread_currently_controlling_manager
  run_model g t =
      let m = manager_of g in
      let s = thread m t in
      let controlled =
        Scheduling.set_thread_currently_controlling_manager s.scheduling (some m.manager_id) in
      let awaken = Scheduling.on_thread_resume_by_manager controlled m.manager_id in
      let (timeline', s') =
        c.update_resuming_suspended_thread_resumed_last_timestamp m.timeline
          (record s { scheduling = awaken }) o.real_time in
      let g' = with_manager g (record (set_thread m t s') { timeline = timeline' }) in
      do
        g'' ← simulate_model g' t (o.six_fifths g.group.scheduler_timeslot)
        let s'' = thread (manager_of g'') t
        some (
            if is_active_in_model s'' && not (is_model_timed_waiting s'')
            then methods.after_model g''
            else g'')

  unfoldable pub resume_model_simulation : Scheduler T → ℕ → Option (Scheduler T)
  unfolding is_model_timed_waiting is_valid_to_leap push_back_thread set_timeout run_model
  resume_model_simulation g t =
      let waits = is_model_timed_waiting (thread (manager_of g) t) in
      let (asked, valid) = is_valid_to_leap H c o g t in
      let (timeline', s) =
        c.commit_timed_waiting_progress (manager_of asked).timeline (thread (manager_of asked) t) in
      let timed_out = record s { timers = set_timeout s.timers (negsuc 0) } in
      let (resumed_timeline, resumed) =
        c.update_resuming_suspended_thread_timestamp (manager_of g).timeline
          (thread (manager_of g) t) in
      if waits
      then if valid
        then run_model
            (with_manager asked
              (record (set_thread (manager_of asked) t timed_out) { timeline = timeline' }))
            t
        else push_back_thread H c o asked t
      else run_model
          (with_manager g
            (record (set_thread (manager_of g) t resumed) { timeline = resumed_timeline }))
          t

  -- A thread in the real code of a method that a model describes is signalled for its answer.
  unfoldable pub poll_thread_to_check_if_actually_running : Scheduler T → ℕ → Option (Scheduler T)
  unfolding Scheduling.get_suspending_thread_intention is_disregarded answered
      Thread.set_thread_to_next_biggest_ert Thread.erase
  poll_thread_to_check_if_actually_running g t =
      let m = manager_of g in
      if o.signal_sent t
      then (do
        (scheduling, intention) ← Scheduling.get_suspending_thread_intention (thread m t).scheduling
        let group' = answered g.group t scheduling
        let q = Thread.set_thread_to_next_biggest_ert H group'.manager.runnable_threads t
        let moved = record (group'.manager) { runnable_threads = q }
        some (record g {
          group = if is_disregarded intention then record group' { manager = moved } else group';
        }))
      else some
          (with_manager g (record m { runnable_threads = Thread.erase H m.runnable_threads t }))

  -- What `continueThread` does with a thread that it has got from the queue.
  unfoldable pub handle : Scheduler T → ℕ → Option (Scheduler T)
  unfolding is_suspended in_io is_timed_waiting is_simulating_model is_running
      is_waiting_real_code_to_complete_after_model_simulation push_back_thread
      handle_io_performing_thread interrupt_timed_waiting_thread resume_model_simulation
      poll_thread_to_check_if_actually_running
  handle g t =
      let s = thread (manager_of g) t in
      if is_suspended s
      then if s.timed_out
          || (not (eqb_ℤ s.timers.timeout (pos 0)) && not s.after_interrupted_timed_parking)
        then methods.resume g t
        else push_back_thread H c o g t
      else if in_io s
      then handle_io_performing_thread H c o g t
      else if is_timed_waiting s
      then interrupt_timed_waiting_thread H c o methods g t
      else if is_simulating_model s
      then resume_model_simulation g t
      else if is_waiting_real_code_to_complete_after_model_simulation s
      then poll_thread_to_check_if_actually_running g t
      else if is_running s
      then none
      else some g

  -- What the queue has answered for the thread: the thread itself, or what the round goes on with.
  unfoldable pub go_on_with :
      (Scheduler T → Option ℕ → Round (Scheduler T))
      → Scheduler T
      → ℕ
      → ThreadQueue × Option ℕ
      → Round (Scheduler T)
  unfolding is_thread
  go_on_with again g t (q, next) =
      let g' = with_manager g (record (manager_of g) { runnable_threads = q }) in
      let other = again g' next in if is_thread next t then from_option (handle g' t) else other

  -- The thread was on top when it was looked at; others may have changed the queue since.
  unfoldable pub continue_thread : List Others → Scheduler T → Option ℕ → Round (Scheduler T)
  unfolding limit_next_timeslice go_on_with
  continue_thread [] g state = out_of_fuel
  continue_thread (act ∷ acts) g none = done (limit_next_timeslice g o)
  continue_thread (act ∷ acts) g (some t) =
      let m = manager_of g in
      go_on_with (continue_thread acts) g t
        (Thread.get_next_if_equals_else_return_top H (act m.runnable_threads) t m.manager_id)

  -- By the answer of the thread that ran.
  unfoldable pub resume_next :
      List Others → Scheduler T → Option (SchedulingManager T × Bool) → Round (Scheduler T)
  unfolding continue_thread
  resume_next acts g none = failed
  resume_next acts g (some (group', suspended)) =
      let g' = record g { group = group' } in
      let next = continue_thread acts g' (top (manager_of g').runnable_threads.queue) in
      if suspended then next else done g'

  -- By the thread that runs when the round begins.
  unfoldable pub round_from : List Others → Scheduler T → Option ℕ → Round (Scheduler T)
  unfolding suspend_thread continue_thread resume_next
  round_from acts g none = continue_thread acts g (top (manager_of g).runnable_threads.queue)
  round_from acts g (some r) = resume_next acts g (suspend_thread H g.group r (o.signal_sent r))

  unfoldable pub suspend_running_resume_next : List Others → Scheduler T → Round (Scheduler T)
  unfolding round_from
  suspend_running_resume_next acts g = round_from acts g (manager_of g).running_thread
