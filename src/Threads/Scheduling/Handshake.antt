-- ===== src/Threads/Scheduling/Handshake.antt =====
-- The intention flag as a one-place channel between a signalled thread and its scheduler.
use vexjine.Common.{◌≡◌, ◌≢◌, refl, none, some, arith}
use vexjine.Threads.Scheduling.{
  Scheduling, Intention, clear_suspendflag, notify_scheduler_for_intention,
  get_suspending_thread_intention,
}

-- A scheduler that reads after a thread has answered gets the last answer, once: the next read
-- waits until there is another answer, and nothing but the flag has changed.
pub intention-notify :
    (s : Scheduling) (i : Intention)
    → i ≢ clear_suspendflag
    → (s' : Scheduling) × (get_suspending_thread_intention (notify_scheduler_for_intention s i)
        ≡ some (s', i))
      × (get_suspending_thread_intention s' ≡ none)
      × (s' ≡ record s { suspend_flag = clear_suspendflag })
unfolding get_suspending_thread_intention notify_scheduler_for_intention
intention-notify s i h = (record s { suspend_flag = clear_suspendflag }, ground arith, refl, refl)
