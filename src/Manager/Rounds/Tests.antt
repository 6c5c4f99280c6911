-- ===== src/Manager/Rounds/Tests.antt =====
-- Rounds of a scheduler over two queued threads.
use vexjine.Common.{
  ℕ, zero, suc, Bool, false, some, List, ◌≡◌, ◌≢◌, ◌==◌, refl, inl, [], ◌∷◌, count, pos, arith,
  if◌then◌else◌,
}
use vexjine.Threads.Samples.{thread_at}
use vexjine.Threads.State.{is_suspended}
use vexjine.Threads.Timers
use vexjine.Threads.Timers.Waiting
use vexjine.Queue.Heap.Sorted.{sorted_heap}
use vexjine.Queue.Priority
use vexjine.Queue.Thread.{get_next_if_equals_else_return_top}
use vexjine.Timeline.Virtual
use vexjine.Timeline.Virtual.{VirtualTimeline}
use vexjine.Timeline.Controllers.Single
use vexjine.Timeline.Controllers.Single.{single_controller}
use vexjine.Manager.Rounds.{Scheduler, thread_manager_methods}
use vexjine.Manager.Rounds.Samples.{calm, idle_scheduler}
use vexjine.Manager.Rounds.Choice.{
  Others, done, out_of_fuel, continue_thread, go_on_with, suspend_running_resume_next,
}
use vexjine.Manager.Rounds.Kept.{OnlyStamps, Kept, thread_manager-Keeps}
use vexjine.Manager.Rounds.Progress.{disturbed, settles, round-Kept, round-ends}

-- Thread 1 at time 4 and thread 2 at time 9, both suspended.
abbrev two_suspended : Scheduler VirtualTimeline
two_suspended =
    idle_scheduler Virtual.reset (λ t. if t == 1 then thread_at 1 (pos 4) else thread_at t (pos 9))
      (1 ∷ 2 ∷ []) 0

single-OnlyStamps : OnlyStamps single_controller
unfolding Single.update_resuming_suspended_thread_resumed_last_timestamp
    Single.commit_timed_waiting_progress Single.update_interrupted_waiting_thread_timestamp
    Timers.update_times_after_resuming Timers.set_estimated_real_time
    Waiting.update_waiting_time_from
single-OnlyStamps = record {
  resumed = λ v s now. (refl, refl);
  committed = λ v s. (refl, ground arith);
  interrupted = λ v s time. (refl, refl);
}

-- Another manager pushes thread 3, which is at time 9 too.
abbrev pushes_3 : Others
pushes_3 q = record q { queue = 1 ∷ 2 ∷ 3 ∷ [] }

-- Another manager takes thread 1.
abbrev takes_1 : Others
takes_1 q = record q { queue = 2 ∷ [] }

round-Kept_example :
    (g' : Scheduler VirtualTimeline) × ((suspend_running_resume_next sorted_heap single_controller
          calm
          (thread_manager_methods sorted_heap single_controller calm)
          (pushes_3 ∷ [])
          two_suspended
        ≡ done g')
      × Kept sorted_heap (disturbed two_suspended pushes_3) 1 g')
unfolding count Priority.top is_suspended
round-Kept_example =
    round-Kept sorted_heap single_controller calm
      (thread_manager_methods sorted_heap single_controller calm) single-OnlyStamps
      (thread_manager-Keeps sorted_heap single_controller calm single-OnlyStamps) pushes_3 []
      two_suspended 1 refl refl ((omega arith, (omega arith, tt)), ((omega arith, tt), (tt, tt)))
      refl refl (inl refl)

abbrev leads_1 : List ℕ → Bool
leads_1 [] = false
leads_1 (t ∷ ts) = t == 1

-- Another manager lets the two threads change places before every access.
abbrev swaps : Others
swaps q = record q { queue = if leads_1 q.queue then 2 ∷ 1 ∷ [] else 1 ∷ 2 ∷ [] }

abbrev swapped : ℕ → List Others
swapped zero = []
swapped (suc n) = swaps ∷ swaps ∷ swapped n

-- Then the round goes on as long as this does: without peace it need not end.
swapped-goes_on :
    (n : ℕ)
    → continue_thread sorted_heap single_controller calm
        (thread_manager_methods sorted_heap single_controller calm)
        (swapped n)
        two_suspended
        (some 1)
      ≡ out_of_fuel
unfolding continue_thread go_on_with get_next_if_equals_else_return_top Priority.top
swapped-goes_on zero = refl
swapped-goes_on (suc n) = swapped-goes_on n

round-ends_example :
    suspend_running_resume_next sorted_heap single_controller calm
      (thread_manager_methods sorted_heap single_controller calm)
      (settles (takes_1 ∷ pushes_3 ∷ []) [])
      two_suspended
    ≢ out_of_fuel
round-ends_example =
    round-ends sorted_heap single_controller calm
      (thread_manager_methods sorted_heap single_controller calm) (takes_1 ∷ pushes_3 ∷ []) []
      two_suspended
