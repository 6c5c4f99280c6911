-- ===== src/Manager/Strict/Outcome.antt =====
-- StrictParallelThreadManager::resumeThread: when a thread goes on, and when it is held back.
use vexjine.Common.{
  ℕ, suc, ◌≡◌, refl, inl, inr, Bool, Bool-cases, true, false, not, ◌&&◌, some, count, ltb_ℤ,
  ==_refl,
}
use vexjine.Queue.Heap.{HeapFunctions}
use vexjine.Queue.Thread.Laws.{Ordered, push-Ordered}
use vexjine.Queue.Thread.Expiry.{put-Ordered}
use vexjine.Timeline.Controllers.{VirtualTimelineController}
use vexjine.Manager.{push_into_runnable_queue, thread}
use vexjine.Manager.Rounds.{
  Scheduler, Outside, manager_of, with_manager, with_thread, push_back_thread, is_valid_to_leap,
  limit_next_timeslice,
}
use vexjine.Manager.Rounds.Kept.{queue_of, Awake, Kept, Keeps, not_added, added_once}
use vexjine.Manager.Strict.{
  with_timeline, is_thread_too_far_ahead_in_virtual_time, resume_as_controller, resume_disabled,
  resume_far_ahead, resume_thread, strict_methods,
}

-- What resuming a thread comes to: it is held back and counted, or let go. `blocked` threads have
-- been held back before.
pub data Resumed {T : Type 0} (blocked t : ℕ) (g' : Scheduler T) : Bool → Type 0 where
  held_back :
      count t (queue_of g').queue ≡ 1 → g'.blocked_by_ert ≡ suc blocked → Resumed blocked t g' true
  let_go :
      count t (queue_of g').queue ≡ 0
      → Awake g' t
      → g'.blocked_by_ert ≡ blocked
      → Resumed blocked t g' false

-- A controller whose calls to disable a core return.
abbrev pub Disables : {T : Type 0} → VirtualTimelineController T → Type 0
Disables {T} c = (v : T) → (v' : T) × ((b : Bool) × (c.disable_core v ≡ some (v', b)))

module _ {T : Type 0} (H : HeapFunctions) (c : VirtualTimelineController T) (o : Outside) where
  -- More than a timeslot ahead, not allowed to leap, and other cores are active.
  abbrev pub is_held_back : Scheduler T → ℕ → Bool → Bool
  is_held_back g t everyone_disabled =
      ltb_ℤ g.group.scheduler_timeslot (
        c.get_how_far_ahead_in_virtual_time_the_thread_is (manager_of g).timeline
          (thread (manager_of g) t))
      && (not (is_valid_to_leap H c o g t).1 && not everyone_disabled)

  -- A thread that no queue holds, and what becomes of it.
  abbrev pub Ends : Scheduler T → ℕ → Bool → Scheduler T → Type 0
  Ends g t held g' = Kept H g t g' × Resumed g.blocked_by_ert t g' held

  resume_as_controller-Ends :
      (g : Scheduler T) (t : ℕ)
      → Ordered H (queue_of g)
      → count t (queue_of g).queue ≡ 0
      → Ends g t false (resume_as_controller H c o g t)
  unfolding resume_as_controller
  resume_as_controller-Ends g t order out =
      let awake : Awake (resume_as_controller H c o g t) t =
        (rw (==_refl t) refl, rw (==_refl t) refl) in
      (
        (put-Ordered H (queue_of g) t _ out order, ((λ u n. refl), inr (out, awake))),
        let_go out awake refl,
      )

  -- The queue takes a thread that it does not hold.
  held_back-Ends :
      (g : Scheduler T) (t : ℕ)
      → Ordered H (queue_of g)
      → count t (queue_of g).queue ≡ 0
      → (g' : Scheduler T) × ((resume_disabled H c o g t false ≡ some g') × Ends g t true g')
  unfolding resume_disabled push_back_thread push_into_runnable_queue limit_next_timeslice
  held_back-Ends g t order out =
      let (q', (e, (threads, (added, order')))) = push-Ordered H (queue_of g) t order out in
      let pushed = with_manager g (record (manager_of g) { runnable_threads = q' }) in
      let once = added_once (count t (queue_of g).queue) t out (added t) in
      (
        limit_next_timeslice (record pushed { blocked_by_ert = suc g.blocked_by_ert }) o,
        (
          rw (e, push_back_thread, push_into_runnable_queue) refl,
          (
            (order', ((λ u n. not_added (count u (queue_of g).queue) t u n (added u)), inl once)),
            held_back once refl,
          ),
        ),
      )

  resume_disabled-Ends :
      (g : Scheduler T) (t : ℕ) (everyone_disabled : Bool)
      → Ordered H (queue_of g)
      → count t (queue_of g).queue ≡ 0
      → (g' : Scheduler T) × ((resume_disabled H c o g t everyone_disabled ≡ some g')
          × Ends g t (not everyone_disabled) g')
  unfolding resume_disabled
  resume_disabled-Ends g t false order out = held_back-Ends g t order out
  resume_disabled-Ends g t true order out =
      let (timeline', s) =
        c.update_resuming_suspended_thread_timestamp (manager_of g).timeline
          (thread (manager_of g) t) in
      let stamped = with_thread (with_timeline g timeline') t s in
      (
        resume_as_controller H c o stamped t,
        (refl, resume_as_controller-Ends stamped t (put-Ordered H (queue_of g) t s out order) out),
      )

  -- When a strict manager resumes a thread that no queue holds, and the controller can disable its
  -- core, the thread is held back, if it is more than a timeslot ahead of the global time, may not
  -- leap, and some other core is active: it is then queued, once, and counted. Otherwise it is
  -- awake, under the manager's control and in no queue. The queue stays in order, and holds the
  -- other threads as before.
  pub resume_thread-Resumed :
      (g : Scheduler T) (t : ℕ) (timeline' : T) (everyone_disabled : Bool)
      → c.disable_core (manager_of g).timeline ≡ some (timeline', everyone_disabled)
      → Ordered H (queue_of g)
      → count t (queue_of g).queue ≡ 0
      → (g' : Scheduler T) × ((resume_thread H c o g t ≡ some g')
          × Ends g t (is_held_back g t everyone_disabled) g')
  unfolding resume_thread resume_far_ahead is_valid_to_leap is_thread_too_far_ahead_in_virtual_time
  resume_thread-Resumed g t timeline' everyone_disabled disabled order out =
      let (asked, valid) = is_valid_to_leap H c o g t in
      let (g', (e, ends)) =
        resume_disabled-Ends (with_timeline asked timeline') t everyone_disabled order out in
      elim (Bool-cases (is_thread_too_far_ahead_in_virtual_time H c o g t)) [
        | inr near ↦ (
          resume_as_controller H c o g t,
          (rw near refl, rw near (resume_as_controller-Ends g t order out)),
        )
        | inl far ↦ elim (Bool-cases valid) [
          | inl leaps ↦ (
            resume_as_controller H c o asked t,
            (rw (far, leaps) refl, rw (far, leaps) (resume_as_controller-Ends asked t order out)),
          )
          | inr stays ↦ (g', (rw (far, stays, disabled) e, rw (far, stays) ends))
        ]
      ]

  pub strict-Keeps : Disables c → Keeps H (strict_methods H c o)
  strict-Keeps disables g t order out =
      let (v', (b, e)) = disables (manager_of g).timeline in
      let (g', (resumed, (kept, _))) = resume_thread-Resumed g t v' b e order out in
      (g', (resumed, kept))
