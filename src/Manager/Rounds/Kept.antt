-- ===== src/Manager/Rounds/Kept.antt =====
-- No thread that a round takes from the queue is lost.
use vexjine.Common.{
  ℕ, suc, ◌+◌, ◌==◌, ◌≡◌, ◌⊎◌, inl, inr, refl, ap, sym, ◌∙◌, subst, Bool, Bool-cases, true, false,
  not, ◌&&◌, ◌||◌, some, count, ℤ, pos, eqb_ℤ, ltb_ℤ, if◌then◌else◌, arith, ==_refl,
}
use vexjine.Threads.Scheduling.{on_thread_resume_by_manager}
use vexjine.Threads.State.{
  set_logged_only, VexThreadState, is_suspended, is_timed_waiting, in_io_learning_phase,
  in_io_prediction_phase,
}
use vexjine.Threads.Code.{custom3, eq_code, ordinal}
use vexjine.Manager.Interrupts.{changed}
use vexjine.Queue.Heap.{HeapFunctions}
use vexjine.Queue.Thread.{ThreadQueue}
use vexjine.Queue.Thread.Laws.{Ordered, push-Ordered, update-erase-Ordered}
use vexjine.Queue.Thread.Expiry.{put-Ordered}
use vexjine.Timeline.Controllers.{VirtualTimelineController}
use vexjine.Manager.{
  ThreadManager, thread, set_thread, is_queued_timeout, push_into_runnable_queue,
  update_runnable_queue, on_any_replaced_waiting_interrupt,
}
use vexjine.Manager.Rounds.{
  Scheduler, Outside, manager_of, with_manager, with_thread, push_back_thread, resume_thread,
  is_valid_to_leap, interrupt_timed_waiting_thread, VirtualMethods, thread_manager_methods,
}
use vexjine.Manager.Rounds.Choice.{handle, in_io}

-- The timestamps of a thread may have changed, and neither its scheduling nor its timeout.
abbrev pub Stamped : VexThreadState → VexThreadState → Type 0
Stamped s s' = (s'.scheduling ≡ s.scheduling) × (s'.timers.timeout ≡ s.timers.timeout)

pub not_added : {k : ℕ} (n t u : ℕ) → (t == u) ≡ false → k ≡ n + (if t == u then 1 else 0) → k ≡ n
not_added n t u e h = ground arith

pub added_once : {k : ℕ} (n t : ℕ) → n ≡ 0 → k ≡ n + (if t == t then 1 else 0) → k ≡ 1
added_once n t e h = ground arith

module _ {T : Type 0} where
  -- What the rounds need of a controller.
  pub record OnlyStamps (c : VirtualTimelineController T) : Type 0 where
    pub resumed :
        (v : T) (s : VexThreadState) (now : ℤ)
        → Stamped s (c.update_resuming_suspended_thread_resumed_last_timestamp v s now).1
    pub committed : (v : T) (s : VexThreadState) → Stamped s (c.commit_timed_waiting_progress v s).1
    pub interrupted :
        (v : T) (s : VexThreadState) (time : ℤ)
        → Stamped s (c.update_interrupted_waiting_thread_timestamp v s time).1

  abbrev pub queue_of : Scheduler T → ThreadQueue
  queue_of g = (manager_of g).runnable_threads

  -- The thread has been woken up by the manager, which controls it.
  abbrev pub Awake : Scheduler T → ℕ → Type 0
  Awake g t =
      ((thread (manager_of g) t).scheduling.awaken ≡ true)
      × ((thread (manager_of g) t).scheduling.thread_currently_controlling_manager
          ≡ some (manager_of g).manager_id)

queued_positive : (z : ℤ) → ltb_ℤ (pos 0) z ≡ true → is_queued_timeout z ≡ true
unfolding is_queued_timeout
queued_positive z h = ground arith

timed_waiting-states :
    (s : VexThreadState)
    → is_timed_waiting s ≡ true
    → (is_suspended s ≡ false) × ((in_io s ≡ false) × (ltb_ℤ (pos 0) s.timers.timeout ≡ true))
unfolding is_timed_waiting is_suspended in_io in_io_prediction_phase in_io_learning_phase eq_code
    ordinal
timed_waiting-states s h = ground arith

-- A suspended thread that is to go on.
abbrev goes_on : VexThreadState → Bool
goes_on s =
    s.timed_out || (not (eqb_ℤ s.timers.timeout (pos 0)) && not s.after_interrupted_timed_parking)

module _ {T : Type 0} (H : HeapFunctions) where
  -- The thread is queued once or awake, and the other threads are queued as before.
  abbrev pub Kept : Scheduler T → ℕ → Scheduler T → Type 0
  Kept g t g' =
      Ordered H (queue_of g')
      × (((u : ℕ) → (t == u) ≡ false → count u (queue_of g').queue ≡ count u (queue_of g).queue)
          × ((count t (queue_of g').queue ≡ 1) ⊎ ((count t (queue_of g').queue ≡ 0) × Awake g' t)))

  -- The class of the manager loses no thread that it is to resume.
  abbrev pub Keeps : VirtualMethods T → Type 0
  Keeps methods =
      (g : Scheduler T) (t : ℕ)
      → Ordered H (queue_of g)
      → count t (queue_of g).queue ≡ 0
      → (g' : Scheduler T) × ((methods.resume g t ≡ some g') × Kept g t g')

  module _ (c : VirtualTimelineController T) (o : Outside) (only : OnlyStamps c) where
    resume_thread-Kept :
        (g : Scheduler T) (t : ℕ)
        → Ordered H (queue_of g)
        → count t (queue_of g).queue ≡ 0
        → Kept g t (resume_thread H c o g t)
    unfolding resume_thread
    resume_thread-Kept g t order out =
        let m = manager_of g in
        let s = thread m t in
        let stamped =
          only.resumed m.timeline
            (record s { scheduling = on_thread_resume_by_manager s.scheduling m.manager_id })
            o.real_time in
        (
          put-Ordered H (queue_of g) t _ out order,
          (
            λ u n. refl,
            inr (out, (rw (==_refl t) (ap (λ z. z.awaken) stamped.0), rw (==_refl t) refl)),
          ),
        )

    push_back-Kept :
        (g : Scheduler T) (t : ℕ)
        → Ordered H (queue_of g)
        → count t (queue_of g).queue ≡ 0
        → (g' : Scheduler T) × ((push_back_thread H c o g t ≡ some g') × Kept g t g')
    unfolding push_back_thread push_into_runnable_queue
    push_back-Kept g t order out =
        let (q', (e, (threads, (added, order')))) = push-Ordered H (queue_of g) t order out in
        (
          with_manager g (record (manager_of g) { runnable_threads = q' }),
          (
            rw (e, push_back_thread, push_into_runnable_queue) refl,
            (
              order',
              (
                λ u n. not_added (count u (queue_of g).queue) t u n (added u),
                inl (added_once (count t (queue_of g).queue) t out (added t)),
              ),
            ),
          ),
        )

    pub thread_manager-Keeps : Keeps (thread_manager_methods H c o)
    thread_manager-Keeps g t order out =
        (resume_thread H c o g t, (refl, resume_thread-Kept g t order out))

    -- A suspended thread is resumed or waits on, by its flags.
    pub suspended-Kept :
        (methods : VirtualMethods T)
        → Keeps methods
        → (g : Scheduler T) (t : ℕ) → Ordered H (queue_of g)
        → count t (queue_of g).queue ≡ 0
        → is_suspended (thread (manager_of g) t) ≡ true
        → (g' : Scheduler T) × ((handle H c o methods g t ≡ some g') × Kept g t g')
    unfolding handle
    suspended-Kept methods keeps g t order out susp =
        let s = thread (manager_of g) t in
        let (g', (e, kept)) = push_back-Kept g t order out in
        let (h, (resumed, kept')) = keeps g t order out in
        elim (Bool-cases (goes_on s)) [
          | inl y ↦ (h, (rw (susp, y) resumed, kept'))
          | inr n ↦ (g', (rw (susp, n) e, kept))
        ]

    Kept-from :
        (g g' g'' : Scheduler T) (t : ℕ)
        → ((u : ℕ) → count u (queue_of g').queue ≡ count u (queue_of g).queue)
        → Kept g' t g''
        → Kept g t g''
    Kept-from g g' g'' t same (order, (others, mine)) = (order, (λ u n. others u n ∙ same u, mine))

    -- The interrupt of a thread that the queue does not hold.
    interrupt-updates :
        (m : ThreadManager T) (t : ℕ) (time : ℤ)
        → ltb_ℤ (pos 0) (thread m t).timers.timeout ≡ true
        → on_any_replaced_waiting_interrupt H c m t time
          ≡ some (update_runnable_queue H (changed H c m t time))
    unfolding on_any_replaced_waiting_interrupt
    interrupt-updates m t time h =
        rw
          (
            ap is_queued_timeout (only.interrupted m.timeline (thread m t) time).1
                ∙ queued_positive (thread m t).timers.timeout h,
            on_any_replaced_waiting_interrupt,
          )
          refl

    -- The manager once the waiting time is committed, with its timeline.
    abbrev committed_manager : ThreadManager T → ℕ → ThreadManager T
    committed_manager m t =
        let (timeline', s) = c.commit_timed_waiting_progress m.timeline (thread m t) in
        record (set_thread m t s) { timeline = timeline' }

    committed-timeout :
        (m : ThreadManager T) (t : ℕ)
        → ltb_ℤ (pos 0) (thread m t).timers.timeout ≡ true
        → ltb_ℤ (pos 0) (thread (committed_manager m t) t).timers.timeout ≡ true
    committed-timeout m t h =
        rw (==_refl t)
          (subst (λ z. ltb_ℤ (pos 0) z ≡ true) (sym (only.committed m.timeline (thread m t)).1) h)

    -- The scheduler before it resumes the thread.
    abbrev woken : Scheduler T → ℕ → Scheduler T
    woken g t =
        let m =
          update_runnable_queue H (changed H c (committed_manager (manager_of g) t) t (pos 0)) in
        record (with_thread (with_manager g m) t (record (thread m t) { timed_out = true })) {
          timed_outs_succeeded = suc g.timed_outs_succeeded;
        }

    woken-Kept :
        (methods : VirtualMethods T)
        → Keeps methods
        → (g : Scheduler T) (t : ℕ) → count t (queue_of g).queue ≡ 0
        → (g' : Scheduler T) × ((methods.resume (woken g t) t ≡ some g') × Kept g t g')
    unfolding update_runnable_queue
    woken-Kept methods keeps g t out =
        let m = changed H c (committed_manager (manager_of g) t) t (pos 0) in
        let ((order, same), _) = update-erase-Ordered H m.runnable_threads t in
        let out' = same t ∙ out in
        let (g', (e, kept)) = keeps (woken g t) t (put-Ordered H _ t _ out' order) out' in
        (g', (e, Kept-from g (woken g t) g' t same kept))

    pub timed_waiting-Kept :
        (methods : VirtualMethods T)
        → Keeps methods
        → (g : Scheduler T) (t : ℕ) → Ordered H (queue_of g)
        → count t (queue_of g).queue ≡ 0
        → is_timed_waiting (thread (manager_of g) t) ≡ true
        → (g' : Scheduler T) × ((handle H c o methods g t ≡ some g') × Kept g t g')
    unfolding handle interrupt_timed_waiting_thread is_valid_to_leap
    timed_waiting-Kept methods keeps g t order out waits =
        let (awake, (no_io, positive)) = timed_waiting-states (thread (manager_of g) t) waits in
        let (asked, valid) = is_valid_to_leap H c o g t in
        let late = committed-timeout (manager_of g) t positive in
        let updates = interrupt-updates (committed_manager (manager_of g) t) t (pos 0) late in
        let marked =
          record (with_thread asked t (set_logged_only (thread (manager_of g) t) custom3)) {
            timed_outs_failed = suc g.timed_outs_failed;
          } in
        let (g', (pushed, kept)) =
          push_back-Kept marked t (put-Ordered H (queue_of g) t _ out order) out in
        let (h, (resumed, kept')) = woken-Kept methods keeps asked t out in
        elim (Bool-cases valid) [
          | inl y ↦ (h, (rw (awake, no_io, waits, y, updates) resumed, kept'))
          | inr n ↦
              (g', (rw (awake, no_io, waits, n) pushed, Kept-from g marked g' t (λ u. refl) kept))
        ]
