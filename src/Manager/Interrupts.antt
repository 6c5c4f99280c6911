-- ===== src/Manager/Interrupts.antt =====
-- What an interrupt of a replaced wait leaves in the queue.
use vexjine.Common.{
  ℕ, ◌+◌, ◌==◌, ◌≡◌, refl, ap, ◌∙◌, subst, inl, inr, Bool-cases, some, List, count, ℤ, put_self,
  if◌then◌else◌, arith, ==_iff,
}
use vexjine.Threads.Code.{suspended}
use vexjine.Threads.State.{VexThreadState}
use vexjine.Threads.State.Waiting.{before_thread_interrupt_at}
use vexjine.Queue.Heap.{HeapFunctions}
use vexjine.Queue.Thread.Laws.{Ordered, push-Ordered, update-erase-Ordered}
use vexjine.Queue.Thread.Expiry.{put-Ordered}
use vexjine.Timeline.Controllers.{VirtualTimelineController}
use vexjine.Manager.{
  ThreadManager, thread, set_thread, is_queued_timeout, push_into_runnable_queue,
  update_runnable_queue, on_any_replaced_waiting_interrupt,
}

plus_zero : (n : ℕ) → n + 0 ≡ n
plus_zero n = omega arith

once : (c : List ℕ) (t u : ℕ) → count t c ≡ 1 → count u c ≡ (if t == u then 1 else count u c)
once c t u h = elim (Bool-cases (t == u)) [
  | inl e ↦ rw e (subst (λ z. count z c ≡ 1) ((==_iff t u).0 e) h)
  | inr n ↦ rw n refl
]

once_more :
    (c : List ℕ) (t u : ℕ)
    → count t c ≡ 0
    → count u c + (if t == u then 1 else 0) ≡ (if t == u then 1 else count u c)
once_more c t u h = elim (Bool-cases (t == u)) [
  | inl e ↦ rw e (ap (λ n. n + 1) (subst (λ z. count z c ≡ 0) ((==_iff t u).0 e) h))
  | inr n ↦ rw n (plus_zero (count u c))
]

module _ {T : Type 0} where
  -- The controller gives an interrupted thread a timestamp, and leaves its timeout alone.
  abbrev pub KeepsTimeout : VirtualTimelineController T → Type 0
  KeepsTimeout c =
      (v : T) (s : VexThreadState) (time : ℤ)
      → (c.update_interrupted_waiting_thread_timestamp v s time).1.timers.timeout ≡ s.timers.timeout

  -- A thread is queued once if its timeout gives it a place in the queue, and otherwise not.
  abbrev pub IsPlaced : ThreadManager T → ℕ → Type 0
  IsPlaced m t =
      count t m.runnable_threads.queue
      ≡ (if is_queued_timeout (thread m t).timers.timeout then 1 else 0)

module _ (H : HeapFunctions) {T : Type 0} (c : VirtualTimelineController T) where
  -- The thread's state after the interrupt.
  abbrev pub interrupted : ThreadManager T → ℕ → ℤ → VexThreadState
  interrupted m t time =
      (before_thread_interrupt_at
        (c.update_interrupted_waiting_thread_timestamp m.timeline (thread m t) time).1
        m.object_registry).0

  -- The queue is in order, holds the thread once, and the others as before.
  abbrev pub Requeued : ThreadManager T → ℕ → ThreadManager T → Type 0
  Requeued m t m' =
      Ordered H m'.runnable_threads
      × (((u : ℕ)
            → count u m'.runnable_threads.queue
              ≡ (if t == u then 1 else count u m.runnable_threads.queue))
          × ((thread m' t).current_state ≡ suspended))

  abbrev pub changed : ThreadManager T → ℕ → ℤ → ThreadManager T
  changed m t time = record (set_thread m t (interrupted m t time)) {
    timeline = (c.update_interrupted_waiting_thread_timestamp m.timeline (thread m t) time).0;
    object_registry =
        (before_thread_interrupt_at
          (c.update_interrupted_waiting_thread_timestamp m.timeline (thread m t) time).1
          m.object_registry).1;
  }

  suspended-after :
      (s : VexThreadState) (m : ThreadManager T)
      → (before_thread_interrupt_at s m.object_registry).0.current_state ≡ suspended
  unfolding before_thread_interrupt_at
  suspended-after s m = refl

  put-suspended :
      (m : ThreadManager T) (t : ℕ) (time : ℤ)
      → (thread (changed m t time) t).current_state ≡ suspended
  put-suspended m t time =
      ap (λ s. s.current_state) (put_self m.runnable_threads.threads t (interrupted m t time))
      ∙ suspended-after
          (c.update_interrupted_waiting_thread_timestamp m.timeline (thread m t) time).1 m

  changed-Ordered :
      (m : ThreadManager T) (t : ℕ) (time : ℤ)
      → Ordered H m.runnable_threads
      → count t m.runnable_threads.queue ≡ 0
      → Ordered H (changed m t time).runnable_threads
  changed-Ordered m t time order none' =
      put-Ordered H m.runnable_threads t (interrupted m t time) none' order

  requeue-updated :
      (m : ThreadManager T) (t : ℕ) (time : ℤ)
      → count t m.runnable_threads.queue ≡ 1
      → Requeued m t (update_runnable_queue H (changed m t time))
  unfolding update_runnable_queue
  requeue-updated m t time one =
      let ((order, same), _) = update-erase-Ordered H (changed m t time).runnable_threads t in
      (order, (λ u. same u ∙ once m.runnable_threads.queue t u one, put-suspended m t time))

  requeue-pushed :
      (m : ThreadManager T) (t : ℕ) (time : ℤ)
      → Ordered H m.runnable_threads
      → count t m.runnable_threads.queue ≡ 0
      → (m' : ThreadManager T) × ((push_into_runnable_queue H (changed m t time) t ≡ some m')
          × Requeued m t m')
  unfolding push_into_runnable_queue
  requeue-pushed m t time order none' =
      let m' = changed m t time in
      let (q', (e, (threads, (added, order')))) =
        push-Ordered H m'.runnable_threads t (changed-Ordered m t time order none') none' in
      (
        record m' { runnable_threads = q' },
        (
          rw (e, push_into_runnable_queue) refl,
          (
            order',
            (
              λ u. added u ∙ once_more m.runnable_threads.queue t u none',
              ap (λ f. (f t).current_state) threads ∙ put-suspended m t time,
            ),
          ),
        ),
      )

  -- An interrupted thread ends suspended and exactly once in the queue, which is in order under its
  -- new timestamp and holds the other threads as before: a thread that the queue holds already is
  -- put in its place, and one that it does not hold is added. The queue is in order before, the
  -- thread is queued as its timeout says, and the controller keeps the timeout.
  pub interrupt-Requeued :
      KeepsTimeout c
      → (m : ThreadManager T) (t : ℕ) (time : ℤ) → Ordered H m.runnable_threads
      → IsPlaced m t
      → (m' : ThreadManager T) × ((on_any_replaced_waiting_interrupt H c m t time ≡ some m')
          × Requeued m t m')
  unfolding on_any_replaced_waiting_interrupt
  interrupt-Requeued k m t time order placed =
      let timeout = (thread m t).timers.timeout in
      let kept = ap is_queued_timeout (k m.timeline (thread m t) time) in
      elim (Bool-cases (is_queued_timeout timeout)) [
        | inl e ↦ (
          update_runnable_queue H (changed m t time),
          (
            rw (kept ∙ e, on_any_replaced_waiting_interrupt) refl,
            requeue-updated m t time (placed ∙ ap (λ b. if b then 1 else 0) e),
          ),
        )
        | inr e ↦
            let (m', (r, requeued)) =
              requeue-pushed m t time order (placed ∙ ap (λ b. if b then 1 else 0) e) in
            (m', (rw (kept ∙ e, on_any_replaced_waiting_interrupt) r, requeued))
      ]
