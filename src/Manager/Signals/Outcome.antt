-- ===== src/Manager/Signals/Outcome.antt =====
-- What the suspension of a running thread comes to.
use vexjine.Common.{
  Bool-cases, inl, inr, pos, ◌+ℤ◌, ltb_ℤ, ℕ, ◌+◌, ◌==◌, ◌≡◌, ◌≢◌, refl, ap, ◌∙◌, Bool, true, false,
  none, some, count, put_self, if◌then◌else◌, arith, ==_refl,
}
use vexjine.Threads.Code.{suspended}
use vexjine.Threads.Scheduling.{
  Scheduling, Intention, clear_suspendflag, to_be_suspended, to_keep_on_running, to_be_disregarded,
  resuming_suspendflag, get_suspending_thread_intention,
}
use vexjine.Threads.State.{set_suspended, set_new_state}
use vexjine.Queue.Heap.{HeapFunctions}
use vexjine.Queue.Thread.{ThreadQueue}
use vexjine.Queue.Thread.Laws.{Ordered, push-Ordered}
use vexjine.Queue.Thread.Expiry.{put-Ordered}
use vexjine.Manager
use vexjine.Manager.{
  ThreadManager, thread, set_thread, is_thread, unset_current_thread_from_running_thread,
  push_into_runnable_queue,
}
use vexjine.Manager.Signals.{
  SchedulingManager, minimize_scheduler_timeslot, on_intention_to_be_disregarded,
  on_intention_to_keep_on_running, suspend_signalled, follow, answered,
  is_signalled_thread_going_to_suspend, suspend_thread,
}

reading :
    (s : Scheduling) (i : Intention)
    → s.suspend_flag ≡ i
    → i ≢ clear_suspendflag
    → get_suspending_thread_intention s ≡ some (record s { suspend_flag = clear_suspendflag }, i)
unfolding get_suspending_thread_intention
reading s i h n = rw h (ground arith)

module _ (H : HeapFunctions) {T : Type 0} where
  -- The thread is in the queue, which is in order, and no thread is running.
  abbrev Suspended : SchedulingManager T → ℕ → SchedulingManager T → Type 0
  Suspended g t g' =
      (g'.manager.running_thread ≡ none)
      × (((thread g'.manager t).current_state ≡ suspended)
          × (((u : ℕ)
                → count u g'.manager.runnable_threads.queue
                  ≡ count u g.manager.runnable_threads.queue + (if t == u then 1 else 0))
              × Ordered H g'.manager.runnable_threads))

  -- The thread stays the running one, in its state, and the manager controls it.
  abbrev Continued : SchedulingManager T → ℕ → SchedulingManager T → Type 0
  Continued g t g' =
      (g'.manager.running_thread ≡ some t)
      × (((thread g'.manager t).current_state ≡ (thread g.manager t).current_state)
          × (((thread g'.manager t).scheduling.thread_currently_controlling_manager
                ≡ some g.manager.manager_id)
              × (g'.manager.runnable_threads.queue ≡ g.manager.runnable_threads.queue)))

  -- The thread keeps its state and runs on unscheduled, and no thread is running.
  abbrev Released : SchedulingManager T → ℕ → SchedulingManager T → Type 0
  Released g t g' =
      (g'.manager.running_thread ≡ none)
      × (((thread g'.manager t).current_state ≡ (thread g.manager t).current_state)
          × (g'.manager.runnable_threads.queue ≡ g.manager.runnable_threads.queue))

  -- By the intention that the thread has left.
  abbrev pub Outcome : Intention → SchedulingManager T → ℕ → SchedulingManager T → Bool → Type 0
  Outcome to_be_suspended g t g' answer = (answer ≡ true) × Suspended g t g'
  Outcome to_be_disregarded g t g' answer = (answer ≡ true) × Released g t g'
  Outcome to_keep_on_running g t g' answer = (answer ≡ false) × Continued g t g'
  Outcome resuming_suspendflag g t g' answer = (answer ≡ false) × Continued g t g'
  Outcome clear_suspendflag g t g' answer = (answer ≡ false) × Continued g t g'

  -- A flag cleared by the scheduler's reading.
  abbrev read : SchedulingManager T → ℕ → SchedulingManager T
  read g t =
      answered g t (record ((thread g.manager t).scheduling) { suspend_flag = clear_suspendflag })

  -- The manager whose running thread has been suspended, and not yet queued.
  abbrev paused : ThreadManager T → ℕ → ThreadManager T
  paused m t = record (set_thread m t (set_suspended (thread m t))) {
    last_suspended = m.running_thread;
    running_thread = none;
  }

  unset-running_thread :
      (m : ThreadManager T) (t : ℕ)
      → m.running_thread ≡ some t
      → is_thread m.running_thread t ≡ true
  unfolding is_thread
  unset-running_thread m t r = rw r (==_refl t)

  set_suspended-push :
      (m : ThreadManager T) (t : ℕ)
      → m.running_thread ≡ some t
      → Manager.set_suspended H m t ≡ push_into_runnable_queue H (paused m t) t
  unfolding Manager.set_suspended unset_current_thread_from_running_thread
  set_suspended-push m t r = rw (unset-running_thread m t r) refl

  push-Queued :
      (m : ThreadManager T) (t : ℕ)
      → Ordered H m.runnable_threads
      → count t m.runnable_threads.queue ≡ 0
      → (q' : ThreadQueue) × ((push_into_runnable_queue H (paused m t) t
            ≡ some (record (paused m t) { runnable_threads = q' }))
          × (((q'.threads t).current_state ≡ suspended)
              × (((u : ℕ)
                    → count u q'.queue
                      ≡ count u m.runnable_threads.queue + (if t == u then 1 else 0))
                  × Ordered H q')))
  unfolding push_into_runnable_queue set_suspended set_new_state
  push-Queued m t order none' =
      let s = set_suspended (thread m t) in
      let (q', (e, (threads, (added, order')))) =
        push-Ordered H (paused m t).runnable_threads t
          (put-Ordered H m.runnable_threads t s none' order) none' in
      (
        q',
        (
          rw (e, push_into_runnable_queue) refl,
          (
            ap (λ f. (f t).current_state) threads
                ∙ ap (λ r. r.current_state) (put_self m.runnable_threads.threads t s),
            (added, order'),
          ),
        ),
      )

  suspend-Suspended :
      (g : SchedulingManager T) (t : ℕ)
      → g.manager.running_thread ≡ some t
      → Ordered H g.manager.runnable_threads
      → count t g.manager.runnable_threads.queue ≡ 0
      → (g' : SchedulingManager T) × ((suspend_signalled H g t ≡ some (g', true))
          × Suspended g t g')
  unfolding suspend_signalled
  suspend-Suspended g t r order none' =
      let (q', (e, (state, (added, order')))) = push-Queued g.manager t order none' in
      (
        record g { manager = record (paused g.manager t) { runnable_threads = q' } },
        (
          rw (set_suspended-push g.manager t r ∙ e, suspend_signalled) refl,
          (refl, (state, (added, order'))),
        ),
      )

  disregard-manager :
      (g : SchedulingManager T) (t : ℕ)
      → (on_intention_to_be_disregarded g t).manager
        ≡ unset_current_thread_from_running_thread g.manager t
  unfolding on_intention_to_be_disregarded minimize_scheduler_timeslot
  disregard-manager g t =
      let count = g.number_of_native_waiting_threads +ℤ pos 1 in
      elim (Bool-cases g.minimize_timeslot_on_nw) [
        | inr a ↦ rw a refl
        | inl a ↦ elim (Bool-cases (ltb_ℤ (pos 0) count)) [
          | inr b ↦ rw (a, b) refl
          | inl b ↦ elim (Bool-cases (ltb_ℤ (pos 2_000_000) g.default_scheduler_timeslot)) [
            | inr c ↦ rw (a, b, c) refl
            | inl c ↦ rw (a, b, c) refl
          ]
        ]
      ]

  continued :
      (g : SchedulingManager T) (t : ℕ)
      → Continued g t (on_intention_to_keep_on_running (read g t) t)
  unfolding on_intention_to_keep_on_running answered
  continued g t = (refl, (rw (==_refl t) refl, (rw (==_refl t) refl, refl)))

  released :
      (g : SchedulingManager T) (t : ℕ)
      → g.manager.running_thread ≡ some t
      → Released g t (on_intention_to_be_disregarded (read g t) t)
  unfolding unset_current_thread_from_running_thread answered
  released g t r =
      rw (disregard-manager (read g t) t)
        (rw (unset-running_thread g.manager t r) (refl, (rw (==_refl t) refl, refl)))

  follow-Outcome :
      (g : SchedulingManager T) (t : ℕ) (i : Intention)
      → g.manager.running_thread ≡ some t
      → Ordered H g.manager.runnable_threads
      → count t g.manager.runnable_threads.queue ≡ 0
      → (g' : SchedulingManager T) × ((answer : Bool) × ((follow H (read g t) t i
              ≡ some (g', answer))
            × Outcome i g t g' answer))
  unfolding follow answered
  follow-Outcome g t to_be_suspended r order none' =
      let m = g.manager in
      let (g', (e, suspended')) =
        suspend-Suspended (read g t) t r
          (put-Ordered H m.runnable_threads t
            (record (thread m t) {
              scheduling = record ((thread m t).scheduling) { suspend_flag = clear_suspendflag };
            })
            none' order)
          none' in
      (g', (true, (e, (refl, suspended'))))
  follow-Outcome g t to_be_disregarded r order none' = (_, (_, (refl, (refl, released g t r))))
  follow-Outcome g t to_keep_on_running r order none' = (_, (_, (refl, (refl, continued g t))))
  follow-Outcome g t resuming_suspendflag r order none' = (_, (_, (refl, (refl, continued g t))))
  follow-Outcome g t clear_suspendflag r order none' = (_, (_, (refl, (refl, continued g t))))

  -- The scheduler signals its running thread, which is not queued and leaves an intention, while the
  -- queue is in order. The suspension always comes to an answer, which tells whether another thread
  -- may run: with TO_BE_SUSPENDED the thread ends suspended and in the queue, which stays in order;
  -- with TO_BE_DISREGARDED it keeps its state and stays out of the queue; and in both cases no
  -- thread is running afterwards. Otherwise it goes on as the running one, controlled by the
  -- manager.
  pub suspend_thread-Outcome :
      (g : SchedulingManager T) (t : ℕ) (i : Intention)
      → g.manager.running_thread ≡ some t
      → (thread g.manager t).scheduling.suspend_flag ≡ i
      → i ≢ clear_suspendflag
      → Ordered H g.manager.runnable_threads
      → count t g.manager.runnable_threads.queue ≡ 0
      → (g' : SchedulingManager T) × ((answer : Bool) × ((suspend_thread H g t true
              ≡ some (g', answer))
            × Outcome i g t g' answer))
  unfolding suspend_thread is_signalled_thread_going_to_suspend
  suspend_thread-Outcome g t i r flag n order none' =
      let (g', (answer, (e, outcome))) = follow-Outcome g t i r order none' in
      (
        g',
        (
          answer,
          (
            rw
                (
                  unset-running_thread g.manager t r,
                  is_signalled_thread_going_to_suspend,
                  reading (thread g.manager t).scheduling i flag n,
                )
                e,
            outcome,
          ),
        ),
      )
