-- ===== src/Manager/Strict/Progress.antt =====
-- StrictParallelThreadManager::suspendRunningResumeNext: a round ends once others leave its queue
-- alone, and one of a core that need not wait goes on with the thread on top of the queue.
use vexjine.Common.{
  ℕ, suc, List, ◌∷◌, ◌≡◌, ◌≢◌, refl, ap, ◌∙◌, Bool, true, false, Option, Option-cases, inl, inr,
  none, some, count,
}
use vexjine.Queue.Heap.{HeapFunctions}
use vexjine.Queue.Priority.{top}
use vexjine.Queue.Thread.Laws.{Ordered}
use vexjine.Timeline.Controllers.{VirtualTimelineController}
use vexjine.Manager.{thread}
use vexjine.Manager.Rounds.{Scheduler, Outside, manager_of, limit_next_timeslice}
use vexjine.Manager.Rounds.Choice.{Others, Round, done, failed, out_of_fuel}
use vexjine.Manager.Rounds.Kept.{OnlyStamps, queue_of, Kept}
use vexjine.Manager.Rounds.Progress
use vexjine.Manager.Rounds.Progress.{CanGoOn, settles, disturbed}
use vexjine.Manager.Strict.{
  with_timeline, continued, strict_methods, resume_top, resume_next, after_suspension, round_from,
  suspend_thread, suspend_running_resume_next,
}
use vexjine.Manager.Strict.Outcome.{Disables, strict-Keeps}

continued-ends :
    {T : Type 0} (r : Round (Scheduler T)) → r ≢ out_of_fuel → continued r ≢ out_of_fuel
unfolding continued
continued-ends (done g) ends e = cc
continued-ends failed ends e = cc
continued-ends out_of_fuel ends e = ends refl

-- How a round ends that finds the thread on top: the core waits, which is counted, and leaves the
-- queue alone, or it goes on, with the queue that others have left it, and the thread is not lost.
pub data RoundEnd {T : Type 0} (H : HeapFunctions) (g : Scheduler T) (act : Others) (t : ℕ)
    (g' : Scheduler T) : Bool → Type 0 where
  core_waits :
      queue_of g' ≡ queue_of g
      → g'.synchronization_waits ≡ suc g.synchronization_waits
      → RoundEnd H g act t g' true
  goes_on : Kept H (disturbed g act) t g' → RoundEnd H g act t g' false

module _ {T : Type 0} (H : HeapFunctions) (c : VirtualTimelineController T) (o : Outside) where
  resume_top-ends :
      (acts more : List Others) (g : Scheduler T) (next : Option ℕ)
      → resume_top H c o (settles acts more) g next ≢ out_of_fuel
  unfolding resume_top continued
  resume_top-ends acts more g none = elim (Option-cases (c.disable_core (manager_of g).timeline)) [
    | inl stuck ↦ rw (stuck, resume_top) (λ e. cc)
    | inr (answer, h) ↦ rw (h, resume_top) (λ e. cc)
  ]
  resume_top-ends acts more g (some t) =
      continued-ends _
        (Progress.continue_thread-ends H c o (strict_methods H c o) acts more g (some t))

  resume_next-ends :
      (acts more : List Others) (g : Scheduler T)
      → resume_next H c o (settles acts more) g ≢ out_of_fuel
  unfolding resume_next
  resume_next-ends acts more g =
      let slot = g.group.scheduler_timeslot in
      elim (Option-cases (c.should_block_core_progress (manager_of g).timeline slot)) [
        | inl stuck ↦ rw (stuck, resume_next) (λ e. cc)
        | inr ((timeline', true), h) ↦ rw (h, resume_next) (λ e. cc)
        | inr ((timeline', false), h) ↦
            rw (h, resume_next) (resume_top-ends acts more (with_timeline g timeline') _)
      ]

  after_suspension-ends :
      (acts more : List Others) (asked : Option (Scheduler T × Bool))
      → after_suspension H c o (settles acts more) asked ≢ out_of_fuel
  unfolding after_suspension
  after_suspension-ends acts more none e = cc
  after_suspension-ends acts more (some (g, true)) e = resume_next-ends acts more g e
  after_suspension-ends acts more (some (g, false)) e = cc

  round_from-ends :
      (acts more : List Others) (g : Scheduler T) (running : Option ℕ)
      → round_from H c o (settles acts more) g running ≢ out_of_fuel
  unfolding round_from
  round_from-ends acts more g none = resume_next-ends acts more g
  round_from-ends acts more g (some r) =
      after_suspension-ends acts more (suspend_thread H c o g r (o.signal_sent r))

  -- A strict manager's round settles in the same way, whatever the controller answers.
  strict_round-ends :
      (acts more : List Others) (g : Scheduler T)
      → suspend_running_resume_next H c o (settles acts more) g ≢ out_of_fuel
  unfolding suspend_running_resume_next
  strict_round-ends acts more g = round_from-ends acts more g (manager_of g).running_thread

  module _ (only : OnlyStamps c) (disables : Disables c) where
    resume_top-Kept :
        (act : Others) (rest : List Others) (g : Scheduler T) (t : ℕ)
        → Ordered H (queue_of (disturbed g act))
        → top (queue_of (disturbed g act)).queue ≡ some t
        → count t (queue_of (disturbed g act)).queue ≡ 1
        → CanGoOn (thread (manager_of (disturbed g act)) t)
        → (g' : Scheduler T) × ((resume_top H c o (act ∷ rest) g (some t) ≡ done g')
            × Kept H (disturbed g act) t g')
    unfolding resume_top continued
    resume_top-Kept act rest g t order e once go =
        let keeps = strict-Keeps H c o disables in
        let (g', (rounds, kept)) =
          Progress.top-Kept H c o (strict_methods H c o) only keeps act rest g t order e once go in
        (
          record g' { normal_continuations = suc g'.normal_continuations },
          (ap continued rounds, kept),
        )

    round_next-RoundEnd :
        (act : Others) (rest : List Others) (g : Scheduler T) (t : ℕ) (timeline' : T)
        (blocks : Bool)
        → c.should_block_core_progress (manager_of g).timeline g.group.scheduler_timeslot
          ≡ some (timeline', blocks)
        → top (queue_of g).queue ≡ some t
        → Ordered H (queue_of (disturbed g act))
        → top (queue_of (disturbed g act)).queue ≡ some t
        → count t (queue_of (disturbed g act)).queue ≡ 1
        → CanGoOn (thread (manager_of (disturbed g act)) t)
        → (g' : Scheduler T) × ((resume_next H c o (act ∷ rest) g ≡ done g')
            × RoundEnd H g act t g' blocks)
    unfolding resume_next limit_next_timeslice
    round_next-RoundEnd act rest g t timeline' true asks seen order e once go =
        let g' = with_timeline g timeline' in
        (
          limit_next_timeslice (record g' { synchronization_waits = suc g'.synchronization_waits })
              o,
          (rw (asks, resume_next) refl, core_waits refl refl),
        )
    round_next-RoundEnd act rest g t timeline' false asks seen order e once go =
        let (g', (rounds, kept)) =
          resume_top-Kept act rest (with_timeline g timeline') t order e once go in
        (g', (rw (asks, seen, resume_next) rounds, goes_on kept))

    -- No thread is lost by a strict manager. While no thread runs, a round that sees a thread on
    -- top of the queue, and still finds it there after what others have done to the queue in the
    -- meantime, ends, and without a failure. If the core has to wait for the others, the wait is
    -- counted and the queue left alone. Otherwise the thread is queued, once, or awake and under
    -- the manager's control, the other threads are queued as the others left them, and the queue
    -- is in order. When the thread is taken it is suspended or timed waiting, and the queue is in
    -- order and holds the thread once. The controller answers, and touches timestamps only.
    pub strict_round-RoundEnd :
        (act : Others) (rest : List Others) (g : Scheduler T) (t : ℕ) (timeline' : T)
        (blocks : Bool)
        → (manager_of g).running_thread ≡ none
        → c.should_block_core_progress (manager_of g).timeline g.group.scheduler_timeslot
          ≡ some (timeline', blocks)
        → top (queue_of g).queue ≡ some t
        → Ordered H (queue_of (disturbed g act))
        → top (queue_of (disturbed g act)).queue ≡ some t
        → count t (queue_of (disturbed g act)).queue ≡ 1
        → CanGoOn (thread (manager_of (disturbed g act)) t)
        → (g' : Scheduler T) × ((suspend_running_resume_next H c o (act ∷ rest) g ≡ done g')
            × RoundEnd H g act t g' blocks)
    unfolding suspend_running_resume_next round_from
    strict_round-RoundEnd act rest g t timeline' blocks idle asks seen order e once go =
        let (g', (rounds, end)) =
          round_next-RoundEnd act rest g t timeline' blocks asks seen order e once go in
        (g', (ap (round_from H c o (act ∷ rest) g) idle ∙ rounds, end))
