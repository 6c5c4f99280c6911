-- ===== src/Manager/Rounds/Progress.antt =====
-- A round ends once others leave its queue alone, and one that finds a thread goes on with it.
use vexjine.Common.{
  ℕ, List, [], ◌∷◌, ◌+◌, ◌==◌, ◌≡◌, ◌≢◌, ◌⊎◌, inl, inr, refl, ap, sym, ◌∙◌, subst, Bool, Bool-cases,
  true, false, Option, Option-cases, none, some, count, if◌then◌else◌, arith, ==_refl, ==_iff,
}
use vexjine.Threads.Code.{eq_code, ordinal}
use vexjine.Threads.State.{
  VexThreadState, is_suspended, is_timed_waiting, is_running, in_io_prediction_phase,
  is_waiting_real_code_to_complete_after_model_simulation,
}
use vexjine.Queue.Heap.{HeapFunctions}
use vexjine.Queue.Priority.{top}
use vexjine.Queue.Thread
use vexjine.Queue.Thread.{ThreadQueue, pops, verdict, key}
use vexjine.Queue.Thread.Equals.{
  get_next_if-none, get_next_if-other, get_next_if-equals, get_next_if-pops,
}
use vexjine.Queue.Thread.Laws.{Ordered}
use vexjine.Timeline.Controllers.{VirtualTimelineController}
use vexjine.Manager.{thread, is_thread}
use vexjine.Manager.Signals.{SchedulingManager, suspend_thread}
use vexjine.Manager.Rounds.{Scheduler, Outside, VirtualMethods, manager_of, with_manager}
use vexjine.Manager.Rounds.Choice.{
  Others, undisturbed, Round, done, out_of_fuel, from_option, handle, go_on_with, continue_thread,
  resume_next, round_from, suspend_running_resume_next,
}
use vexjine.Manager.Rounds.Kept.{
  OnlyStamps, queue_of, Kept, Keeps, suspended-Kept, timed_waiting-Kept,
}

from_option-ends : {A : Type 0} (o : Option A) → from_option o ≢ out_of_fuel
from_option-ends none e = cc
from_option-ends (some a) e = cc

-- Suspended, or waiting for a time: the threads that a round can let go on.
abbrev pub CanGoOn : VexThreadState → Type 0
CanGoOn s = (is_suspended s ≡ true) ⊎ (is_timed_waiting s ≡ true)

suspended-pops : (s : VexThreadState) (id : ℕ) → is_suspended s ≡ true → verdict s id ≡ pops
unfolding is_suspended is_running in_io_prediction_phase verdict eq_code ordinal
    is_waiting_real_code_to_complete_after_model_simulation
suspended-pops s id h = ground arith

timed_waiting-pops : (s : VexThreadState) (id : ℕ) → is_timed_waiting s ≡ true → verdict s id ≡ pops
unfolding is_timed_waiting is_running in_io_prediction_phase verdict eq_code ordinal
    is_waiting_real_code_to_complete_after_model_simulation
timed_waiting-pops s id h = ground arith

taken_once : {k n : ℕ} (t : ℕ) → k ≡ 1 → k ≡ n + (if t == t then 1 else 0) → n ≡ 0
taken_once t e h = ground arith

taken_other : {k n : ℕ} (t u : ℕ) → (t == u) ≡ false → k ≡ n + (if t == u then 1 else 0) → n ≡ k
taken_other t u e h = ground arith

-- A run that ends with three undisturbed accesses, and goes on in any way.
abbrev pub settles : List Others → List Others → List Others
settles [] more = undisturbed ∷ undisturbed ∷ undisturbed ∷ more
settles (act ∷ acts) more = act ∷ settles acts more

module _ {T : Type 0} where
  abbrev with_queue : Scheduler T → ThreadQueue → Scheduler T
  with_queue g q = with_manager g (record (manager_of g) { runnable_threads = q })

  -- What others have done before an access.
  abbrev pub disturbed : Scheduler T → Others → Scheduler T
  disturbed g act = with_queue g (act (queue_of g))

module _ {T : Type 0} (H : HeapFunctions) (c : VirtualTimelineController T) (o : Outside)
    (methods : VirtualMethods T) where
  abbrev round : List Others → Scheduler T → Option ℕ → Round (Scheduler T)
  round = continue_thread H c o methods

  abbrev next_of : Scheduler T → ℕ → ThreadQueue × Option ℕ
  next_of g t = Thread.get_next_if_equals_else_return_top H (queue_of g) t (manager_of g).manager_id

  -- The three ways in which a round goes on.
  round-none :
      (rest : List Others) (g : Scheduler T) (t : ℕ) (q : ThreadQueue)
      → next_of g t ≡ (q, none)
      → round (undisturbed ∷ rest) g (some t) ≡ round rest (with_queue g q) none
  unfolding continue_thread go_on_with is_thread
  round-none rest g t q e = ap (go_on_with H c o methods (round rest) g t) e

  round-same :
      (rest : List Others) (g : Scheduler T) (t : ℕ) (q : ThreadQueue)
      → next_of g t ≡ (q, some t)
      → round (undisturbed ∷ rest) g (some t)
        ≡ from_option (handle H c o methods (with_queue g q) t)
  unfolding continue_thread go_on_with is_thread
  round-same rest g t q e = ap (go_on_with H c o methods (round rest) g t) e ∙ rw (==_refl t) refl

  round-other :
      (rest : List Others) (g : Scheduler T) (t u : ℕ) (q : ThreadQueue)
      → (u == t) ≡ false
      → next_of g t ≡ (q, some u)
      → round (undisturbed ∷ rest) g (some t) ≡ round rest (with_queue g q) (some u)
  unfolding continue_thread go_on_with is_thread
  round-other rest g t u q d e = ap (go_on_with H c o methods (round rest) g t) e ∙ rw d refl

  round-disturbed :
      (act : Others) (rest : List Others) (g : Scheduler T) (t : ℕ)
      → round (act ∷ rest) g (some t) ≡ round (undisturbed ∷ rest) (disturbed g act) (some t)
  unfolding continue_thread go_on_with is_thread
  round-disturbed act rest g t = refl

  null-ends :
      (act : Others) (rest : List Others) (g : Scheduler T)
      → round (act ∷ rest) g none ≢ out_of_fuel
  unfolding continue_thread
  null-ends act rest g e = cc

  top-ends :
      (act : Others) (rest : List Others) (g : Scheduler T) (t : ℕ)
      → top (queue_of g).queue ≡ some t
      → round (undisturbed ∷ act ∷ rest) g (some t) ≢ out_of_fuel
  top-ends act rest g t e =
      let (q, answer) = get_next_if-equals H (queue_of g) t (manager_of g).manager_id e in
      elim answer [
        | inl blocked ↦
            rw (round-none (act ∷ rest) g t q blocked) (null-ends act rest (with_queue g q))
        | inr taken ↦ rw (round-same (act ∷ rest) g t q taken) (from_option-ends _)
      ]

  peace-ends :
      (more : List Others) (g : Scheduler T) (state : Option ℕ)
      → round (settles [] more) g state ≢ out_of_fuel
  peace-ends more g none = null-ends undisturbed _ g
  peace-ends more g (some t) = elim (Option-cases (top (queue_of g).queue)) [
    | inl e ↦
        rw
          (round-none (undisturbed ∷ undisturbed ∷ more) g t (queue_of g)
            (get_next_if-none H (queue_of g) t _ e))
          (null-ends undisturbed (undisturbed ∷ more) _)
    | inr (u, e) ↦ elim (Bool-cases (u == t)) [
      | inl same ↦
          top-ends undisturbed (undisturbed ∷ more) g t
            (subst (λ z. top (queue_of g).queue ≡ some z) ((==_iff u t).0 same) e)
      | inr other ↦
          rw
            (round-other (undisturbed ∷ undisturbed ∷ more) g t u (queue_of g) other
              (get_next_if-other H (queue_of g) t u _ e other))
            (top-ends undisturbed more g u e)
    ]
  ]

  go_on-ends :
      (again : Scheduler T → Option ℕ → Round (Scheduler T)) (g : Scheduler T) (t : ℕ)
      → (answer : ThreadQueue × Option ℕ)
      → ((g' : Scheduler T) (next : Option ℕ) → again g' next ≢ out_of_fuel)
      → go_on_with H c o methods again g t answer ≢ out_of_fuel
  unfolding go_on_with
  go_on-ends again g t (q, next) ends = elim (Bool-cases (is_thread next t)) [
    | inl e ↦ rw (e, go_on_with) (from_option-ends _)
    | inr e ↦ rw (e, go_on_with) (ends _ next)
  ]

  -- However the queue has changed since the thread was looked at.
  pub continue_thread-ends :
      (acts more : List Others) (g : Scheduler T) (state : Option ℕ)
      → continue_thread H c o methods (settles acts more) g state ≢ out_of_fuel
  unfolding continue_thread
  continue_thread-ends [] more g state = peace-ends more g state
  continue_thread-ends (act ∷ acts) more g none = null-ends act (settles acts more) g
  continue_thread-ends (act ∷ acts) more g (some t) =
      go_on-ends (round (settles acts more)) g t _ (continue_thread-ends acts more)

  resume_next-ends :
      (acts more : List Others) (g : Scheduler T) (asked : Option (SchedulingManager T × Bool))
      → resume_next H c o methods (settles acts more) g asked ≢ out_of_fuel
  unfolding resume_next
  resume_next-ends acts more g none e = cc
  resume_next-ends acts more g (some (group', true)) e = continue_thread-ends acts more _ _ e
  resume_next-ends acts more g (some (group', false)) e = cc

  round_from-ends :
      (acts more : List Others) (g : Scheduler T) (running : Option ℕ)
      → round_from H c o methods (settles acts more) g running ≢ out_of_fuel
  unfolding round_from
  round_from-ends acts more g none = continue_thread-ends acts more g _
  round_from-ends acts more g (some r) =
      resume_next-ends acts more g (suspend_thread H g.group r (o.signal_sent r))

  -- The recursion of `continueThread` settles. Whatever other managers do to the queue before each
  -- of any number of its accesses, it is over once three accesses in a row are undisturbed; the
  -- round is then done, or it has failed, on an assertion or on a signal that nobody answers.
  pub round-ends :
      (acts more : List Others) (g : Scheduler T)
      → suspend_running_resume_next H c o methods (settles acts more) g ≢ out_of_fuel
  unfolding suspend_running_resume_next
  round-ends acts more g = round_from-ends acts more g (manager_of g).running_thread

  -- A round that finds a thread on top.
  module _ (only : OnlyStamps c) (keeps : Keeps H methods) where
    handle-Kept :
        (g : Scheduler T) (t : ℕ)
        → Ordered H (queue_of g)
        → count t (queue_of g).queue ≡ 0
        → CanGoOn (thread (manager_of g) t)
        → (g' : Scheduler T) × ((handle H c o methods g t ≡ some g') × Kept H g t g')
    handle-Kept g t order out (inl suspended) =
        suspended-Kept H c o only methods keeps g t order out suspended
    handle-Kept g t order out (inr waits) =
        timed_waiting-Kept H c o only methods keeps g t order out waits

    go-pops : (s : VexThreadState) (id : ℕ) → CanGoOn s → verdict s id ≡ pops
    go-pops s id (inl h) = suspended-pops s id h
    go-pops s id (inr h) = timed_waiting-pops s id h

    undisturbed-Kept :
        (rest : List Others) (g : Scheduler T) (t : ℕ)
        → Ordered H (queue_of g)
        → top (queue_of g).queue ≡ some t
        → count t (queue_of g).queue ≡ 1
        → CanGoOn (thread (manager_of g) t)
        → (g' : Scheduler T) × ((round (undisturbed ∷ rest) g (some t) ≡ done g') × Kept H g t g')
    undisturbed-Kept rest g t order e once go =
        let (q, (taken, (threads, ((least, left), order')))) =
          get_next_if-pops H (queue_of g) t (manager_of g).manager_id e
            (go-pops (thread (manager_of g) t) (manager_of g).manager_id go) order in
        let (g', (handled, kept)) =
          handle-Kept (with_queue g q) t order' (taken_once t once (left t))
            (subst (λ f. CanGoOn (f t)) (sym threads) go) in
        (
          g',
          (
            round-same rest g t q taken ∙ ap from_option handled,
            (kept.0, (λ u d. kept.1.0 u d ∙ taken_other t u d (left u), kept.1.1)),
          ),
        )

    pub top-Kept :
        (act : Others) (rest : List Others) (g : Scheduler T) (t : ℕ)
        → Ordered H (queue_of (disturbed g act))
        → top (queue_of (disturbed g act)).queue ≡ some t
        → count t (queue_of (disturbed g act)).queue ≡ 1
        → CanGoOn (thread (manager_of (disturbed g act)) t)
        → (g' : Scheduler T) × ((round (act ∷ rest) g (some t) ≡ done g')
            × Kept H (disturbed g act) t g')
    top-Kept act rest g t order e once go =
        let (g', (rounds, kept)) = undisturbed-Kept rest (disturbed g act) t order e once go in
        (g', (round-disturbed act rest g t ∙ rounds, kept))

    round-idle :
        (acts : List Others) (g : Scheduler T) (t : ℕ)
        → (manager_of g).running_thread ≡ none
        → top (queue_of g).queue ≡ some t
        → suspend_running_resume_next H c o methods acts g ≡ round acts g (some t)
    unfolding suspend_running_resume_next round_from
    round-idle acts g t idle e = ap (round_from H c o methods acts g) idle ∙ ap (round acts g) e

    -- No thread is lost. While no thread runs, a round that sees a thread on top of the queue, and
    -- still finds it there after what others have done to the queue in the meantime, ends, and
    -- without a failure: the thread is then either queued, once, or it has been awakened by the
    -- manager, which controls it; the other threads are queued as the others left them, and the
    -- queue is in order. When the thread is taken it is suspended or timed waiting, and the queue
    -- is in order and holds the thread once. The controller touches timestamps only, and the
    -- manager's class loses no thread that it is to resume.
    pub round-Kept :
        (act : Others) (rest : List Others) (g : Scheduler T) (t : ℕ)
        → (manager_of g).running_thread ≡ none
        → top (queue_of g).queue ≡ some t
        → Ordered H (queue_of (disturbed g act))
        → top (queue_of (disturbed g act)).queue ≡ some t
        → count t (queue_of (disturbed g act)).queue ≡ 1
        → CanGoOn (thread (manager_of (disturbed g act)) t)
        → (g' : Scheduler T) × ((suspend_running_resume_next H c o methods (act ∷ rest) g ≡ done g')
            × Kept H (disturbed g act) t g')
    round-Kept act rest g t idle seen order e once go =
        let (g', (rounds, kept)) = top-Kept act rest g t order e once go in
        (g', (round-idle (act ∷ rest) g t idle seen ∙ rounds, kept))
