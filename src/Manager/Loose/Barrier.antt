-- ===== src/Manager/Loose/Barrier.antt =====
-- The barrier of a running thread whose time is scaled: it stands one timeslot ahead.
use vexjine.Common.{
  ℕ, ◌==◌, ◌≡◌, refl, ap, sym, ◌∙◌, subst, Bool-cases, inl, inr, true, false, not, some, List, [],
  ◌∷◌, count, put, ℤ, pos, ◌+ℤ◌, ◌-ℤ◌, int_laws, ==_refl,
}
use vexjine.Threads.Timers.{
  FloatOps, float_one, add_elapsed_time, set_synchronization_barrier_time,
  clear_synchronization_barrier_time,
}
use vexjine.Threads.Timers.Scaled.{add_local_time}
use vexjine.Threads.State.{VexThreadState, is_native_waiting}
use vexjine.Threads.Scheduling.{set_thread_currently_controlling_manager}
use vexjine.Queue.Thread.{ThreadQueue}
use vexjine.Queue.Heap.{HeapFunctions}
use vexjine.Queue.Thread.Laws.{Ordered, update-erase-Ordered}
use vexjine.Timeline.Controllers.{VirtualTimelineController}
use vexjine.Manager.{thread, update_runnable_queue}
use vexjine.Manager.Signals.{SchedulingManager}
use vexjine.Manager.Loose.{
  is_scaled, clear_barrier, set_barrier, lockless_update_time_by, on_intention_to_keep_on_running,
}

-- A controller whose commits of CPU time leave the thread as it is.
pub record LeavesThreads {T : Type 0} (c : VirtualTimelineController T) : Type 0 where
  pub cpu : (v : T) (s : VexThreadState) → (c.commit_cpu_time_progress v s).1 ≡ s
  pub native : (v : T) (s : VexThreadState) → (c.commit_native_waiting_progress v s).1 ≡ s
  pub resumed :
      (v : T) (s : VexThreadState)
      → (c.update_resuming_suspended_thread_timestamp v s).1.timers.virtual_time_speedup
        ≡ s.timers.virtual_time_speedup

-- The barrier is taken down and the time charged.
charged_time : (e time slot d : ℤ) → e ≡ time +ℤ slot → e -ℤ slot +ℤ d ≡ time +ℤ d
charged_time e time slot d h = grind int_laws

added_nothing : (a : ℤ) → a +ℤ pos 0 ≡ a
added_nothing a = grind int_laws

added_twice : (a b d : ℤ) → a +ℤ b +ℤ d ≡ a +ℤ (b +ℤ d)
added_twice a b d = grind int_laws

module _ {T : Type 0} (H : HeapFunctions) (c : VirtualTimelineController T) (f : FloatOps)
    (global : ℕ) where
  -- The thread runs, and stands in the queue, once, a timeslot ahead of `time`.
  abbrev pub StandsAt : SchedulingManager T → ℕ → ℕ → ℤ → Type 0
  StandsAt g t factor time =
      (g.manager.running_thread ≡ some t)
      × (((thread g.manager t).timers.virtual_time_speedup ≡ factor)
          × ((count t g.manager.runnable_threads.queue ≡ 1)
              × (Ordered H g.manager.runnable_threads
                  × ((thread g.manager t).timers.estimated_real_time
                      ≡ time +ℤ g.scheduler_timeslot))))

  -- At the end of a timeslot the thread updates its time, and is left running.
  unfoldable pub tick : SchedulingManager T → ℕ → ℤ → SchedulingManager T
  unfolding lockless_update_time_by on_intention_to_keep_on_running
  tick g t d =
      on_intention_to_keep_on_running H c f global (lockless_update_time_by H c f global g t d) t

  unfoldable pub ticks : SchedulingManager T → ℕ → List ℤ → SchedulingManager T
  unfolding tick
  ticks g t [] = g
  ticks g t (d ∷ ds) = ticks (tick g t d) t ds

  -- The durations, scaled.
  unfoldable pub charged : ℕ → List ℤ → ℤ
  charged factor [] = pos 0
  charged factor (d ∷ ds) = f.times₂ d factor global +ℤ charged factor ds

  module _ (leaves : LeavesThreads c) where
    pub scaled_by :
        (s : VexThreadState) (factor : ℕ)
        → s.timers.virtual_time_speedup ≡ factor
        → (factor == float_one) ≡ false
        → is_scaled s ≡ true
    scaled_by s factor e n = ap (λ k. not (k == float_one)) e ∙ ap not n

    -- The thread once its time is updated.
    abbrev updated : VexThreadState → ℤ → ℤ → VexThreadState
    updated s slot d = record (clear_barrier s slot) {
      timers = add_local_time f global (clear_barrier s slot).timers d;
    }

    update-thread :
        (g : SchedulingManager T) (t : ℕ) (d : ℤ)
        → is_scaled (thread g.manager t) ≡ true
        → thread (lockless_update_time_by H c f global g t d).manager t
          ≡ updated (thread g.manager t) g.scheduler_timeslot d
    unfolding lockless_update_time_by
    update-thread g t d scaled =
        let s' = updated (thread g.manager t) g.scheduler_timeslot d in
        elim (Bool-cases (is_native_waiting s')) [
          | inl w ↦ rw (==_refl t, scaled, w) (leaves.native g.manager.timeline s')
          | inr w ↦ rw (==_refl t, scaled, w) (leaves.cpu g.manager.timeline s')
        ]

    updated-times :
        (s : VexThreadState) (factor : ℕ) (time slot d : ℤ)
        → s.timers.virtual_time_speedup ≡ factor
        → s.timers.estimated_real_time ≡ time +ℤ slot
        → ((updated s slot d).timers.virtual_time_speedup ≡ factor)
          × ((updated s slot d).timers.estimated_real_time ≡ time +ℤ f.times₂ d factor global)
    unfolding clear_barrier clear_synchronization_barrier_time add_local_time add_elapsed_time
    updated-times s factor time slot d e ert = (
      e,
      subst
          (λ k.
            s.timers.estimated_real_time -ℤ slot +ℤ f.times₂ d k global
            ≡ time +ℤ f.times₂ d factor global)
          (sym e)
          (charged_time s.timers.estimated_real_time time slot (f.times₂ d factor global) ert),
    )

    -- The queue when the barrier of a thread that is kept running is put up.
    abbrev raised : SchedulingManager T → ℕ → ThreadQueue
    raised g t =
        let s = thread g.manager t in
        let controlled =
          set_thread_currently_controlling_manager s.scheduling (some g.manager.manager_id) in
        let s' = record s { scheduling = controlled } in
        record (g.manager.runnable_threads) {
          threads =
              put (put g.manager.runnable_threads.threads t s') t
                (set_barrier s' g.scheduler_timeslot);
        }

    keep-StandsAt :
        (g : SchedulingManager T) (t factor : ℕ) (time : ℤ)
        → (factor == float_one) ≡ false
        → (thread g.manager t).timers.virtual_time_speedup ≡ factor
        → (thread g.manager t).timers.estimated_real_time ≡ time
        → count t g.manager.runnable_threads.queue ≡ 1
        → StandsAt (on_intention_to_keep_on_running H c f global g t) t factor time
    unfolding on_intention_to_keep_on_running update_runnable_queue set_barrier
        set_synchronization_barrier_time
    keep-StandsAt g t factor time n e ert once =
        let scaled = scaled_by (thread g.manager t) factor e n in
        rw scaled (
          refl,
          (
            rw (==_refl t) e,
            (
              (update-erase-Ordered H (raised g t) t).0.1 t ∙ once,
              (
                (update-erase-Ordered H (raised g t) t).0.0,
                rw (==_refl t) (ap (λ z. z +ℤ g.scheduler_timeslot) ert),
              ),
            ),
          ),
        )

    tick-StandsAt :
        (g : SchedulingManager T) (t factor : ℕ) (time d : ℤ)
        → (factor == float_one) ≡ false
        → StandsAt g t factor time
        → StandsAt (tick g t d) t factor (time +ℤ f.times₂ d factor global)
    unfolding tick lockless_update_time_by
    tick-StandsAt g t factor time d n (running, (e, (once, (order, ert)))) =
        let s = thread g.manager t in
        let w = update-thread g t d (scaled_by s factor e n) in
        let (e', ert') = updated-times s factor time g.scheduler_timeslot d e ert in
        keep-StandsAt (lockless_update_time_by H c f global g t d) t factor _ n
          (ap (λ z. z.timers.virtual_time_speedup) w ∙ e')
          (ap (λ z. z.timers.estimated_real_time) w ∙ ert') once

    pub ticks-StandsAt :
        (g : SchedulingManager T) (t factor : ℕ) (time : ℤ) (ds : List ℤ)
        → (factor == float_one) ≡ false
        → StandsAt g t factor time
        → StandsAt (ticks g t ds) t factor (time +ℤ charged factor ds)
    unfolding ticks charged
    ticks-StandsAt g t factor time [] n stands =
        subst (StandsAt g t factor) (sym (added_nothing time)) stands
    ticks-StandsAt g t factor time (d ∷ ds) n stands =
        let added = f.times₂ d factor global in
        subst (StandsAt (ticks (tick g t d) t ds) t factor)
          (added_twice time added (charged factor ds))
          (ticks-StandsAt (tick g t d) t factor (time +ℤ added) ds n
            (tick-StandsAt g t factor time d n stands))
