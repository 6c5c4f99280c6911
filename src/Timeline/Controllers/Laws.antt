-- ===== src/Timeline/Controllers/Laws.antt =====
-- Where the clocks and the threads stand after a commit, and what the log of the commits adds up to.
use vexjine.Common.{
  ◌≡◌, refl, ap, ◌∙◌, false, List, [], ◌∷◌, push_back, ℤ, pos, ◌+ℤ◌, ◌-ℤ◌, ◌≤ℤ◌, max_ℤ, int_laws,
  +ℤ_parts, -ℤ_parts, eq_of_parts, pos_part, neg_part, arith,
}
use vexjine.Threads.State.{VexThreadState}
use vexjine.Threads.Timers
use vexjine.Threads.Timers.Waiting
use vexjine.Timeline.Virtual
use vexjine.Timeline.Virtual.{VirtualTimeline}
use vexjine.Timeline.Virtual.Parallel.{leap_forward_to-bounds}
use vexjine.Timeline.Controllers.{VirtualTimelineController}
use vexjine.Timeline.Controllers.Single.{
  commit_cpu_time_progress, commit_io_time_progress, commit_timed_waiting_progress,
  update_resuming_suspended_thread_resumed_last_timestamp,
  get_how_far_ahead_in_virtual_time_the_thread_is,
}
use vexjine.Timeline.Controllers.Logged.{Entry, logged, statistics_enabled}

-- A thread that has run for `time` since it was resumed.
abbrev pub run_for : VexThreadState → ℤ → VexThreadState
run_for s time = record s { timers = record s.timers { local_time_since_last_resume = time } }

leap-exact : (g time u : ℤ) → u ≡ pos 0 → pos 0 ≤ℤ time → max_ℤ g (g +ℤ time +ℤ u) ≡ g +ℤ time
leap-exact g time u e h = ground (
  arith,
  +ℤ_parts g time,
  +ℤ_parts (g +ℤ time) u,
  eq_of_parts (g +ℤ time +ℤ u) (g +ℤ time),
  eq_of_parts g (g +ℤ time),
  ap pos_part e,
  ap neg_part e,
)

-- A thread that is resumed and then runs for some time moves the single clock by exactly that time
-- when its CPU time is committed, if it does not keep its own time, no native time is open, and
-- the clock has not moved in between.
pub resume-commit_cpu :
    (v : VirtualTimeline) (s : VexThreadState) (now time : ℤ)
    → s.timers.dont_update_to_global_time ≡ false
    → v.unknown_parallel_time ≡ pos 0
    → pos 0 ≤ℤ time
    → let (v', s') = update_resuming_suspended_thread_resumed_last_timestamp v s now in
      (commit_cpu_time_progress v' (run_for s' time)).0.global_virtual_time
      ≡ v.global_virtual_time +ℤ time
unfolding update_resuming_suspended_thread_resumed_last_timestamp commit_cpu_time_progress
    Timers.update_times_after_resuming Timers.get_current_virtual_timestamp_of_running_thread
    Virtual.leap_forward_to
resume-commit_cpu v s now time k u t =
    rw k (leap-exact v.global_virtual_time time v.unknown_parallel_time u t)

not_ahead : (ert g u g' : ℤ) → pos 0 ≤ℤ u → ert +ℤ u ≤ℤ g' → ert -ℤ g' ≤ℤ pos 0
not_ahead ert g u g' h l = omega (arith, +ℤ_parts ert u, -ℤ_parts ert g')

io-ert :
    (t : Timers.Timers) (from actual : ℤ)
    → (Waiting.update_io_waiting_time_from t from actual).estimated_real_time
      ≡ t.estimated_real_time
unfolding Waiting.update_io_waiting_time_from
io-ert t from actual = ground arith

-- No thread is ahead of the single clock once the end of its I/O or of its timed wait has been
-- committed: the clock has reached its timestamp. Open native time is not negative.
pub commit-not_ahead :
    (v : VirtualTimeline) (s : VexThreadState) (actual : ℤ)
    → pos 0 ≤ℤ v.unknown_parallel_time
    → (let (v', s') = commit_io_time_progress v s actual in
        get_how_far_ahead_in_virtual_time_the_thread_is v' s' ≤ℤ pos 0)
      × (let (v', s') = commit_timed_waiting_progress v s in
          get_how_far_ahead_in_virtual_time_the_thread_is v' s' ≤ℤ pos 0)
unfolding commit_io_time_progress commit_timed_waiting_progress
    get_how_far_ahead_in_virtual_time_the_thread_is
commit-not_ahead v s actual h =
    let io =
      (Waiting.update_io_waiting_time_from s.timers v.global_virtual_time
        actual).estimated_real_time in
    let timed =
      (Waiting.update_waiting_time_from s.timers v.global_virtual_time).estimated_real_time in
    (
      not_ahead io v.global_virtual_time v.unknown_parallel_time _ h
          (leap_forward_to-bounds v io).1,
      not_ahead timed v.global_virtual_time v.unknown_parallel_time _ h
          (leap_forward_to-bounds v timed).1,
    )

-- A commit of a manager.
pub data Progress : Type 0 where
  cpu timed_waiting native_waiting model_simulation : VexThreadState → Progress
  io : VexThreadState → ℤ → Progress
  background_load : ℤ → Progress

unfoldable pub make_progress : {T : Type 0} → VirtualTimelineController T → T → Progress → T
make_progress c t (cpu s) = (c.commit_cpu_time_progress t s).0
make_progress c t (io s actual) = (c.commit_io_time_progress t s actual).0
make_progress c t (timed_waiting s) = (c.commit_timed_waiting_progress t s).0
make_progress c t (native_waiting s) = (c.commit_native_waiting_progress t s).0
make_progress c t (model_simulation s) = (c.commit_model_simulation_progress t s).0
make_progress c t (background_load time) = c.commit_background_load_execution_time t time

unfoldable pub make_all : {T : Type 0} → VirtualTimelineController T → T → List Progress → T
unfolding make_progress
make_all c t [] = t
make_all c t (p ∷ ps) = make_all c (make_progress c t p) ps

-- The progress of the global clock that a log shows.
unfoldable pub measured : List Entry → ℤ
measured [] = pos 0
measured (e ∷ es) = (e.after.global_time -ℤ e.before.global_time) +ℤ measured es

measured-push_back :
    (log : List Entry) (e : Entry)
    → measured (push_back log e) ≡ measured log +ℤ (e.after.global_time -ℤ e.before.global_time)
unfolding measured
measured-push_back [] e = omega int_laws
measured-push_back (f ∷ log) e =
    ap (λ z. (f.after.global_time -ℤ f.before.global_time) +ℤ z) (measured-push_back log e)
    ∙ omega int_laws

module _ {T : Type 0} (c : VirtualTimelineController T) where
  abbrev global : T → ℤ
  global t = (c.get_current_time_snapshot t).global_time

  -- The statistics do not disturb the clocks.
  progress-logged :
      (t : T) (log : List Entry) (p : Progress)
      → ((make_progress (statistics_enabled c) (t, log) p).0 ≡ make_progress c t p)
        × (measured (make_progress (statistics_enabled c) (t, log) p).1
            ≡ measured log +ℤ (global (make_progress c t p) -ℤ global t))
  unfolding make_progress statistics_enabled logged
  progress-logged t log (cpu s) = (refl, measured-push_back log _)
  progress-logged t log (io s actual) = (refl, measured-push_back log _)
  progress-logged t log (timed_waiting s) = (refl, measured-push_back log _)
  progress-logged t log (native_waiting s) = (refl, measured-push_back log _)
  progress-logged t log (model_simulation s) = (refl, measured-push_back log _)
  progress-logged t log (background_load time) = (refl, measured-push_back log _)

  -- Whatever is committed, the clocks of the controller with statistics are those of the
  -- controller that it wraps, and the differences in its log add up to what the global clock has
  -- moved since the log was empty.
  pub make_all-measured :
      (t : T) (log : List Entry) (ps : List Progress)
      → ((make_all (statistics_enabled c) (t, log) ps).0 ≡ make_all c t ps)
        × (measured (make_all (statistics_enabled c) (t, log) ps).1
            ≡ measured log +ℤ (global (make_all c t ps) -ℤ global t))
  unfolding make_all
  make_all-measured t log [] = (refl, omega int_laws)
  make_all-measured t log (p ∷ ps) =
      let (t', log') = make_progress (statistics_enabled c) (t, log) p in
      let (e, m) = progress-logged t log p in
      let (e', m') = make_all-measured t' log' ps in
      (
        e' ∙ ap (λ z. make_all c z ps) e,
        m'
            ∙ ap (λ z. measured log' +ℤ (global (make_all c z ps) -ℤ global z)) e
            ∙ ap
                (λ z.
                  z
                  +ℤ (global (make_all c (make_progress c t p) ps) -ℤ global (make_progress c t p)))
                m
            ∙ omega int_laws,
      )
