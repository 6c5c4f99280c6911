-- ===== src/Timeline/Controllers/Cores.antt =====
-- A thread and the clock of its core after the commits of a MultipleVirtualTimelinesController.
use mathlib.Core.Option
use vexjine.Common.{
  ℕ, ◌<◌, ◌≡◌, ap, sym, refl, List, ◌∙◌, subst, true, length, set, ℤ, ◌≤ℤ◌, max_ℤ, max_ℤ_bounds,
  eqb_ℤ, eq_of_parts, pos_part, neg_part, ◌+◌, Bool-cases, inl, inr, ==_iff, arith, ==_refl,
}
use vexjine.Threads.State.{VexThreadState}
use vexjine.Threads.Timers
use vexjine.Threads.Timers.Waiting
use vexjine.Timeline.Multicore
use vexjine.Timeline.Multicore.{MulticoreVirtualTimeline, time_at, get_local_time}
use vexjine.Timeline.Multicore.Clocks.{local_after-update, time_at-set, leap_forward_to-local}
use vexjine.Timeline.Multicore.Commits.{Commit, leaps, activates, commit}
use vexjine.Timeline.Multicore.Local.{
  AllForward, commit_all, commit_all-forward, length-commit, length-commit_all,
}
use vexjine.Timeline.Controllers.Multiple.{
  commit_io_time_progress, commit_timed_waiting_progress,
  update_resuming_suspended_thread_resumed_last_timestamp, leap_after_reading,
}

leap-own :
    (m : MulticoreVirtualTimeline) (time : ℤ) (id : ℕ)
    → id < length m.local_core_virtual_times
    → get_local_time (Multicore.leap_forward_to m time id) id ≡ max_ℤ (get_local_time m id) time
unfolding get_local_time
leap-own m time id h = ground (arith, leap_forward_to-local m time id id h, ==_refl id)

-- When the end of an I/O or of a timed wait has been committed, the clock of the manager's core has
-- reached the thread's timestamp. The index is a core's.
pub commit-reached :
    (id : ℕ) (m : MulticoreVirtualTimeline) (s : VexThreadState) (actual : ℤ)
    → id < length m.local_core_virtual_times
    → (let (m', s') = commit_io_time_progress id m s actual in
        s'.timers.estimated_real_time ≤ℤ get_local_time m' id)
      × (let (m', s') = commit_timed_waiting_progress id m s in
          s'.timers.estimated_real_time ≤ℤ get_local_time m' id)
unfolding commit_io_time_progress commit_timed_waiting_progress
commit-reached id m s actual h =
    let local = get_local_time m id in
    let io = (Waiting.update_io_waiting_time_from s.timers local actual).estimated_real_time in
    let timed = (Waiting.update_waiting_time_from s.timers local).estimated_real_time in
    (
      subst (λ z. io ≤ℤ z) (sym (leap-own m io id h)) (max_ℤ_bounds local io).1,
      subst (λ z. timed ≤ℤ z) (sym (leap-own m timed id h)) (max_ℤ_bounds local timed).1,
    )

leap-ert :
    (t : Timers.Timers) (time : ℤ)
    → (Timers.leap_forward_to t time).estimated_real_time ≡ max_ℤ t.estimated_real_time time
unfolding Timers.leap_forward_to
leap-ert t time = ground arith

max_absorb : (a b : ℤ) → max_ℤ b (max_ℤ a b) ≡ max_ℤ a b
max_absorb a b = ground (arith, eq_of_parts a b, eq_of_parts b a)

resumed-activated :
    (id : ℕ) (m : MulticoreVirtualTimeline) (s : VexThreadState) (now : ℤ)
    → id < length m.local_core_virtual_times
    → let (m', s') = update_resuming_suspended_thread_resumed_last_timestamp id m s now in
      s'.timers.estimated_real_time ≡ get_local_time m' id
unfolding update_resuming_suspended_thread_resumed_last_timestamp Timers.update_times_after_resuming
    Multicore.get_local_timeline_activation_time get_local_time
resumed-activated id m s now h =
    let ert = s.timers.estimated_real_time in
    let time = max_ℤ (time_at m.local_core_virtual_times id) ert in
    let times = set m.local_core_virtual_times id time in
    let m' : MulticoreVirtualTimeline = record m {
      local_core_virtual_times = times;
      local_core_active = Option.map (λ a. set a id true) m.local_core_active;
    } in
    let own : time_at times id ≡ time =
      ground (arith, time_at-set m.local_core_virtual_times id id time h, ==_refl id) in
    leap-ert s.timers (time_at times id)
    ∙ ap (max_ℤ ert) own
    ∙ max_absorb (time_at m.local_core_virtual_times id) ert
    ∙ sym own
    ∙ sym (ap (λ z. time_at z id) (local_after-update m' ert))

length-resumed :
    (id : ℕ) (m : MulticoreVirtualTimeline) (s : VexThreadState) (now : ℤ)
    → length
        (update_resuming_suspended_thread_resumed_last_timestamp id m s
          now).0.local_core_virtual_times
      ≡ length m.local_core_virtual_times
unfolding update_resuming_suspended_thread_resumed_last_timestamp
length-resumed id m s now =
    unfold commit in length-commit m (activates s.timers.estimated_real_time id)

≤ℤ-trans : (a b c : ℤ) → a ≤ℤ b → b ≤ℤ c → a ≤ℤ c
≤ℤ-trans a b c h k = omega arith

-- The clock that the leap finds has reached the time that was read.
leap_after-reached :
    (id : ℕ) (time : ℤ) (m : MulticoreVirtualTimeline) (s : VexThreadState)
    → id < length m.local_core_virtual_times
    → time ≤ℤ get_local_time m id
    → let (m', s') = leap_after_reading id time m s in
      s'.timers.estimated_real_time ≤ℤ get_local_time m' id
unfolding leap_after_reading
leap_after-reached id time m s h reached =
    let ert = (Timers.leap_forward_to s.timers time).estimated_real_time in
    elim (Bool-cases (eqb_ℤ time ert)) [
      | inl e ↦
          rw e
            (ground (arith, ==_iff (pos_part time + neg_part ert) (pos_part ert + neg_part time)))
      | inr n ↦ rw n (
          subst (λ z. ert ≤ℤ z) (sym (leap-own m ert id h))
            (max_ℤ_bounds (get_local_time m id) ert).1)
    ]

length-leap_after :
    (id : ℕ) (time : ℤ) (m : MulticoreVirtualTimeline) (s : VexThreadState)
    → length (leap_after_reading id time m s).0.local_core_virtual_times
      ≡ length m.local_core_virtual_times
unfolding leap_after_reading
length-leap_after id time m s =
    let ert = (Timers.leap_forward_to s.timers time).estimated_real_time in
    elim (Bool-cases (eqb_ℤ time ert)) [
      | inl e ↦ rw e refl
      | inr n ↦ rw n (unfold commit in length-commit m (leaps ert id))
    ]

-- A thread that has been given its time to resume, by either function, is never ahead of its core's
-- clock, whatever other threads commit meanwhile: `between` the reading of the core's time and the
-- leap, and `since` the end of the function. The index is a core's, and no committed duration is
-- negative.
pub resumed-reached :
    (id : ℕ) (m : MulticoreVirtualTimeline) (s : VexThreadState) (now : ℤ)
    → (between since : List Commit) → id < length m.local_core_virtual_times
    → AllForward between
    → AllForward since
    → (let (m', s') = update_resuming_suspended_thread_resumed_last_timestamp id m s now in
        s'.timers.estimated_real_time ≤ℤ get_local_time (commit_all m' since) id)
      × (let (m', s') = leap_after_reading id (get_local_time m id) (commit_all m between) s in
          s'.timers.estimated_real_time ≤ℤ get_local_time (commit_all m' since) id)
unfolding get_local_time
resumed-reached id m s now between since h p q =
    let (m₁, s₁) = update_resuming_suspended_thread_resumed_last_timestamp id m s now in
    let same = resumed-activated id m s now h in
    let h₁ = subst (λ n. id < n) (sym (length-resumed id m s now)) h in
    let m' = commit_all m between in
    let h' = subst (λ n. id < n) (sym (length-commit_all m between)) h in
    let (m₂, s₂) = leap_after_reading id (get_local_time m id) m' s in
    let reached =
      leap_after-reached id (get_local_time m id) m' s h' (commit_all-forward m between id h p) in
    let h₂ = subst (λ n. id < n) (sym (length-leap_after id (get_local_time m id) m' s)) h' in
    (
      subst (λ z. z ≤ℤ time_at (commit_all m₁ since).local_core_virtual_times id) (sym same)
          (commit_all-forward m₁ since id h₁ q),
      ≤ℤ-trans s₂.timers.estimated_real_time (get_local_time m₂ id)
          (time_at (commit_all m₂ since).local_core_virtual_times id) reached
          (commit_all-forward m₂ since id h₂ q),
    )
