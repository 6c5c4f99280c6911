-- ===== src/Manager/Leaps/Unmoved.antt =====
-- When a manager lets virtual time leap.
use vexjine.Common.{
  +ℤ_parts, -ℤ_parts, eq_of_parts, subst, ==_iff, ltb_ℤ→lt, ◌<ℤ◌, ◌≡◌, ◌≢◌, ◌⊎◌, inl, inr, refl,
  sym, ◌∙◌, ◌==◌, Bool, Bool-cases, true, false, some, List, [], ◌∷◌, ℤ, pos, ◌+ℤ◌, ◌-ℤ◌, ◌≤ℤ◌,
  ltb_ℤ, eqb_ℤ, arith, if◌then◌else◌,
}
use vexjine.Registries.Threads.Activity.{
  Activity, at_least_one_alive, maybe_one_alive, none_alive,
  are_any_other_threads_active_in_former_time, get_summed_ert_of_all_threads,
}
use vexjine.Timeline.Controllers.{VirtualTimelineController}
use vexjine.Manager.Leaps.{
  LeapMemory, new_leap_memory, LeapCall, poll_progress, leap_by_activity,
  is_valid_to_leap_in_virtual_time_to,
}

-- A poll that allows a leap.
poll-granted :
    (p : LeapMemory) (summed : ℤ) (blocked : Bool) (now : ℤ)
    → (poll_progress p summed blocked now).1 ≡ true
    → (p.last_total_thread_ert ≢ pos 0)
      × (((p.last_global_virtual_time +ℤ pos 200_000_000) ≤ℤ now)
          × ((summed ≡ p.last_total_thread_ert) × (blocked ≡ true)))
unfolding poll_progress
poll-granted p summed blocked now e = ground (
  arith,
  -ℤ_parts now p.last_global_virtual_time,
  +ℤ_parts p.last_global_virtual_time (pos 200_000_000),
  eq_of_parts summed p.last_total_thread_ert,
)

-- The call's branches, by waiting, being late, and no pending notification.
branches :
    (waiting late quiet : Bool) (p z : LeapMemory) (x : LeapMemory × Bool)
    → (if waiting
        then (p, false)
        else if late
        then (p, true)
        else if quiet
        then x
        else (z, false)).1
      ≡ true
    → (waiting ≡ false) × ((late ≡ true) ⊎ ((quiet ≡ true) × (x.1 ≡ true)))
branches true late quiet p z x e = absurd (cc)
branches false true quiet p z x e = (refl, inl refl)
branches false false true p z x e = (refl, inr (refl, e))
branches false false false p z x e = absurd (cc)

module _ {T : Type 0} where
  abbrev sum_at : LeapCall T → ℤ
  sum_at k = get_summed_ert_of_all_threads k.thread_registry

  abbrev pub IsCallIn : LeapCall T → List (LeapCall T) → Type 0
  IsCallIn k [] = ⊥
  IsCallIn k (j ∷ ks) = (j ≡ k) ⊎ IsCallIn k ks

  -- The memory comes from a call of the history, or is empty.
  abbrev Remembers : LeapMemory → List (LeapCall T) → Type 0
  Remembers p ks =
      (p.last_total_thread_ert ≡ pos 0)
      ⊎ ((k : LeapCall T) × (IsCallIn k ks
            × ((sum_at k ≡ p.last_total_thread_ert) × (k.real_time ≡ p.last_global_virtual_time))))

  -- An earlier call, at least 200 ms before, has found the same sum of times.
  abbrev pub Unmoved : LeapCall T → List (LeapCall T) → Type 0
  Unmoved k ks =
      (j : LeapCall T) × (IsCallIn j ks
        × ((sum_at j ≡ sum_at k) × ((j.real_time +ℤ pos 200_000_000) ≤ℤ k.real_time)))

  Remembers-later :
      (p : LeapMemory) (k : LeapCall T) (ks : List (LeapCall T))
      → Remembers p ks
      → Remembers p (k ∷ ks)
  Remembers-later p k ks (inl z) = inl z
  Remembers-later p k ks (inr (j, (i, e))) = inr (j, (inr i, e))

  branches-Remembers :
      (waiting late quiet : Bool) (p z : LeapMemory) (x : LeapMemory × Bool)
      (ks : List (LeapCall T))
      → Remembers p ks
      → Remembers x.0 ks
      → z.last_total_thread_ert ≡ pos 0
      → Remembers
          (if waiting
            then (p, false)
            else if late
            then (p, true)
            else if quiet
            then x
            else (z, false)).0
          ks
  branches-Remembers true late quiet p z x ks kept polled cleared = kept
  branches-Remembers false true quiet p z x ks kept polled cleared = kept
  branches-Remembers false false true p z x ks kept polled cleared = polled
  branches-Remembers false false false p z x ks kept polled cleared = inl cleared

  poll-Remembers :
      (p : LeapMemory) (k : LeapCall T) (ks : List (LeapCall T))
      → Remembers p ks
      → Remembers (poll_progress p (sum_at k) k.all_native_waiting_blocked k.real_time).0 (k ∷ ks)
  unfolding poll_progress
  poll-Remembers p k ks h = elim (Bool-cases (eqb_ℤ p.last_total_thread_ert (pos 0))) [
    | inl a ↦ rw a (inr (k, (inl refl, (refl, refl))))
    | inr a ↦
        elim (Bool-cases (ltb_ℤ (k.real_time -ℤ p.last_global_virtual_time) (pos 200_000_000))) [
          | inl b ↦ rw (a, b) (Remembers-later p k ks h)
          | inr b ↦ rw (a, b) (inl refl)
        ]
  ]

  -- A leap that the poll allows.
  poll-Unmoved :
      (p : LeapMemory) (k : LeapCall T) (ks : List (LeapCall T))
      → Remembers p ks
      → (poll_progress p (sum_at k) k.all_native_waiting_blocked k.real_time).1 ≡ true
      → (k.all_native_waiting_blocked ≡ true) × Unmoved k ks
  unfolding poll_progress
  poll-Unmoved p k ks h e =
      let (n, (late, (same, blocked))) =
        poll-granted p (sum_at k) k.all_native_waiting_blocked k.real_time e in
      elim h [
        | inl z ↦ absurd (n z)
        | inr (j, (i, (sum, time))) ↦ (
          blocked,
          (
            j,
            (
              i,
              (sum ∙ sym same, subst (λ t. (t +ℤ pos 200_000_000) ≤ℤ k.real_time) (sym time) late),
            ),
          ),
        )
      ]

  activity-Remembers :
      (p : LeapMemory) (k : LeapCall T) (ks : List (LeapCall T)) (a : Activity)
      → Remembers p ks
      → Remembers
          (leap_by_activity p a (sum_at k) k.all_native_waiting_blocked k.real_time).0
          (k ∷ ks)
  unfolding leap_by_activity
  activity-Remembers p k ks at_least_one_alive h = inl refl
  activity-Remembers p k ks maybe_one_alive h = poll-Remembers p k ks h
  activity-Remembers p k ks none_alive h = Remembers-later p k ks h

  activity-granted :
      (p : LeapMemory) (k : LeapCall T) (ks : List (LeapCall T)) (a : Activity)
      → Remembers p ks
      → (leap_by_activity p a (sum_at k) k.all_native_waiting_blocked k.real_time).1 ≡ true
      → (a ≡ none_alive)
        ⊎ ((a ≡ maybe_one_alive) × ((k.all_native_waiting_blocked ≡ true) × Unmoved k ks))
  unfolding leap_by_activity
  activity-granted p k ks at_least_one_alive h e = absurd (cc)
  activity-granted p k ks maybe_one_alive h e = inr (refl, poll-Unmoved p k ks h e)
  activity-granted p k ks none_alive h e = inl refl

  module _ (c : VirtualTimelineController T) where
    -- The memory after a history of calls, the latest one first.
    abbrev pub memory_after : List (LeapCall T) → LeapMemory
    memory_after [] = new_leap_memory
    memory_after (k ∷ ks) = (is_valid_to_leap_in_virtual_time_to c (memory_after ks) k).0

    abbrev pub remaining_time : LeapCall T → ℤ
    remaining_time k =
        c.get_how_far_ahead_in_virtual_time_the_thread_is k.timeline
          (k.thread_registry.threads k.state)

    abbrev pub activity_at : LeapCall T → Activity
    activity_at k =
        are_any_other_threads_active_in_former_time k.thread_registry k.state
          (some (remaining_time k))

    -- The grounds of a leap.
    abbrev pub Justified : LeapCall T → List (LeapCall T) → Type 0
    Justified k ks =
        (remaining_time k <ℤ pos 0)
        ⊎ ((k.pending_notifications ≡ 0)
            × ((activity_at k ≡ none_alive)
                ⊎ ((activity_at k ≡ maybe_one_alive)
                    × ((k.all_native_waiting_blocked ≡ true) × Unmoved k ks))))

    after-Remembers : (ks : List (LeapCall T)) → Remembers (memory_after ks) ks
    unfolding is_valid_to_leap_in_virtual_time_to
    after-Remembers [] = inl refl
    after-Remembers (k ∷ ks) =
        let p = memory_after ks in
        let h = after-Remembers ks in
        branches-Remembers k.waiting_in_real_time (ltb_ℤ (remaining_time k) (pos 0))
          (k.pending_notifications == 0) p (record p { last_total_thread_ert = pos 0 })
          (leap_by_activity p (activity_at k) (sum_at k) k.all_native_waiting_blocked k.real_time)
          (k ∷ ks) (Remembers-later p k ks h) (activity-Remembers p k ks (activity_at k) h) refl

    -- A leap to a thread that is not behind the clock is allowed only while no notification is
    -- pending, and either if no other thread is alive, or if one may be alive, the system reports
    -- all native waiting threads blocked, and an earlier call of the history, at least 200 ms
    -- before, found the same sum of all threads' times. Before the history the memory is empty.
    pub leap-Justified :
        (ks : List (LeapCall T)) (k : LeapCall T)
        → (is_valid_to_leap_in_virtual_time_to c (memory_after ks) k).1 ≡ true
        → (k.waiting_in_real_time ≡ false) × Justified k ks
    unfolding is_valid_to_leap_in_virtual_time_to
    leap-Justified ks k e =
        let p = memory_after ks in
        let (awake, grounds) =
          branches k.waiting_in_real_time (ltb_ℤ (remaining_time k) (pos 0))
            (k.pending_notifications == 0) p (record p { last_total_thread_ert = pos 0 })
            (leap_by_activity p (activity_at k) (sum_at k) k.all_native_waiting_blocked k.real_time)
            e in
        (
          awake,
          elim grounds [
            | inl late ↦ inl (ltb_ℤ→lt (remaining_time k) (pos 0) late)
            | inr (quiet, granted) ↦ inr (
              (==_iff k.pending_notifications 0).0 quiet,
              activity-granted p k ks (activity_at k) (after-Remembers ks) granted,
            )
          ],
        )
