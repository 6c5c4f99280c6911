-- ===== src/Threads/Timers/Laws.antt =====
-- Laws of the clocks of one thread.
use vexjine.Common.{
  ℕ, zero, suc, ◌≡◌, refl, ap, ◌∙◌, ◌⊎◌, Bool-cases, inl, inr, pos_part, neg_part, Bool, true, List,
  [], ◌∷◌, ℤ, pos, ◌+ℤ◌, ◌-ℤ◌, ◌≤ℤ◌, ltb_ℤ, ltb, int_laws, ltb_ℤ→lt, ltb_ℤ→le, +ℤ_parts, -ℤ_parts,
  eq_of_parts, arith,
}
use vexjine.Threads.Timers.{
  Timers, FloatOps, add_global_time, update_times_after_resuming,
  get_current_virtual_timestamp_of_running_thread,
}
use vexjine.Threads.Timers.Waiting.{
  update_io_waiting_time_from, is_thread_still_blocked_in_monitor,
  set_timeout_flag_to_denote_possibly_resuming_thread,
}
use vexjine.Threads.Timers.Scaled.{
  add_local_time, add_local_io_time, update_thread_local_time_since_last_resume_to,
}

-- The timestamp that is committed to the timeline for a running thread is the thread's own.
abbrev pub IsInStep : Timers → Type 0
IsInStep t = get_current_virtual_timestamp_of_running_thread t ≡ t.estimated_real_time

-- The ways in which a running thread is charged for time.
pub data Charge : Type 0 where
  global_time local_time local_io_time preset : ℤ → Charge

+ℤ_zero : (a : ℤ) → a +ℤ pos 0 ≡ a
+ℤ_zero a = omega int_laws

moved : (a l e d : ℤ) → a +ℤ l ≡ e → a +ℤ (l +ℤ d) ≡ e +ℤ d
moved a l e d h = eq_of_parts _ _ (
    omega (
      arith,
      +ℤ_parts a l,
      +ℤ_parts l d,
      +ℤ_parts e d,
      +ℤ_parts a (l +ℤ d),
      ap pos_part h,
      ap neg_part h,
    ))

module _ (f : FloatOps) (global : ℕ) where
  unfoldable pub charge : Timers → Charge → Timers
  charge t (global_time d) = add_global_time t d
  charge t (local_time d) = add_local_time f global t d
  charge t (local_io_time d) = add_local_io_time f t d
  charge t (preset now) = update_thread_local_time_since_last_resume_to f global t now

  unfoldable pub charge_all : Timers → List Charge → Timers
  charge_all t [] = t
  charge_all t (c ∷ cs) = charge_all (charge t c) cs

  abbrev scaled : Timers → ℤ → ℤ
  scaled t d = f.times₂ d t.virtual_time_speedup global

  charge-IsInStep : (t : Timers) (c : Charge) → IsInStep t → IsInStep (charge t c)
  unfolding charge get_current_virtual_timestamp_of_running_thread add_global_time add_local_time
      add_local_io_time update_thread_local_time_since_last_resume_to
  charge-IsInStep t (global_time d) h = moved _ _ _ d h
  charge-IsInStep t (local_time d) h = moved _ _ _ (scaled t d) h
  charge-IsInStep t (local_io_time d) h = moved _ _ _ (f.times₁ d t.virtual_time_speedup) h
  charge-IsInStep t (preset now) h = elim (Bool-cases (ltb_ℤ (pos 0) (now -ℤ t.last_cpu_time))) [
    | inl later ↦ rw later (moved _ _ _ (scaled t (now -ℤ t.last_cpu_time)) h)
    | inr not_later ↦ rw not_later h
  ]

  after_resuming-IsInStep :
      (t : Timers) (resuming now : ℤ)
      → (t.dont_update_to_global_time ≡ true) ⊎ (resuming ≡ t.estimated_real_time)
      → IsInStep (update_times_after_resuming t resuming now)
  unfolding update_times_after_resuming get_current_virtual_timestamp_of_running_thread
  after_resuming-IsInStep t resuming now h =
      ground (arith, +ℤ_zero t.estimated_real_time, +ℤ_zero resuming)

  charge_all-IsInStep : (t : Timers) (cs : List Charge) → IsInStep t → IsInStep (charge_all t cs)
  unfolding charge_all
  charge_all-IsInStep t [] h = h
  charge_all-IsInStep t (c ∷ cs) h = charge_all-IsInStep (charge t c) cs (charge-IsInStep t c h)

  -- A thread that is resumed at its own time (or that keeps its time) is in step, and stays so
  -- however it is charged: what `commitCpuTimeProgress` commits is its estimated real time.
  pub resumed-IsInStep :
      (t : Timers) (resuming now : ℤ) (cs : List Charge)
      → (t.dont_update_to_global_time ≡ true) ⊎ (resuming ≡ t.estimated_real_time)
      → IsInStep (charge_all (update_times_after_resuming t resuming now) cs)
  resumed-IsInStep t resuming now cs h =
      charge_all-IsInStep (update_times_after_resuming t resuming now) cs
        (after_resuming-IsInStep t resuming now h)

-- The n-th answer, from 0, of a thread that is asked whether it is still blocked in a monitor.
poll : ℕ → Timers → Bool
poll zero t = (is_thread_still_blocked_in_monitor t).1
poll (suc n) t = poll n (is_thread_still_blocked_in_monitor t).0

poll_left :
    (n : ℕ) (t : Timers) (k : ℤ)
    → t.timeout ≡ pos 0
    → t.thread_still_blocked ≡ k
    → poll n t ≡ ltb_ℤ (pos n) k
unfolding poll is_thread_still_blocked_in_monitor
poll_left zero t k e b = ground arith
poll_left (suc n) t k e b =
    poll_left n _ (k -ℤ pos 1) (ground arith) (ground arith) ∙ ground (arith, -ℤ_parts k (pos 1))

-- A thread that may resume at any moment is taken as blocked for ten queries, and then no more.
poll-flagged :
    (t : Timers) (n : ℕ) → poll n (set_timeout_flag_to_denote_possibly_resuming_thread t) ≡ ltb n 10
unfolding set_timeout_flag_to_denote_possibly_resuming_thread
poll-flagged t n = poll_left n _ (pos 10) refl refl ∙ ground arith

-- Waiting for I/O is charged with the smaller of the time that the thread is ahead of the start and
-- the actual duration, and with nothing if it is not ahead.
pub io_waiting_charged :
    (t : Timers) (starting actual : ℤ)
    → pos 0 ≤ℤ actual
    → let t' = update_io_waiting_time_from t starting actual in
      (t.io_waiting_time ≤ℤ t'.io_waiting_time)
      × (t'.io_waiting_time ≤ℤ t.io_waiting_time +ℤ actual)
      × (starting ≤ℤ t.estimated_real_time
          → t'.io_waiting_time +ℤ starting ≤ℤ t.io_waiting_time +ℤ t.estimated_real_time)
      × (t'.estimated_real_time ≡ t.estimated_real_time)
unfolding update_io_waiting_time_from
io_waiting_charged t starting actual h =
    let leap = t.estimated_real_time -ℤ starting in
    elim (Bool-cases (ltb_ℤ (pos 0) leap)) [
      | inl ahead ↦
          let ahead' = ltb_ℤ→lt (pos 0) leap ahead in
          elim (Bool-cases (ltb_ℤ actual leap)) [
            | inl longer ↦
                let longer' = ltb_ℤ→lt actual leap longer in
                rw (ahead, longer) (omega int_laws, omega int_laws, λ q. omega int_laws, refl)
            | inr shorter ↦
                let shorter' = ltb_ℤ→le actual leap shorter in
                rw (ahead, shorter) (omega int_laws, omega int_laws, λ q. omega int_laws, refl)
          ]
      | inr behind ↦ rw behind (omega int_laws, omega int_laws, λ q. omega int_laws, refl)
    ]
