-- ===== src/Manager/Running.antt =====
-- The thread that a manager takes for the running one.
use vexjine.Common.{
  ℕ, ◌==◌, ◌≡◌, refl, ap, sym, ◌∙◌, subst, Bool, true, false, inl, inr, Bool-cases, none, some,
  if◌then◌else◌, arith, ==_refl,
}
use vexjine.Threads.Code.{eq_code, ordinal}
use vexjine.Threads.State.{
  VexThreadState, is_running, set_new_state, set_running, set_in_system_call,
}
use vexjine.Queue.Heap.{HeapFunctions}
use vexjine.Queue.Thread
use vexjine.Queue.Thread.{ThreadQueue}
use vexjine.Manager.{
  ThreadManager, thread, set_thread, is_thread, another_thread_already_set_running,
  change_thread_state_to_running, unset_current_thread_from_running_thread, set_waiting_thread,
  set_system_call_thread, push_into_runnable_queue, set_suspended_and_push_to_runnables,
  set_timed_waiting_thread, set_io_thread, set_suspended,
}

some-injective : {A : Type 0} → {t r : A} → some t ≡ some r → t ≡ r
some-injective {t = t} e = ap (λ o. elim o [ none ↦ t | some u ↦ u ]) e

module _ (H : HeapFunctions) {T : Type 0} where
  -- The moves of a manager, those that end in the queue where its assertion holds.
  pub data Moves : ThreadManager T → ThreadManager T → Type 0 where
    stays : (m : ThreadManager T) → Moves m m
    runs :
        {m n : ThreadManager T} (t : ℕ) → Moves m n → Moves m (change_thread_state_to_running n t).0
    waits : {m n : ThreadManager T} (t : ℕ) → Moves m n → Moves m (set_waiting_thread n t)
    calls_system :
        {m n : ThreadManager T} (t : ℕ) → Moves m n → Moves m (set_system_call_thread n t)
    suspends :
        {m n k : ThreadManager T} (t : ℕ) → Moves m n → set_suspended H n t ≡ some k → Moves m k
    suspends_and_pushes :
        {m n k : ThreadManager T} (t : ℕ)
        → Moves m n
        → set_suspended_and_push_to_runnables H n t ≡ some k
        → Moves m k
    waits_timed :
        {m n k : ThreadManager T} (t : ℕ)
        → Moves m n
        → set_timed_waiting_thread H n t ≡ some k
        → Moves m k
    starts_io :
        {m n k : ThreadManager T} (t : ℕ) (learning : Bool)
        → Moves m n
        → set_io_thread H n t learning ≡ some k
        → Moves m k

  -- The thread that the manager takes for the running one is in a running state.
  abbrev pub IsConsistent : ThreadManager T → Type 0
  IsConsistent m = (r : ℕ) → m.running_thread ≡ some r → is_running (thread m r) ≡ true

  unset-running :
      (m : ThreadManager T) (t r : ℕ)
      → (unset_current_thread_from_running_thread m t).running_thread ≡ some r
      → ((t == r) ≡ false) × (m.running_thread ≡ some r)
  unfolding unset_current_thread_from_running_thread is_thread
  unset-running m t r h = ground arith

  -- A thread that has been unset can change.
  unset-IsConsistent :
      (m : ThreadManager T) (t : ℕ) (s : VexThreadState)
      → IsConsistent m
      → IsConsistent (set_thread (unset_current_thread_from_running_thread m t) t s)
  unfolding unset_current_thread_from_running_thread
  unset-IsConsistent m t s c r h =
      let (n, e) = unset-running m t r h in
      elim (Bool-cases (is_thread m.running_thread t)) [
        | inl i ↦ rw (i, n) (c r e)
        | inr i ↦ rw (i, n) (c r e)
      ]

  push-threads :
      (m k : ThreadManager T) (t : ℕ)
      → push_into_runnable_queue H m t ≡ some k
      → (k.runnable_threads.threads ≡ m.runnable_threads.threads)
        × (k.running_thread ≡ m.running_thread)
  unfolding push_into_runnable_queue Thread.push
  push-threads m k t e = ground arith

  push-IsConsistent :
      (m k : ThreadManager T) (t : ℕ)
      → push_into_runnable_queue H m t ≡ some k
      → IsConsistent m
      → IsConsistent k
  push-IsConsistent m k t e c r h =
      let (threads, same) = push-threads m k t e in
      subst (λ f. is_running (f r) ≡ true) (sym threads) (c r (sym same ∙ h))

  changed-running :
      (m : ThreadManager T) (t : ℕ)
      → (change_thread_state_to_running m t).0.running_thread
        ≡ (if another_thread_already_set_running m t then m.running_thread else some t)
  unfolding change_thread_state_to_running
  changed-running m t = elim (Bool-cases (another_thread_already_set_running m t)) [
    | inl a ↦ rw a refl
    | inr a ↦ rw a refl
  ]

  run-IsConsistent :
      (m : ThreadManager T) (t : ℕ)
      → IsConsistent m
      → IsConsistent (change_thread_state_to_running m t).0
  unfolding change_thread_state_to_running set_running set_new_state is_running eq_code ordinal
  run-IsConsistent m t c r h = elim (Bool-cases (another_thread_already_set_running m t)) [
    | inl a ↦ rw a (
        c r (
          subst (λ b. (if b then m.running_thread else some t) ≡ some r) a
            (sym (changed-running m t) ∙ h)))
    | inr a ↦
        subst (λ u. is_running (thread (change_thread_state_to_running m t).0 u) ≡ true)
          (some-injective (
            subst (λ b. (if b then m.running_thread else some t) ≡ some r) a
              (sym (changed-running m t) ∙ h)))
          (rw (a, ==_refl t) refl)
  ]

  call-IsConsistent :
      (m : ThreadManager T) (t : ℕ) → IsConsistent m → IsConsistent (set_system_call_thread m t)
  unfolding set_system_call_thread set_in_system_call set_new_state is_running eq_code ordinal
  call-IsConsistent m t c r h = elim (Bool-cases (t == r)) [
    | inl e ↦ rw e refl
    | inr e ↦ rw e (c r h)
  ]

  may_push-IsConsistent :
      (m k : ThreadManager T) (t : ℕ) (blocks : Bool)
      → IsConsistent m
      → (if blocks then push_into_runnable_queue H m t else some m) ≡ some k
      → IsConsistent k
  may_push-IsConsistent m k t true c e = push-IsConsistent m k t e c
  may_push-IsConsistent m k t false c e = subst IsConsistent (some-injective e) c

  -- Any sequence of a manager's moves keeps the thread that it takes for the running one in a
  -- running state, if it is in one before: setting a thread running, waiting, in a system call, in
  -- I/O or suspended, with or without a place in the queue.
  pub Moves-IsConsistent : {m n : ThreadManager T} → Moves m n → IsConsistent m → IsConsistent n
  unfolding set_waiting_thread set_suspended set_suspended_and_push_to_runnables
      set_timed_waiting_thread set_io_thread
  Moves-IsConsistent (stays m) c = c
  Moves-IsConsistent (runs t ms) c = run-IsConsistent _ t (Moves-IsConsistent ms c)
  Moves-IsConsistent (waits t ms) c = unset-IsConsistent _ t _ (Moves-IsConsistent ms c)
  Moves-IsConsistent (calls_system t ms) c = call-IsConsistent _ t (Moves-IsConsistent ms c)
  Moves-IsConsistent (suspends t ms e) c =
      push-IsConsistent _ _ t e (unset-IsConsistent _ t _ (Moves-IsConsistent ms c))
  Moves-IsConsistent (suspends_and_pushes t ms e) c =
      push-IsConsistent _ _ t e (unset-IsConsistent _ t _ (Moves-IsConsistent ms c))
  Moves-IsConsistent (waits_timed t ms e) c =
      push-IsConsistent _ _ t e (unset-IsConsistent _ t _ (Moves-IsConsistent ms c))
  Moves-IsConsistent (starts_io t learning ms e) c =
      may_push-IsConsistent _ _ t _ (unset-IsConsistent _ t _ (Moves-IsConsistent ms c)) e
