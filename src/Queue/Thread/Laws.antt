-- ===== src/Queue/Thread/Laws.antt =====
-- What ThreadQueue's operations take, leave and answer.
use vexjine.Common.{
  ℕ, ◌+◌, ◌-◌, ◌≤◌, ◌==◌, ◌≡◌, ◌≢◌, ap, refl, subst, ◌∙◌, Bool, true, false, ◌||◌, ◌⊎◌, inl, inr,
  Bool-cases, Option, none, some, List, [], ◌∷◌, count, ℤ, ◌≤ℤ◌, arith, if◌then◌else◌, contains,
  contains-count, count-contains, erase_first, ==_iff, ==_refl,
}
use vexjine.Threads.State.{
  VexThreadState, is_suspended, is_native_waiting, is_running, in_io_prediction_phase,
  is_waiting_real_code_to_complete_after_model_simulation,
}
use vexjine.Queue.Heap.{HeapFunctions}
use vexjine.Queue.Priority
use vexjine.Queue.Priority.{top}
use vexjine.Queue.Priority.Laws.{Takes, top-Takes, count-push, count-erase, push-IsHeap}
use vexjine.Queue.Thread.{
  ThreadQueue, key, same_manager, verdict, raise, highest, get_highest_runnable_time, take,
  get_next, act, act_for, get_next_for, push, update, erase,
}

-- The queue's heap is in order.
abbrev pub Ordered : HeapFunctions → ThreadQueue → Type 0
Ordered H q = H.IsHeap (key q.threads) q.queue

top-none : (c : List ℕ) → top c ≡ none → c ≡ []
unfolding top
top-none [] e = refl
top-none (x ∷ xs) e = absurd (cc)

module _ (H : HeapFunctions) where
  -- What a scheduler gets from `getNext()`: NULL and an untouched queue if it is empty; else the
  -- thread with the smallest timestamp, which alone leaves the queue.
  abbrev pub Taken : ThreadQueue → ThreadQueue → Option ℕ → Type 0
  Taken q q' none = (q.queue ≡ []) × (q' ≡ q)
  Taken q q' (some t) =
      (q'.threads ≡ q.threads) × (Takes H (key q.threads) q.queue t q'.queue × Ordered H q')

  take-Taken :
      (q : ThreadQueue) (o : Option ℕ)
      → top q.queue ≡ o
      → Ordered H q
      → Taken q (take H q o).0 (take H q o).1
  unfolding take Priority.pop
  take-Taken q none e h = (top-none q.queue e, refl)
  take-Taken q (some t) e h = (refl, top-Takes H (key q.threads) q.queue t h e)

  -- `getNext()` answers NULL only for an empty queue, which it leaves as it is. Otherwise it
  -- answers a thread whose timestamp is no later than any queued one, takes exactly that thread
  -- from the queue, and leaves the queue in order. The queue is in order before.
  pub get_next-Taken : (q : ThreadQueue) → Ordered H q → Taken q (get_next H q).0 (get_next H q).1
  unfolding get_next
  get_next-Taken q h = take-Taken q (top q.queue) refl h

  -- What a scheduler gets from `getNext(manager)`: the thread on top is `t`, or there is none.
  pub data Answered (q : ThreadQueue) (manager : ℕ) (q' : ThreadQueue)
      : Option ℕ → Option ℕ → Type 0 where
    nobody : q.queue ≡ [] → q' ≡ q → Answered q manager q' none none
    runs : {t : ℕ} → is_running (q.threads t) ≡ true → q' ≡ q → Answered q manager q' (some t) none
    predicts :
        {t : ℕ}
        → in_io_prediction_phase (q.threads t) ≡ true
        → q' ≡ q
        → Answered q manager q' (some t) (some t)
    completes :
        {t : ℕ}
        → is_waiting_real_code_to_complete_after_model_simulation (q.threads t) ≡ true
        → (q.threads t).scheduling.thread_currently_controlling_manager ≡ some manager
        → q' ≡ q
        → Answered q manager q' (some t) (some t)
    completes_elsewhere :
        {t : ℕ}
        → is_waiting_real_code_to_complete_after_model_simulation (q.threads t) ≡ true
        → (q.threads t).scheduling.thread_currently_controlling_manager ≢ some manager
        → q' ≡ q
        → Answered q manager q' (some t) none
    goes_on :
        {t : ℕ}
        → is_running (q.threads t) ≡ false
        → in_io_prediction_phase (q.threads t) ≡ false
        → is_waiting_real_code_to_complete_after_model_simulation (q.threads t) ≡ false
        → Taken q q' (some t)
        → Answered q manager q' (some t) (some t)

  controlled : (o : Option ℕ) (m : ℕ) → same_manager o m ≡ true → o ≡ some m
  unfolding same_manager
  controlled none m e = absurd (cc)
  controlled (some n) m e = ap some ((==_iff n m).0 e)

  not_controlled : (o : Option ℕ) (m : ℕ) → same_manager o m ≡ false → o ≢ some m
  unfolding same_manager
  not_controlled none m e h = cc
  not_controlled (some n) m e h = ground (arith, ==_iff n m)

  act-Answered :
      (q : ThreadQueue) (manager t : ℕ)
      → top q.queue ≡ some t
      → Ordered H q
      → let (q', r) = act H q t (verdict (q.threads t) manager) in Answered q manager q' (some t) r
  unfolding act verdict take
  act-Answered q manager t e h =
      let s = q.threads t in
      let owner = s.scheduling.thread_currently_controlling_manager in
      elim (Bool-cases (is_running s)) [
        | inl y ↦ rw y (runs y refl)
        | inr n ↦ elim (Bool-cases (in_io_prediction_phase s)) [
          | inl y ↦ rw (n, y) (predicts y refl)
          | inr n' ↦ elim (Bool-cases (is_waiting_real_code_to_complete_after_model_simulation s)) [
            | inr n'' ↦ rw (n, n', n'') (goes_on n n' n'' (take-Taken q (some t) e h))
            | inl y ↦ elim (Bool-cases (same_manager owner manager)) [
              | inl m ↦ rw (n, n', y, m) (completes y (controlled owner manager m) refl)
              | inr m ↦
                  rw (n, n', y, m) (completes_elsewhere y (not_controlled owner manager m) refl)
            ]
          ]
        ]
      ]

  act_for-Answered :
      (q : ThreadQueue) (manager : ℕ) (o : Option ℕ)
      → top q.queue ≡ o
      → Ordered H q
      → Answered q manager (act_for H q manager o).0 o (act_for H q manager o).1
  unfolding act_for
  act_for-Answered q manager none e h = nobody (top-none q.queue e) refl
  act_for-Answered q manager (some t) e h = act-Answered q manager t e h

  -- `getNext(manager)` on a queue in order, by the state of the thread on top. There is none: it
  -- answers NULL. It runs: NULL. It predicts an I/O: that thread, which stays queued. It waits for
  -- real code to complete after a simulation: that thread, which stays queued, if the asking
  -- manager controls it, and NULL otherwise. In any other state: that thread, which has the
  -- smallest timestamp and alone leaves the queue. The queue changes in no other case.
  pub get_next_for-Answered :
      (q : ThreadQueue) (manager : ℕ)
      → Ordered H q
      → Answered q manager (get_next_for H q manager).0 (top q.queue) (get_next_for H q manager).1
  unfolding get_next_for
  get_next_for-Answered q manager h = act_for-Answered q manager (top q.queue) refl h

count-∷ : (u t : ℕ) (ts : List ℕ) → 1 ≤ count u (t ∷ ts) → (t ≡ u) ⊎ (1 ≤ count u ts)
unfolding count
count-∷ u t ts h = ground (arith, ==_iff t u)

∷-count : (u t : ℕ) (ts : List ℕ) → (t ≡ u) ⊎ (1 ≤ count u ts) → 1 ≤ count u (t ∷ ts)
unfolding count
∷-count u t ts h = ground (arith, ==_iff t u)

-- The thread does not run now, but can set the pace of those that do.
abbrev is_parked : VexThreadState → Bool
is_parked s = is_suspended s || is_native_waiting s

-- `r` is the greatest of `best` and the timestamps of the parked threads in the list.
abbrev Greatest : (ℕ → VexThreadState) → List ℕ → ℤ → ℤ → Type 0
Greatest threads ts best r =
    (best ≤ℤ r)
    × (((u : ℕ) → 1 ≤ count u ts → is_parked (threads u) ≡ true → key threads u ≤ℤ r)
        × ((r ≡ best)
            ⊎ ((u : ℕ) × ((1 ≤ count u ts)
                  × ((is_parked (threads u) ≡ true) × (r ≡ key threads u))))))

-- `b` is what one thread makes of `best`.
abbrev Raised : ℤ → Bool → ℤ → ℤ → Type 0
Raised ert parked best b =
    (best ≤ℤ b) × ((parked ≡ true → ert ≤ℤ b) × ((b ≡ best) ⊎ ((parked ≡ true) × (b ≡ ert))))

raise-Raised : (ert : ℤ) (parked : Bool) (best : ℤ) → Raised ert parked best (raise ert parked best)
unfolding raise
raise-Raised ert false best = ground arith
raise-Raised ert true best = ground arith

Greatest-∷ :
    (threads : ℕ → VexThreadState) (t : ℕ) (ts : List ℕ) (best b r : ℤ)
    → Raised (key threads t) (is_parked (threads t)) best b
    → Greatest threads ts b r
    → Greatest threads (t ∷ ts) best r
Greatest-∷ threads t ts best b r (up, (mine, from)) (up', (all, from')) = (
  omega arith,
  (
    λ u c p. elim (count-∷ u t ts c) [
      | inl e ↦
          subst (λ z. is_parked (threads z) ≡ true → key threads z ≤ℤ r) e
            (λ p'. let m = mine p' in omega arith) p
      | inr c' ↦ all u c' p
    ],
    elim from' [
      | inr (x, (c, pk)) ↦ inr (x, (∷-count x t ts (inr c), pk))
      | inl e ↦ elim from [
        | inl e' ↦ inl (e ∙ e')
        | inr (p, e') ↦ inr (t, (∷-count t t ts (inl refl), (p, e ∙ e')))
      ]
    ],
  ),
)

highest-Greatest :
    (threads : ℕ → VexThreadState) (ts : List ℕ) (best : ℤ)
    → Greatest threads ts best (highest threads ts best)
unfolding highest count
highest-Greatest threads [] best = (omega arith, ((λ u c. absurd (omega arith)), inl refl))
highest-Greatest threads (t ∷ ts) best =
    let b = raise (key threads t) (is_parked (threads t)) best in
    Greatest-∷ threads t ts best b (highest threads ts b)
      (raise-Raised (key threads t) (is_parked (threads t)) best) (highest-Greatest threads ts b)

-- `getHighestRunnableTime` answers the greatest of the asking thread's timestamp and the
-- timestamps of the queued threads that are suspended or in native waiting: no such timestamp is
-- above it, and it is one of them.
get_highest_runnable_time-Greatest :
    (q : ThreadQueue) (asking : ℕ)
    → Greatest q.threads q.queue (key q.threads asking) (get_highest_runnable_time q asking)
unfolding get_highest_runnable_time
get_highest_runnable_time-Greatest q asking =
    highest-Greatest q.threads q.queue (key q.threads asking)

pub absent : (t : ℕ) (c : List ℕ) → count t c ≡ 0 → Priority.find c t ≡ false
unfolding Priority.find
absent t c h = elim (Bool-cases (contains t c)) [
  | inl y ↦ absurd (omega (arith, contains-count t c y))
  | inr n ↦ n
]

present : (t : ℕ) (c : List ℕ) → 1 ≤ count t c → Priority.find c t ≡ true
unfolding Priority.find
present t c h = elim (Bool-cases (contains t c)) [
  | inl y ↦ y
  | inr n ↦ absurd (omega (arith, count-contains t c n))
]

module _ (H : HeapFunctions) where
  -- Pushing a thread that is not queued yet succeeds. The queue then holds it once, holds the
  -- others as before, and is in order, as it was.
  pub push-Ordered :
      (q : ThreadQueue) (t : ℕ)
      → Ordered H q
      → count t q.queue ≡ 0
      → (q' : ThreadQueue) × ((push H q t ≡ some q')
          × ((q'.threads ≡ q.threads)
              × (((u : ℕ) → count u q'.queue ≡ count u q.queue + (if t == u then 1 else 0))
                  × Ordered H q')))
  unfolding push
  push-Ordered q t h c =
      let k = key q.threads in
      let queue' = Priority.push H k q.queue t in
      let added = count-push H k q.queue t in
      let a = absent t q.queue c in
      let p = present t queue' (ground (arith, ==_refl t, added t)) in
      (record q { queue = queue' }, (ground arith, (refl, (added, push-IsHeap H k q.queue t h))))

  -- `update` puts the queue in order, whatever the timestamps have become, and keeps its threads.
  -- `erase` takes out one occurrence of the thread, where there is one, and puts the rest in order.
  pub update-erase-Ordered :
      (q : ThreadQueue) (t : ℕ)
      → (Ordered H (update H q) × ((u : ℕ) → count u (update H q).queue ≡ count u q.queue))
        × (Ordered H (erase H q t)
            × ((u : ℕ)
                → count u (erase H q t).queue
                  ≡ (if t == u then count u q.queue - 1 else count u q.queue)))
  unfolding update erase Priority.update Priority.erase
  update-erase-Ordered q t =
      let k = key q.threads in
      (
        (H.make_heap-IsHeap k q.queue, H.count-make_heap k q.queue),
        (H.make_heap-IsHeap k (erase_first t q.queue), count-erase H k q.queue t),
      )
