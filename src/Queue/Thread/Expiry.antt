-- ===== src/Queue/Thread/Expiry.antt =====
-- The sweep over the expired I/O predictions at the front of the queue, which changes timestamps.
use vexjine.Common.{
  ℕ, zero, suc, ◌≤◌, ◌==◌, ◌≡◌, refl, ap, ◌∙◌, true, false, inl, inr, Bool-cases, some, List, [],
  ◌∷◌, length, count, ℤ, arith, put, ==_iff, ==_refl,
}
use vexjine.Threads.State.{VexThreadState}
use vexjine.Queue.Heap.{HeapFunctions}
use vexjine.Queue.Priority
use vexjine.Queue.Priority.{top}
use vexjine.Queue.Priority.Laws.{count-push, push-IsHeap, top-Takes}
use vexjine.Queue.Thread.{
  ThreadQueue, key, invalidate, expired, recursively_update_pending_io_requests,
  invalidate_expired_io_predictions,
}
use vexjine.Queue.Thread.Laws.{Ordered}

-- No thread is queued twice.
abbrev pub IsDistinct : List ℕ → Type 0
IsDistinct c = (u : ℕ) → count u c ≤ 1

outside : (c : List ℕ) (t u : ℕ) → count t c ≡ 0 → 1 ≤ count u c → (t == u) ≡ false
outside c t u out in' = elim (Bool-cases (t == u)) [
  | inl e ↦ let e' = (==_iff t u).0 e in absurd (omega (arith, ap (λ z. count z c) e'))
  | inr n ↦ n
]

module _ (H : HeapFunctions) where
  -- The same threads are queued, in order, and no other thread has changed.
  abbrev pub Kept : ThreadQueue → ThreadQueue → Type 0
  Kept q q' =
      ((u : ℕ) → count u q'.queue ≡ count u q.queue)
      × (Ordered H q' × ((u : ℕ) → count u q.queue ≡ 0 → q'.threads u ≡ q.threads u))

  kept : (q : ThreadQueue) → Ordered H q → Kept q q
  kept q h = ((λ u. refl), (h, λ u c. refl))

  -- The same where the thread `t`, which is not queued, can have changed too.
  abbrev Swept : ThreadQueue → ℕ → ThreadQueue → Type 0
  Swept q t q' =
      ((u : ℕ) → count u q'.queue ≡ count u q.queue)
      × (Ordered H q'
          × ((u : ℕ) → count u q.queue ≡ 0 → (t == u) ≡ false → q'.threads u ≡ q.threads u))

  abbrev popped : ThreadQueue → ThreadQueue
  popped q = record q { queue = Priority.pop H (key q.threads) q.queue }

  abbrev pushed : ThreadQueue → ℕ → ThreadQueue
  pushed q t = record q { queue = Priority.push H (key q.threads) q.queue t }

  -- A thread outside the heap can change without disturbing it.
  moved :
      (threads : ℕ → VexThreadState) (t u : ℕ) (s : VexThreadState)
      → (t == u) ≡ false
      → put threads t s u ≡ threads u
  moved threads t u s n = rw n refl

  pub put-Ordered :
      (q : ThreadQueue) (t : ℕ) (s : VexThreadState)
      → count t q.queue ≡ 0
      → Ordered H q
      → Ordered H (record q { threads = put q.threads t s })
  put-Ordered q t s c h =
      H.IsHeap-key (key q.threads) (key (put q.threads t s)) q.queue
        (λ u i.
          ap (λ s. s.timers.estimated_real_time) (moved q.threads t u s (outside q.queue t u c i)))
        h

  invalidate-Ordered :
      (q : ThreadQueue) (t : ℕ) → count t q.queue ≡ 0 → Ordered H q → Ordered H (invalidate H q t)
  unfolding invalidate
  invalidate-Ordered q t c h = put-Ordered q t _ c h

  invalidate-Swept :
      (q q' : ThreadQueue) (t : ℕ) → count t q.queue ≡ 0 → Kept q q' → Swept q t (invalidate H q' t)
  unfolding invalidate
  invalidate-Swept q q' t c (same, (h, others)) = (
    same,
    (invalidate-Ordered q' t (same t ∙ c) h, λ u c' n. moved q'.threads t u _ n ∙ others u c'),
  )

  restore-Kept :
      (q q' : ThreadQueue) (t : ℕ)
      → top q.queue ≡ some t
      → Ordered H q
      → Swept (popped q) t q'
      → Kept q (pushed q' t)
  restore-Kept q q' t e h (same, (h', others)) =
      let (took, _) = top-Takes H (key q.threads) q.queue t h e in
      (
        (λ u. ground (arith, count-push H (key q'.threads) q'.queue t u, same u, took.1 u)),
        (
          push-IsHeap H (key q'.threads) q'.queue t h',
          λ u c. let m = took.1 u in others u (ground arith) (ground arith),
        ),
      )

  sweep-step :
      (n : ℕ) (q q' : ThreadQueue) (t u : ℕ) (now : ℤ)
      → top q.queue ≡ some u
      → expired H (q.threads u) now ≡ true
      → recursively_update_pending_io_requests H n (popped q) u now ≡ some q'
      → recursively_update_pending_io_requests H (suc n) q t now
        ≡ some (invalidate H (pushed q' u) t)
  unfolding recursively_update_pending_io_requests
  sweep-step n q q' t u now e x r = rw (e, x, r, recursively_update_pending_io_requests) refl

  length-pop : (k : ℕ → ℤ) (u : ℕ) (us : List ℕ) → length (Priority.pop H k (u ∷ us)) ≡ length us
  unfolding Priority.pop
  length-pop k u us = H.length-pop_heap k u us

  sweep-Swept :
      (n : ℕ) (threads : ℕ → VexThreadState) (queue : List ℕ) (t : ℕ) (now : ℤ)
      → suc (length queue) ≤ n
      → H.IsHeap (key threads) queue
      → IsDistinct queue
      → count t queue ≡ 0
      → let q : ThreadQueue = record { threads = threads; queue = queue } in
        (q' : ThreadQueue) × ((recursively_update_pending_io_requests H n q t now ≡ some q')
          × Swept q t q')
  unfolding recursively_update_pending_io_requests top
  sweep-Swept zero threads queue t now f h d c = absurd (omega arith)
  sweep-Swept (suc n) threads [] t now f h d c =
      let q : ThreadQueue = record { threads = threads; queue = [] } in
      (invalidate H q t, (refl, invalidate-Swept q q t c (kept q h)))
  sweep-Swept (suc n) threads (u ∷ us) t now f h d c =
      let q : ThreadQueue = record { threads = threads; queue = u ∷ us } in
      let k = key threads in
      let took = (top-Takes H k (u ∷ us) u h refl).0 in
      elim (Bool-cases (expired H (threads u) now)) [
        | inl e ↦
            let (q', (r, swept)) =
              sweep-Swept n threads (popped q).queue u now (omega (arith, length-pop k u us))
                (top-Takes H k (u ∷ us) u h refl).1 (λ w. let m = took.1 w in ground (arith, d w))
                (let m = took.1 u in ground (arith, d u, ==_refl u)) in
            (
              invalidate H (pushed q' u) t,
              (
                sweep-step n q q' t u now refl e r,
                invalidate-Swept q (pushed q' u) t c (restore-Kept q q' u refl h swept),
              ),
            )
        | inr e ↦ (
          invalidate H q t,
          (
            rw (e, recursively_update_pending_io_requests) refl,
            invalidate-Swept q q t c (kept q h),
          ),
        )
      ]

  sweep_all :
      (threads : ℕ → VexThreadState) (queue : List ℕ) (now : ℤ)
      → H.IsHeap (key threads) queue
      → IsDistinct queue
      → let q : ThreadQueue = record { threads = threads; queue = queue } in
        (q' : ThreadQueue) × ((invalidate_expired_io_predictions H q now ≡ some q') × Kept q q')
  unfolding invalidate_expired_io_predictions top
  sweep_all threads [] now h d =
      let q : ThreadQueue = record { threads = threads; queue = [] } in (q, (refl, kept q h))
  sweep_all threads (u ∷ us) now h d =
      let q : ThreadQueue = record { threads = threads; queue = u ∷ us } in
      let k = key threads in
      let (took, h') = top-Takes H k (u ∷ us) u h refl in
      let (q', (r, swept)) =
        sweep-Swept (suc (length (u ∷ us))) threads (popped q).queue u now
          (omega (arith, length-pop k u us)) h' (λ w. let m = took.1 w in ground (arith, d w))
          (let m = took.1 u in ground (arith, d u, ==_refl u)) in
      (
        pushed q' u,
        (rw (r, invalidate_expired_io_predictions) refl, restore-Kept q q' u refl h swept),
      )

  -- On a queue in order in which no thread stands twice, the sweep ends with a queue: its fuel, the
  -- length of the queue and one more, is enough. The same threads are queued afterwards, the queue
  -- is in order under the timestamps that the sweep has changed, and no thread outside the queue
  -- has changed.
  pub invalidate_expired-Kept :
      (q : ThreadQueue) (now : ℤ)
      → Ordered H q
      → IsDistinct q.queue
      → (q' : ThreadQueue) × ((invalidate_expired_io_predictions H q now ≡ some q') × Kept q q')
  invalidate_expired-Kept q now h d = sweep_all q.threads q.queue now h d
