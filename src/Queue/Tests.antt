-- ===== src/Queue/Tests.antt =====
-- The thread queue on small histories, with sorted lists for heaps.
use vexjine.Common.{ℕ, ◌≡◌, ◌≤◌, ◌==◌, true, false, some, [], ◌∷◌, count, pos, arith}
use vexjine.Threads.Samples.{thread_at}
use vexjine.Queue.Heap.Sorted.{sorted_heap}
use vexjine.Queue.Priority
use vexjine.Queue.Thread.{ThreadQueue, get_next, get_next_for, invalidate_expired_io_predictions}
use vexjine.Queue.Thread.Laws.{Ordered, Taken, Answered, get_next-Taken, get_next_for-Answered}
use vexjine.Queue.Thread.Expiry.{Kept, invalidate_expired-Kept}

-- Thread 1 at time 4 and thread 2 at time 9.
abbrev two_threads : ThreadQueue
two_threads = record {
  threads = λ t. elim (t == 1) [ true ↦ thread_at 1 (pos 4) | false ↦ thread_at t (pos 9) ];
  queue = 1 ∷ 2 ∷ [];
}

two-Ordered : Ordered sorted_heap two_threads
two-Ordered = ((omega arith, tt), (tt, tt))

get_next-Taken_example :
    Taken sorted_heap two_threads
      (get_next sorted_heap two_threads).0
      (get_next sorted_heap two_threads).1
get_next-Taken_example = get_next-Taken sorted_heap two_threads two-Ordered

get_next_for-Answered_example :
    Answered sorted_heap two_threads 1
      (get_next_for sorted_heap two_threads 1).0
      (some 1)
      (get_next_for sorted_heap two_threads 1).1
unfolding Priority.top
get_next_for-Answered_example = get_next_for-Answered sorted_heap two_threads 1 two-Ordered

two-IsDistinct : (u : ℕ) → count u two_threads.queue ≤ 1
unfolding count
two-IsDistinct u = ground arith

invalidate_expired-Kept_example :
    (q' : ThreadQueue) × ((invalidate_expired_io_predictions sorted_heap two_threads (pos 50)
        ≡ some q')
      × Kept sorted_heap two_threads q')
invalidate_expired-Kept_example =
    invalidate_expired-Kept sorted_heap two_threads (pos 50) two-Ordered two-IsDistinct
