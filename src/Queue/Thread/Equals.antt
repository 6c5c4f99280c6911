-- ===== src/Queue/Thread/Equals.antt =====
-- What `getNextIfEqualsElseReturnTop` answers, by the thread on top.
use vexjine.Common.{ℕ, ◌==◌, ◌≡◌, ◌⊎◌, inl, inr, refl, false, none, some, ==_refl}
use vexjine.Queue.Heap.{HeapFunctions}
use vexjine.Queue.Priority
use vexjine.Queue.Priority.{top}
use vexjine.Queue.Priority.Laws.{top-Takes}
use vexjine.Queue.Thread.{
  ThreadQueue, key, Verdict, blocks, keeps, pops, verdict, act, get_next_if_equals_else_return_top,
}
use vexjine.Queue.Thread.Laws.{Ordered, Taken}

module _ (H : HeapFunctions) where
  pub get_next_if-none :
      (q : ThreadQueue) (t m : ℕ)
      → top q.queue ≡ none
      → get_next_if_equals_else_return_top H q t m ≡ (q, none)
  unfolding get_next_if_equals_else_return_top
  get_next_if-none q t m e = rw (e, get_next_if_equals_else_return_top) refl

  pub get_next_if-other :
      (q : ThreadQueue) (t u m : ℕ)
      → top q.queue ≡ some u
      → (u == t) ≡ false
      → get_next_if_equals_else_return_top H q t m ≡ (q, some u)
  unfolding get_next_if_equals_else_return_top
  get_next_if-other q t u m e n = rw (e, get_next_if_equals_else_return_top, n) refl

  act-answer :
      (q : ThreadQueue) (t : ℕ) (v : Verdict)
      → (q' : ThreadQueue) × ((act H q t v ≡ (q', none)) ⊎ (act H q t v ≡ (q', some t)))
  unfolding act
  act-answer q t blocks = (q, inl refl)
  act-answer q t keeps = (q, inr refl)
  act-answer q t pops = (_, inr refl)

  get_next_if-act :
      (q : ThreadQueue) (t m : ℕ)
      → top q.queue ≡ some t
      → get_next_if_equals_else_return_top H q t m ≡ act H q t (verdict (q.threads t) m)
  unfolding get_next_if_equals_else_return_top
  get_next_if-act q t m e = rw (e, get_next_if_equals_else_return_top, ==_refl t) refl

  pub get_next_if-equals :
      (q : ThreadQueue) (t m : ℕ)
      → top q.queue ≡ some t
      → (q' : ThreadQueue) × ((get_next_if_equals_else_return_top H q t m ≡ (q', none))
          ⊎ (get_next_if_equals_else_return_top H q t m ≡ (q', some t)))
  get_next_if-equals q t m e =
      rw (get_next_if-act q t m e) (act-answer q t (verdict (q.threads t) m))

  pub get_next_if-pops :
      (q : ThreadQueue) (t m : ℕ)
      → top q.queue ≡ some t
      → verdict (q.threads t) m ≡ pops
      → Ordered H q
      → (q' : ThreadQueue) × ((get_next_if_equals_else_return_top H q t m ≡ (q', some t))
          × Taken H q q' (some t))
  unfolding act Priority.pop
  get_next_if-pops q t m e v order = (
    record q { queue = Priority.pop H (key q.threads) q.queue },
    (rw (get_next_if-act q t m e, v) refl, (refl, top-Takes H (key q.threads) q.queue t order e)),
  )
