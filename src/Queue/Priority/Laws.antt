-- ===== src/Queue/Priority/Laws.antt =====
-- What the operations do to the contents and the order of the queue.
use vexjine.Common.{
  ℕ, ◌+◌, ◌-◌, ◌≤◌, ◌==◌, ◌≡◌, subst, ◌∙◌, List, [], ◌∷◌, some, count, count-push_back,
  count-erase_first, push_back, erase_first, ℤ, ◌≤ℤ◌, if◌then◌else◌, ==_iff, arith,
}
use vexjine.Queue.Heap.{HeapFunctions}
use vexjine.Queue.Priority.{push, pop, erase, erase_all, erase_matching, top}

count-erase_matching :
    (t u : ℕ) (c : List ℕ) → count u (erase_matching t c) ≡ (if t == u then 0 else count u c)
unfolding count erase_matching
count-erase_matching t u [] = ground arith
count-erase_matching t u (v ∷ vs) =
    ground (arith, ==_iff t u, ==_iff v t, ==_iff v u, count-erase_matching t u vs)

module _ (H : HeapFunctions) (key : ℕ → ℤ) where
  pub count-push :
      (c : List ℕ) (t u : ℕ) → count u (push H key c t) ≡ count u c + (if t == u then 1 else 0)
  unfolding push
  count-push c t u = H.count-push_heap key (push_back c t) u ∙ count-push_back u t c

  pub count-erase :
      (c : List ℕ) (t u : ℕ)
      → count u (erase H key c t) ≡ (if t == u then count u c - 1 else count u c)
  unfolding erase
  count-erase c t u = H.count-make_heap key (erase_first t c) u ∙ count-erase_first t u c

  pub count-erase_all :
      (c : List ℕ) (t u : ℕ) → count u (erase_all H key c t) ≡ (if t == u then 0 else count u c)
  unfolding erase_all
  count-erase_all c t u = H.count-make_heap key (erase_matching t c) u ∙ count-erase_matching t u c

  pub push-IsHeap : (c : List ℕ) (t : ℕ) → H.IsHeap key c → H.IsHeap key (push H key c t)
  unfolding push
  push-IsHeap c t h = H.push_heap-IsHeap key c t h

  -- A thread with the smallest timestamp is taken out, and no other.
  abbrev pub Takes : List ℕ → ℕ → List ℕ → Type 0
  Takes c t c' =
      ((u : ℕ) → 1 ≤ count u c → key t ≤ℤ key u)
      × ((u : ℕ) → count u c ≡ count u c' + (if t == u then 1 else 0))

  pub pop-Takes :
      (x : ℕ) (xs : List ℕ) → H.IsHeap key (x ∷ xs) → Takes (x ∷ xs) x (pop H key (x ∷ xs))
  unfolding pop count
  pop-Takes x xs h =
      (λ u c. H.IsHeap-head key x u xs h c, λ u. ground (arith, H.count-pop_heap key x xs u))

  pub top-Takes :
      (c : List ℕ) (t : ℕ)
      → H.IsHeap key c
      → top c ≡ some t
      → Takes c t (pop H key c) × H.IsHeap key (pop H key c)
  unfolding top pop
  top-Takes [] t h e = absurd (cc)
  top-Takes (x ∷ xs) t h e = (
    subst (λ z. Takes (x ∷ xs) z (pop H key (x ∷ xs))) (cc) (pop-Takes x xs h),
    H.pop_heap-IsHeap key x xs h,
  )
