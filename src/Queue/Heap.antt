-- ===== src/Queue/Heap.antt =====
-- The heap functions of <algorithm> that AdaptiblePQueue stands on, behind the contract that the C++
-- standard gives them. The elements are pointers, known by their ids; the order is
-- `threadStatePtr_compare` of ThreadState.h, by which the smallest timestamp comes first.
pub mod Sorted
use vexjine.Common.{ℕ, ◌+◌, ◌≤◌, ◌≡◌, List, [], ◌∷◌, length, push_back, count, ℤ, ◌≤ℤ◌}

pub record HeapFunctions : Type 1 where
  pub make_heap : (ℕ → ℤ) → List ℕ → List ℕ
  -- The last element is the new one.
  pub push_heap : (ℕ → ℤ) → List ℕ → List ℕ
  -- `std::pop_heap` and `pop_back`: what is left when the first element has gone.
  pub pop_heap : (ℕ → ℤ) → List ℕ → List ℕ
  -- `std::is_heap`, which depends on the timestamps of the elements alone.
  pub IsHeap : (ℕ → ℤ) → List ℕ → Type 0
  pub IsHeap-nil : (key : ℕ → ℤ) → IsHeap key []
  pub IsHeap-head :
      (key : ℕ → ℤ) (x y : ℕ) (xs : List ℕ)
      → IsHeap key (x ∷ xs)
      → 1 ≤ count y (x ∷ xs)
      → key x ≤ℤ key y
  pub IsHeap-key :
      (key key' : ℕ → ℤ) (xs : List ℕ)
      → ((x : ℕ) → 1 ≤ count x xs → key' x ≡ key x)
      → IsHeap key xs
      → IsHeap key' xs
  pub make_heap-IsHeap : (key : ℕ → ℤ) (xs : List ℕ) → IsHeap key (make_heap key xs)
  pub count-make_heap :
      (key : ℕ → ℤ) (xs : List ℕ) (u : ℕ) → count u (make_heap key xs) ≡ count u xs
  pub push_heap-IsHeap :
      (key : ℕ → ℤ) (xs : List ℕ) (x : ℕ)
      → IsHeap key xs
      → IsHeap key (push_heap key (push_back xs x))
  pub count-push_heap :
      (key : ℕ → ℤ) (xs : List ℕ) (u : ℕ) → count u (push_heap key xs) ≡ count u xs
  pub pop_heap-IsHeap :
      (key : ℕ → ℤ) (x : ℕ) (xs : List ℕ) → IsHeap key (x ∷ xs) → IsHeap key (pop_heap key (x ∷ xs))
  pub count-pop_heap :
      (key : ℕ → ℤ) (x : ℕ) (xs : List ℕ) (u : ℕ) → count u (pop_heap key (x ∷ xs)) ≡ count u xs
  pub length-pop_heap :
      (key : ℕ → ℤ) (x : ℕ) (xs : List ℕ) → length (pop_heap key (x ∷ xs)) ≡ length xs
