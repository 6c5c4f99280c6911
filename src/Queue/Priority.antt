-- ===== src/Queue/Priority.antt =====
-- AdaptiblePQueue.h: the priority queue of pointers whose order can change under it.
-- `key` gives the timestamp of each thread at the time of the call.
pub mod Laws
use vexjine.Common.{
  ℕ, ◌==◌, Bool, List, [], ◌∷◌, Option, none, some, push_back, contains, erase_first, ℤ,
  if◌then◌else◌,
}
use vexjine.Queue.Heap.{HeapFunctions}

-- `it = c.erase(it)` at each element that matches.
unfoldable pub erase_matching : ℕ → List ℕ → List ℕ
erase_matching t [] = []
erase_matching t (u ∷ us) = let rest = erase_matching t us in if u == t then rest else u ∷ rest

unfoldable pub find : List ℕ → ℕ → Bool
unfolding contains
find c t = contains t c

module _ (H : HeapFunctions) (key : ℕ → ℤ) where
  -- `std::priority_queue::push`, `pop` and `top`.
  unfoldable pub push : List ℕ → ℕ → List ℕ
  push c t = H.push_heap key (push_back c t)

  unfoldable pub pop : List ℕ → List ℕ
  pop c = H.pop_heap key c

  unfoldable pub update : List ℕ → List ℕ
  update c = H.make_heap key c

  unfoldable pub erase : List ℕ → ℕ → List ℕ
  unfolding erase_first update
  erase c t = update (erase_first t c)

  unfoldable pub erase_all : List ℕ → ℕ → List ℕ
  unfolding erase_matching update
  erase_all c t = update (erase_matching t c)

unfoldable pub top : List ℕ → Option ℕ
top [] = none
top (t ∷ ts) = some t
