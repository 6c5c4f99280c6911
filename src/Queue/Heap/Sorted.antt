-- ===== src/Queue/Heap/Sorted.antt =====
-- The contract can be met: a list in ascending order of the timestamps is a heap.
use vexjine.Common.{
  ℕ, ◌≤◌, ◌≡◌, refl, sym, subst, Bool-cases, inl, inr, List, [], ◌∷◌, push_back, count, ℤ, ◌≤ℤ◌,
  ltb_ℤ, if◌then◌else◌, arith, ==_iff, ==_refl,
}
use vexjine.Queue.Heap.{HeapFunctions}

module _ (key : ℕ → ℤ) where
  unfoldable pub insert_sorted : ℕ → List ℕ → List ℕ
  insert_sorted x [] = x ∷ []
  insert_sorted x (y ∷ ys) = if ltb_ℤ (key y) (key x) then y ∷ insert_sorted x ys else x ∷ y ∷ ys

  unfoldable pub sort : List ℕ → List ℕ
  unfolding insert_sorted
  sort [] = []
  sort (x ∷ xs) = insert_sorted x (sort xs)

  -- Every timestamp of the list is at least `k`.
  abbrev pub AllFrom : ℤ → List ℕ → Type 0
  AllFrom k [] = Unit {0}
  AllFrom k (x ∷ xs) = (k ≤ℤ key x) × AllFrom k xs

  abbrev pub IsSorted : List ℕ → Type 0
  IsSorted [] = Unit {0}
  IsSorted (x ∷ xs) = AllFrom (key x) xs × IsSorted xs

  AllFrom-mono : (k l : ℤ) (xs : List ℕ) → k ≤ℤ l → AllFrom l xs → AllFrom k xs
  AllFrom-mono k l [] h a = tt
  AllFrom-mono k l (x ∷ xs) h a = (omega arith, AllFrom-mono k l xs h a.1)

  AllFrom-insert :
      (k : ℤ) (x : ℕ) (xs : List ℕ) → k ≤ℤ key x → AllFrom k xs → AllFrom k (insert_sorted x xs)
  unfolding insert_sorted
  AllFrom-insert k x [] h a = (h, tt)
  AllFrom-insert k x (y ∷ ys) h a = ground (arith, AllFrom-insert k x ys h a.1)

  insert-IsSorted : (x : ℕ) (xs : List ℕ) → IsSorted xs → IsSorted (insert_sorted x xs)
  unfolding insert_sorted
  insert-IsSorted x [] s = (tt, tt)
  insert-IsSorted x (y ∷ ys) s = elim (Bool-cases (ltb_ℤ (key y) (key x))) [
    | inl after ↦
        rw after (AllFrom-insert (key y) x ys (ground arith) s.0, insert-IsSorted x ys s.1)
    | inr before ↦ rw before ((ground arith, AllFrom-mono (key x) (key y) ys (ground arith) s.0), s)
  ]

  pub sort-IsSorted : (xs : List ℕ) → IsSorted (sort xs)
  unfolding sort
  sort-IsSorted [] = tt
  sort-IsSorted (x ∷ xs) = insert-IsSorted x (sort xs) (sort-IsSorted xs)

  count-insert : (x u : ℕ) (xs : List ℕ) → count u (insert_sorted x xs) ≡ count u (x ∷ xs)
  unfolding insert_sorted count
  count-insert x u [] = refl
  count-insert x u (y ∷ ys) = ground (arith, count-insert x u ys)

  pub count-sort : (xs : List ℕ) (u : ℕ) → count u (sort xs) ≡ count u xs
  unfolding sort count
  count-sort [] u = refl
  count-sort (x ∷ xs) u = ground (arith, count-insert x u (sort xs), count-sort xs u)

  AllFrom-count : (k : ℤ) (xs : List ℕ) (u : ℕ) → AllFrom k xs → 1 ≤ count u xs → k ≤ℤ key u
  unfolding count
  AllFrom-count k [] u a c = absurd (omega arith)
  AllFrom-count k (x ∷ xs) u a c = ground (arith, ==_iff x u, AllFrom-count k xs u a.1)

  pub head-least :
      (x y : ℕ) (xs : List ℕ) → IsSorted (x ∷ xs) → 1 ≤ count y (x ∷ xs) → key x ≤ℤ key y
  unfolding count
  head-least x y xs s c = ground (arith, ==_iff x y, AllFrom-count (key x) xs y s.0)

AllFrom-key :
    (key key' : ℕ → ℤ) (k : ℤ) (xs : List ℕ)
    → ((x : ℕ) → 1 ≤ count x xs → key' x ≡ key x)
    → AllFrom key k xs
    → AllFrom key' k xs
unfolding count
AllFrom-key key key' k [] same a = tt
AllFrom-key key key' k (x ∷ xs) same a = (
  subst (λ z. k ≤ℤ z) (sym (same x (ground (arith, ==_refl x)))) a.0,
  AllFrom-key key key' k xs (λ y c. same y (ground arith)) a.1,
)

pub IsSorted-key :
    (key key' : ℕ → ℤ) (xs : List ℕ)
    → ((x : ℕ) → 1 ≤ count x xs → key' x ≡ key x)
    → IsSorted key xs
    → IsSorted key' xs
unfolding count
IsSorted-key key key' [] same s = tt
IsSorted-key key key' (x ∷ xs) same s = (
  subst (λ z. AllFrom key' z xs) (sym (same x (ground (arith, ==_refl x))))
      (AllFrom-key key key' (key x) xs (λ y c. same y (ground arith)) s.0),
  IsSorted-key key key' xs (λ y c. same y (ground arith)) s.1,
)

abbrev drop_first : List ℕ → List ℕ
drop_first [] = []
drop_first (x ∷ xs) = xs

abbrev pub sorted_heap : HeapFunctions
sorted_heap = record {
  make_heap = sort;
  push_heap = sort;
  pop_heap = λ key. drop_first;
  IsHeap = IsSorted;
  IsHeap-nil = λ key. tt;
  IsHeap-head = head-least;
  IsHeap-key = IsSorted-key;
  make_heap-IsHeap = sort-IsSorted;
  count-make_heap = count-sort;
  push_heap-IsHeap = λ key xs x h. sort-IsSorted key (push_back xs x);
  count-push_heap = count-sort;
  pop_heap-IsHeap = λ key x xs h. h.1;
  count-pop_heap = λ key x xs u. refl;
  length-pop_heap = λ key x xs. refl;
}
