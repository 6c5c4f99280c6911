-- ===== src/Simulator/Queues/Laws.antt =====
-- What a node relies on of its queue, and that the disciplines keep it: a customer that is put in
-- waits until it is taken out, whatever the order.
use vexjine.Common.{
  ℕ, suc, ◌≡◌, refl, ◌∙◌, ap, ◌<◌, Bool, true, some, List, [], ◌∷◌, ◌++◌, length, length-append,
  push_back, count, count-push_back, ltb, arith,
}
use vexjine.Simulator.Lists.{
  ObjectList, remove_from_front, insert_at_front, insert_at_back, insert_in_order,
}
use vexjine.Simulator.Lists.Cells.{objects}
use vexjine.Simulator.Lists.Ends.{
  insert_at_front-Represents, insert_at_back-Represents, remove_from_front-Represents,
}
use vexjine.Simulator.Lists.Refinement.{
  Implements, insert_ordered, insert_in_order-Represents, objects-insert, objects-append,
}
use vexjine.Simulator.Customers.{Customers, smaller_than, set_queue_insertion_time}
use vexjine.Simulator.Queues.{
  Discipline, Queue, fifo_queue, lifo_queue, ordered_queue, enqueue, dequeue, can_accept,
  counted_in, counted_out,
}

-- One list has the customers of another and one more.
pub record OneMore (c : ℕ) (xs xs' : List ℕ) : Type 0 where
  pub counts : (u : ℕ) → count u xs' ≡ count u (c ∷ xs)
  pub longer : length xs' ≡ suc (length xs)

pub record Keeps {Time S : Type 0} (d : Discipline Time S) : Type 1 where
  pub Holds : S → List ℕ → Type 0
  pub inserted :
      (cs : Customers Time) (s : S) (c : ℕ) (xs : List ℕ)
      → Holds s xs
      → (s' : S) × ((d.insert_into_queue cs s c ≡ some s')
          × ((xs' : List ℕ) × (Holds s' xs' × OneMore c xs xs')))
  pub inserted_at_head :
      (s : S) (c : ℕ) (xs : List ℕ)
      → Holds s xs
      → (s' : S) × ((d.insert_at_head_of_queue s c ≡ some s')
          × ((xs' : List ℕ) × (Holds s' xs' × OneMore c xs xs')))
  pub removed :
      (s : S) (xs : List ℕ)
      → Holds s xs
      → 0 < length xs
      → (s' : S) × ((c : ℕ) × ((d.remove_from_queue s ≡ some (s', c))
            × ((xs' : List ℕ) × (Holds s' xs' × OneMore c xs' xs))))

OneMore-front : (c : ℕ) (xs : List ℕ) → OneMore c xs (c ∷ xs)
OneMore-front c xs = record { counts = λ u. refl; longer = refl }

OneMore-back : (c : ℕ) (xs : List ℕ) → OneMore c xs (push_back xs c)
unfolding count
OneMore-back c xs = record {
  counts = λ u. ground (arith, count-push_back u c xs);
  longer = omega (arith, length-append xs (c ∷ []));
}

OneMore-ordered :
    (before : ℕ → ℕ → Bool) (c : ℕ) (xs : List ℕ) → OneMore c xs (insert_ordered before c xs)
unfolding count
OneMore-ordered before c [] = OneMore-front c []
OneMore-ordered before c (x ∷ xs) =
    let rest = OneMore-ordered before c xs in
    record { counts = λ u. ground (arith, rest.counts u); longer = ground (arith, rest.longer) }

pub removed_from_front :
    (l : ObjectList) (xs : List ℕ)
    → Implements l xs
    → 0 < length xs
    → (l' : ObjectList) × ((c : ℕ) × ((remove_from_front l ≡ some (l', c))
          × ((xs' : List ℕ) × (Implements l' xs' × OneMore c xs' xs))))
removed_from_front l xs ([], (r, same)) h = absurd (omega (arith, ap length same))
removed_from_front l xs ((a, c) ∷ cs, (r, same)) h =
    let (l', (e, r')) = remove_from_front-Represents l a c cs r in
    (l', (c, (e, (objects cs, ((cs, (r', refl)), rw⁻¹ same (OneMore-front c (objects cs)))))))

pub at_front_kept :
    (l : ObjectList) (c : ℕ) (xs : List ℕ)
    → Implements l xs
    → (l' : ObjectList) × ((some (insert_at_front l c) ≡ some l')
        × ((xs' : List ℕ) × (Implements l' xs' × OneMore c xs xs')))
at_front_kept l c xs (cs, (r, same)) =
    let kept = insert_at_front-Represents l cs c r in
    (_, (refl, (c ∷ xs, (((l.fresh, c) ∷ cs, (kept, ap (◌∷◌ c) same)), OneMore-front c xs))))

pub at_back_kept :
    (l : ObjectList) (c : ℕ) (xs : List ℕ)
    → Implements l xs
    → (l' : ObjectList) × ((insert_at_back l c ≡ some l')
        × ((xs' : List ℕ) × (Implements l' xs' × OneMore c xs xs')))
at_back_kept l c xs (cs, (r, same)) =
    let (l', (e, kept)) = insert_at_back-Represents l cs c r in
    let cs' = cs ++ ((l.fresh, c) ∷ []) in
    let same' = objects-append cs ((l.fresh, c) ∷ []) ∙ ap (λ ys. push_back ys c) same in
    (l', (e, (push_back xs c, ((cs', (kept, same')), OneMore-back c xs))))

pub in_order_kept :
    (before : ℕ → ℕ → Bool) (l : ObjectList) (c : ℕ) (xs : List ℕ)
    → Implements l xs
    → (l' : ObjectList) × ((insert_in_order before l c ≡ some l')
        × ((xs' : List ℕ) × (Implements l' xs' × OneMore c xs xs')))
in_order_kept before l c xs (cs, (r, same)) =
    let (l', (e, kept)) = insert_in_order-Represents l cs c r before in
    let same' = objects-insert before c l.fresh cs ∙ ap (insert_ordered before c) same in
    (l', (e, (insert_ordered before c xs, ((_, (kept, same')), OneMore-ordered before c xs))))

unfoldable pub fifo-Keeps : {Time : Type 0} → Keeps (fifo_queue {Time = Time})
unfolding fifo_queue
fifo-Keeps = record {
  Holds = Implements;
  inserted = λ cs. at_back_kept;
  inserted_at_head = at_front_kept;
  removed = removed_from_front;
}

pub lifo-Keeps : {Time : Type 0} → Keeps (lifo_queue {Time = Time})
unfolding lifo_queue
lifo-Keeps = record {
  Holds = Implements;
  inserted = λ cs. at_front_kept;
  inserted_at_head = at_front_kept;
  removed = removed_from_front;
}

pub ordered-Keeps : {Time : Type 0} → Keeps (ordered_queue {Time = Time})
unfolding ordered_queue
ordered-Keeps = record {
  Holds = Implements;
  inserted = λ cs. in_order_kept (smaller_than cs);
  inserted_at_head = at_front_kept;
  removed = removed_from_front;
}

module _ {Time S : Type 0} {d : Discipline Time S} (keeps : Keeps d) where
  -- The queue's count is the number of its customers.
  pub record QueueHolds (q : Queue Time S) (xs : List ℕ) : Type 0 where
    pub held : keeps.Holds q.waiting xs
    pub counted : q.pop ≡ length xs

  pub enqueue-OneMore :
      (now : Time) (cs : Customers Time) (q : Queue Time S) (c : ℕ) (xs : List ℕ)
      → QueueHolds q xs
      → can_accept q ≡ true
      → (r : Customers Time × Queue Time S) × ((enqueue d now cs q c ≡ some r)
          × ((xs' : List ℕ) × (QueueHolds r.1 xs' × OneMore c xs xs')))
  unfolding enqueue
  enqueue-OneMore now cs q c xs h free =
      let (s', (e, (xs', (held, more)))) =
        keeps.inserted (set_queue_insertion_time cs c now) q.waiting c xs h.held in
      (
        (set_queue_insertion_time cs c now, counted_in q s'),
        (
          rw (free, e) refl,
          (xs', (record { held = held; counted = omega (arith, h.counted, more.longer) }, more)),
        ),
      )

  pub dequeue-OneMore :
      (minus : Time → Time → Time) (now : Time) (cs : Customers Time) (q : Queue Time S)
      (xs : List ℕ)
      → QueueHolds q xs
      → 0 < q.pop
      → (q' : Queue Time S) × ((c : ℕ) × ((dequeue d now minus cs q ≡ some (q', c))
            × ((xs' : List ℕ) × (QueueHolds q' xs' × OneMore c xs' xs))))
  unfolding dequeue
  dequeue-OneMore minus now cs q xs h filled =
      let (s', (c, (e, (xs', (held, more))))) =
        keeps.removed q.waiting xs h.held (omega (arith, h.counted)) in
      let test : ltb 0 q.pop ≡ true = ground arith in
      (
        counted_out q s' (minus now (cs c).queue_insertion_time),
        (
          c,
          (
            rw (test, e) refl,
            (xs', (record { held = held; counted = omega (arith, h.counted, more.longer) }, more)),
          ),
        ),
      )
