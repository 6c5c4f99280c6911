-- ===== src/Simulator/Queues.antt =====
-- cinqs/network/Queue.h and Queue.cpp: the waiting customers of a node, counted and measured, over
-- the disciplines of FIFOQueue.cpp, LIFOQueue.cpp and OrderedQueue.cpp. A measure is the list of
-- what is added to it. `none` is a failed check.
pub mod Laws
use vexjine.Common.{
  ℕ, zero, suc, ◌-◌, ◌==◌, Bool, true, false, ◌&&◌, Option, none, some, ◌>>=◌, List, [], ◌∷◌, ltb,
  push_back, if◌then◌else◌,
}
use vexjine.Simulator.Lists.{
  ObjectList, new_list, first, insert_at_front, insert_at_back, remove_from_front, insert_in_order,
}
use vexjine.Simulator.Customers.{Customer, Customers, set_queue_insertion_time, smaller_than}

-- The four abstract methods of a queue, over the discipline's own state.
pub record Discipline (Time S : Type 0) : Type 0 where
  pub insert_into_queue : Customers Time → S → ℕ → Option S
  pub insert_at_head_of_queue : S → ℕ → Option S
  pub head_of_queue : S → Option ℕ
  pub remove_from_queue : S → Option (S × ℕ)

unfoldable pub fifo_queue : {Time : Type 0} → Discipline Time ObjectList
unfolding insert_at_back insert_at_front first remove_from_front
fifo_queue = record {
  insert_into_queue = λ cs q e. insert_at_back q e;
  insert_at_head_of_queue = λ q e. some (insert_at_front q e);
  head_of_queue = first;
  remove_from_queue = remove_from_front;
}

unfoldable pub lifo_queue : {Time : Type 0} → Discipline Time ObjectList
unfolding insert_at_front first remove_from_front
lifo_queue = record {
  insert_into_queue = λ cs q e. some (insert_at_front q e);
  insert_at_head_of_queue = λ q e. some (insert_at_front q e);
  head_of_queue = first;
  remove_from_queue = remove_from_front;
}

unfoldable pub ordered_queue : {Time : Type 0} → Discipline Time ObjectList
unfolding insert_in_order insert_at_front first remove_from_front smaller_than
ordered_queue = record {
  insert_into_queue = λ cs q e. insert_in_order (smaller_than cs) q e;
  insert_at_head_of_queue = λ q e. some (insert_at_front q e);
  head_of_queue = first;
  remove_from_queue = remove_from_front;
}

-- The capacity of an infinite queue.
abbrev pub int_max : ℕ
int_max = 2147483647

pub record Queue (Time S : Type 0) : Type 0 where
  pub waiting : S
  pub pop : ℕ
  pub capacity : ℕ
  pub pop_measure : List ℕ
  pub queueing_time : List Time

module _ {Time S : Type 0} where
  unfoldable pub new_queue : S → ℕ → Queue Time S
  new_queue empty cap = record {
    waiting = empty;
    pop = 0;
    capacity = cap;
    pop_measure = [];
    queueing_time = [];
  }

  unfoldable pub is_empty : Queue Time S → Bool
  is_empty q = q.pop == 0

  unfoldable pub can_accept : Queue Time S → Bool
  can_accept q = ltb q.pop q.capacity

  unfoldable pub is_infinite : Queue Time S → Bool
  is_infinite q = q.capacity == int_max

  -- The population after an insertion, and its measure.
  abbrev pub counted_in : Queue Time S → S → Queue Time S
  counted_in q waiting = record q {
    waiting = waiting;
    pop = suc q.pop;
    pop_measure = push_back q.pop_measure (suc q.pop);
  }

  -- The population after a removal, and its measures.
  abbrev pub counted_out : Queue Time S → S → Time → Queue Time S
  counted_out q waiting waited = record q {
    waiting = waiting;
    pop = q.pop - 1;
    pop_measure = push_back q.pop_measure (q.pop - 1);
    queueing_time = push_back q.queueing_time waited;
  }

  module _ (d : Discipline Time S) (now : Time) where
    unfoldable pub enqueue :
        Customers Time → Queue Time S → ℕ → Option (Customers Time × Queue Time S)
    unfolding can_accept set_queue_insertion_time
    enqueue cs q c =
        if can_accept q
        then (do
          let cs' = set_queue_insertion_time cs c now
          waiting ← d.insert_into_queue cs' q.waiting c
          some (cs', counted_in q waiting))
        else none

    unfoldable pub enqueue_at_head :
        Customers Time → Queue Time S → ℕ → Option (Customers Time × Queue Time S)
    unfolding can_accept set_queue_insertion_time
    enqueue_at_head cs q c =
        if can_accept q
        then (do
          let cs' = set_queue_insertion_time cs c now
          waiting ← d.insert_at_head_of_queue q.waiting c
          some (cs', counted_in q waiting))
        else none

    unfoldable pub dequeue :
        (Time → Time → Time) → Customers Time → Queue Time S → Option (Queue Time S × ℕ)
    dequeue minus cs q =
        if ltb 0 q.pop
        then (do
          (waiting, c) ← d.remove_from_queue q.waiting
          some (counted_out q waiting (minus now (cs c).queue_insertion_time), c))
        else none

  unfoldable pub head : Discipline Time S → Queue Time S → Option ℕ
  head d q = if ltb 0 q.pop then d.head_of_queue q.waiting else none
