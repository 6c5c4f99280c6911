-- ===== src/Simulator/Tests.antt =====
-- Runs of the simulator's lists, nodes and diary.
use vexjine.Common.{
  ℕ, ◌≡◌, refl, false, Option, none, some, List, [], ◌∷◌, contains, erase_first, ◌+◌, ◌-◌, leb,
  arith, ◌⊎◌,
}
use vexjine.Simulator.Lists
use vexjine.Simulator.Lists.{new_list, ObjectList, insert_at_front}
use vexjine.Simulator.Lists.Refinement.{
  at_front, at_back, off_front, off_back, without, in_order, ListOperation, operate_all, returned,
  new_list-refined,
}
use vexjine.Simulator.Customers
use vexjine.Simulator.Customers.{Customers}
use vexjine.Simulator.Queues
use vexjine.Simulator.Queues.{fifo_queue, new_queue}
use vexjine.Simulator.Queues.Laws.{fifo-Keeps}
use vexjine.Simulator.Nodes
use vexjine.Simulator.Nodes.{ResourcePool, Clock, new_pool, enter, release_resource}
use vexjine.Simulator.Nodes.Runs.{
  Runs, starts, enters, Runs-Balanced, Runs-unfailing, Balanced, Succeeds, CanEnd,
}
use vexjine.Simulator.Diary.{Sim, schedule, go}
use vexjine.Simulator.Diary.Timely.{TimeOrder, Timely, Scheduled, schedule-Scheduled}
use vexjine.Simulator.Diary.Loop
use vexjine.Simulator.Diary.Loop.{Invokes, go-Runs}

abbrev some_operations : List ListOperation
some_operations =
    at_back 4
    ∷ at_front 2
    ∷ in_order 3
    ∷ without 4
    ∷ at_back 9
    ∷ off_back
    ∷ off_front
    ∷ off_front
    ∷ []

new_list-refined_example :
    returned (operate_all leb some_operations new_list)
    ≡ some (none ∷ none ∷ none ∷ none ∷ none ∷ some 9 ∷ some 2 ∷ some 3 ∷ [])
unfolding contains erase_first
new_list-refined_example = new_list-refined leb some_operations

abbrev clock : Clock ℕ
clock = record { now = 5; plus = λ a b. a + b; minus = λ a b. a - b }

abbrev nobody : Customers ℕ
nobody c = record {
  class_of = 0;
  priority = 0;
  arrival_time = 0;
  service_demand = 0;
  queue_insertion_time = 0;
  location = none;
  finished = false;
}

abbrev first_pool : ResourcePool ℕ ObjectList
first_pool = new_pool 0 1 (new_queue new_list 1) nobody

started : Runs (fifo-Keeps {Time = ℕ}) 1 1 [] 0 first_pool
unfolding new_list fifo-Keeps
started = starts 0 new_list nobody (
  [],
  (record { starts = refl; ends = refl; chained = tt; placed = tt; counted = omega arith }, refl),
)

-- A customer in service at the only server, and another that waits.
abbrev then_enter : ResourcePool ℕ ObjectList → ℕ → ResourcePool ℕ ObjectList
then_enter g c = elim (enter fifo_queue clock g c 3) [ none ↦ g | some g' ↦ g' ]

abbrev serving : ResourcePool ℕ ObjectList
serving = then_enter first_pool 7

abbrev queueing : ResourcePool ℕ ObjectList
queueing = then_enter serving 8

served_once : Runs (fifo-Keeps {Time = ℕ}) 1 1 (7 ∷ []) 0 serving
unfolding new_list new_pool new_queue fifo_queue Nodes.enter Nodes.entered Nodes.accept
    Nodes.new_resource Nodes.resource_is_available Nodes.claim Nodes.invoke_service
    Customers.set_location Customers.set_service_demand
served_once = enters clock 7 3 started refl

queued_once : Runs (fifo-Keeps {Time = ℕ}) 1 1 (8 ∷ 7 ∷ []) 0 queueing
unfolding new_list new_pool new_queue fifo_queue Nodes.enter Nodes.entered Nodes.accept
    Nodes.new_resource Nodes.resource_is_available Nodes.claim Nodes.invoke_service
    Customers.set_location Customers.set_service_demand Customers.set_queue_insertion_time
    Queues.can_accept Queues.enqueue Lists.is_empty Lists.insert_at_back
    Lists.set_first_and_last_equal_to
queued_once = enters clock 8 3 served_once refl

Runs-Balanced_example : Balanced (fifo-Keeps {Time = ℕ}) (8 ∷ 7 ∷ []) 0 queueing
Runs-Balanced_example = Runs-Balanced fifo-Keeps (8 ∷ 7 ∷ []) 0 queueing queued_once

Runs-unfailing_example :
    Succeeds (fifo-Keeps {Time = ℕ}) (enter fifo_queue clock queueing 9 3)
    × CanEnd (fifo-Keeps {Time = ℕ}) clock queueing queueing.scheduled
    × ((◌≡◌ {A = ℕ} 0 0)
        ⊎ Succeeds (fifo-Keeps {Time = ℕ}) (release_resource fifo_queue clock queueing))
Runs-unfailing_example = Runs-unfailing fifo-Keeps (8 ∷ 7 ∷ []) 0 queueing clock 9 3 queued_once

abbrev times : ℕ → ℕ
times e = 10 + e

-- Two events to come, at 11 and 13.
abbrev two_events : Sim ℕ (Unit {0})
two_events = record {
  diary = insert_at_front (insert_at_front new_list 3) 1;
  vtime = 5;
  invoke_time = times;
  world = tt;
}

leb-TimeOrder : TimeOrder leb
leb-TimeOrder = record {
  transitive = λ a b c h h'. ground arith;
  total = λ a b h. ground arith;
  reflexive = λ a. ground arith;
}

two_events-Timely : Timely leb two_events
unfolding new_list insert_at_front Lists.is_empty Lists.set_first_and_last_equal_to
two_events-Timely = record {
  events = 1 ∷ 3 ∷ [];
  kept = (
    (2, 1) ∷ (1, 3) ∷ [],
    (
      record {
        starts = refl;
        ends = refl;
        chained = (refl, (refl, tt));
        placed = (omega arith, omega arith, refl, (omega arith, omega arith, refl, tt));
        counted = omega arith;
      },
      refl,
    ),
  );
  to_come = (refl, (refl, tt));
  in_order = ((refl, tt), (tt, tt));
}

schedule-Scheduled_example : Scheduled leb two_events 2 (1 ∷ 3 ∷ []) (schedule leb two_events 2)
unfolding two_events-Timely
schedule-Scheduled_example =
    schedule-Scheduled leb leb-TimeOrder two_events 2 two_events-Timely refl

-- Events that do nothing.
abbrev nothing : Sim ℕ (Unit {0}) → ℕ → Option (Sim ℕ (Unit {0}))
nothing s e = some s

nothing-Invokes : Invokes leb nothing
nothing-Invokes s e timely = (s, (refl, timely, refl))

go-Runs_example : Loop.Runs leb (λ s. false) two_events (go (λ s. false) nothing 3 two_events)
go-Runs_example =
    go-Runs leb leb-TimeOrder (λ s. false) nothing nothing-Invokes 3 two_events two_events-Timely
