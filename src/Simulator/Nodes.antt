-- ===== src/Simulator/Nodes.antt =====
-- cinqs/tools/Resource.cpp and the nodes with servers: InfiniteServerNode, ResourcePool, QueueingNode
-- and the preemptive nodes of cinqs/network. A node's end-of-service events in the diary, and the
-- customers that it hands to its link and to its loss node, are part of its state. A link may lead
-- back to the node, so that a `forward` is two steps: the move, and the release that follows.
pub mod Events
pub mod Conserved
pub mod Runs
use vexjine.Common.{
  ℕ, zero, suc, ◌-◌, ◌==◌, Bool, true, false, not, Option, none, some, ◌>>=◌, List, [], ◌∷◌, ltb,
  push_back, if◌then◌else◌,
}
use vexjine.Simulator.Customers.{Customer, Customers, set_service_demand, set_location}
use vexjine.Simulator.Queues.{
  Discipline, Queue, is_empty, can_accept, enqueue, enqueue_at_head, dequeue,
}

pub record Resource : Type 0 where
  pub resources : ℕ
  pub nresources : ℕ
  pub resource_count : List ℕ

unfoldable pub new_resource : ℕ → Resource
new_resource n = record { resources = n; nresources = n; resource_count = [] }

unfoldable pub resource_is_available : Resource → Bool
resource_is_available r = ltb 0 r.resources

unfoldable pub claim : Resource → Option Resource
unfolding resource_is_available
claim r =
    if resource_is_available r
    then some (record r {
      resources = r.resources - 1;
      resource_count = push_back r.resource_count (r.nresources - (r.resources - 1));
    })
    else none

unfoldable pub release : Resource → Option Resource
release r =
    if ltb r.resources r.nresources
    then some (record r {
      resources = suc r.resources;
      resource_count = push_back r.resource_count (r.nresources - suc r.resources);
    })
    else none

pub record EndServiceEvent (Time : Type 0) : Type 0 where
  pub event_id : ℕ
  pub customer : ℕ
  pub invoke_time : Time

pub record ResourcePool (Time S : Type 0) : Type 0 where
  pub node_id : ℕ
  pub arrivals : ℕ
  pub queue : Queue Time S
  pub resources : Resource
  pub losses : ℕ
  pub last_end_service_event : Option (EndServiceEvent Time)
  pub customers : Customers Time
  pub next_id : ℕ
  pub scheduled : List (EndServiceEvent Time)
  pub moved : List ℕ
  pub lost : List ℕ

-- What the simulator's clock and its arithmetic are.
pub record Clock (Time : Type 0) : Type 0 where
  pub now : Time
  pub plus : Time → Time → Time
  pub minus : Time → Time → Time

-- A node before its first customer.
unfoldable pub new_pool :
    {Time S : Type 0} → ℕ → ℕ → Queue Time S → Customers Time → ResourcePool Time S
unfolding new_resource
new_pool id n q cs = record {
  node_id = id;
  arrivals = 0;
  queue = q;
  resources = new_resource n;
  losses = 0;
  last_end_service_event = none;
  customers = cs;
  next_id = 0;
  scheduled = [];
  moved = [];
  lost = [];
}

-- The diary without an event, by its identity.
unfoldable pub without_event :
    {Time : Type 0} → ℕ → List (EndServiceEvent Time) → Option (List (EndServiceEvent Time))
without_event i [] = none
without_event i (e ∷ es) =
    let further = without_event i es in
    if e.event_id == i then some es else (do es' ← further; some (e ∷ es'))

module _ {Time S : Type 0} (d : Discipline Time S) (k : Clock Time) where
  unfoldable pub invoke_service : ResourcePool Time S → ℕ → ResourcePool Time S
  invoke_service g c =
      let e : EndServiceEvent Time = record {
        event_id = g.next_id;
        customer = c;
        invoke_time = k.plus k.now (g.customers c).service_demand;
      } in
      record g {
        next_id = suc g.next_id;
        last_end_service_event = some e;
        scheduled = e ∷ g.scheduled;
      }

  unfoldable pub accept : ResourcePool Time S → ℕ → Option (ResourcePool Time S)
  unfolding resource_is_available claim invoke_service can_accept enqueue
  accept g c =
      if resource_is_available g.resources
      then (do r ← claim g.resources; some (invoke_service (record g { resources = r }) c))
      else if can_accept g.queue
      then (do
        (cs, q) ← enqueue d k.now g.customers g.queue c
        some (record g { customers = cs; queue = q }))
      else some (record g { losses = suc g.losses; lost = c ∷ g.lost })

  -- `demand` is the sample of the node's service time.
  unfoldable pub entered : ResourcePool Time S → ℕ → Time → ResourcePool Time S
  unfolding set_service_demand set_location
  entered g c demand = record g {
    arrivals = suc g.arrivals;
    customers = set_location (set_service_demand g.customers c demand) c g.node_id;
  }

  unfoldable pub enter : ResourcePool Time S → ℕ → Time → Option (ResourcePool Time S)
  unfolding entered accept
  enter g c demand = accept (entered g c demand) c

  unfoldable pub release_resource : ResourcePool Time S → Option (ResourcePool Time S)
  unfolding is_empty dequeue invoke_service release
  release_resource g =
      if not (is_empty g.queue)
      then (do
        (q, c) ← dequeue d k.now k.minus g.customers g.queue
        some (invoke_service (record g { queue = q }) c))
      else (do r ← release g.resources; some (record g { resources = r }))

  -- An event leaves the diary, and its customer goes to the link.
  unfoldable pub invoke_event :
      ResourcePool Time S → EndServiceEvent Time → Option (ResourcePool Time S)
  unfolding without_event
  invoke_event g e = do
    rest ← without_event e.event_id g.scheduled
    some (record g { scheduled = rest; moved = e.customer ∷ g.moved })

  -- `remaining` is `remainingServiceTime`, of the resume node or of the restart node.
  unfoldable pub preemptive_accept :
      (ResourcePool Time S → EndServiceEvent Time → Time)
      → ResourcePool Time S
      → ℕ
      → Option (ResourcePool Time S)
  unfolding resource_is_available claim invoke_service without_event set_service_demand
      enqueue_at_head
  preemptive_accept remaining g c =
      if resource_is_available g.resources
      then (do r ← claim g.resources; some (invoke_service (record g { resources = r }) c))
      else (do
        last ← g.last_end_service_event
        rest ← without_event last.event_id g.scheduled
        let cs = set_service_demand g.customers last.customer (remaining g last)
        (cs', q) ← enqueue_at_head d k.now cs g.queue last.customer
        some (invoke_service (record g { scheduled = rest; customers = cs'; queue = q }) c))

  abbrev pub resume_remaining : ResourcePool Time S → EndServiceEvent Time → Time
  resume_remaining g e = k.minus e.invoke_time k.now

  abbrev pub restart_remaining : ResourcePool Time S → EndServiceEvent Time → Time
  restart_remaining g e = (g.customers e.customer).service_demand
