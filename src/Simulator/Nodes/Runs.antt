-- ===== src/Simulator/Nodes/Runs.antt =====
-- A queueing node under any interleaving of arrivals, ends of service and releases.
use vexjine.Common.{
  ℕ, zero, suc, ◌≡◌, refl, ◌<◌, ◌+◌, Option, some, List, [], ◌∷◌, count, length, arith, ◌⊎◌, inl,
  inr,
}
use vexjine.Simulator.Customers.{Customers}
use vexjine.Simulator.Queues.{Discipline, new_queue}
use vexjine.Simulator.Queues.Laws.{Keeps}
use vexjine.Simulator.Nodes.{
  ResourcePool, EndServiceEvent, Clock, new_pool, enter, release_resource, invoke_event,
  new_resource,
}
use vexjine.Simulator.Nodes.Events.{Has, served}
use vexjine.Simulator.Nodes.Conserved.{
  Conserved, Steps, enter-Conserved, invoke_event-Conserved, release_resource-Conserved,
}

module _ {Time S : Type 0} {d : Discipline Time S} (keeps : Keeps d) where
  -- The states that a node of `n` servers can reach, with the customers that have arrived, and with
  -- the moves whose release is still to come. The clock stands anywhere at each step.
  pub data Runs (n cap : ℕ) : List ℕ → ℕ → ResourcePool Time S → Type 0 where
    starts :
        (id : ℕ) (empty : S) (cs : Customers Time)
        → keeps.Holds empty []
        → Runs n cap [] 0 (new_pool id n (new_queue empty cap) cs)
    enters :
        {arrived : List ℕ} {pending : ℕ} {g g' : ResourcePool Time S} (k : Clock Time) (c : ℕ)
        (demand : Time)
        → Runs n cap arrived pending g
        → enter d k g c demand ≡ some g'
        → Runs n cap (c ∷ arrived) pending g'
    ends :
        {arrived : List ℕ} {pending : ℕ} {g g' : ResourcePool Time S} (k : Clock Time)
        (e : EndServiceEvent Time)
        → Runs n cap arrived pending g
        → Has e g.scheduled
        → invoke_event d k g e ≡ some g'
        → Runs n cap arrived (suc pending) g'
    releases :
        {arrived : List ℕ} {pending : ℕ} {g g' : ResourcePool Time S} (k : Clock Time)
        → Runs n cap arrived (suc pending) g
        → release_resource d k g ≡ some g'
        → Runs n cap arrived pending g'

  -- The step that was taken is the one that the invariant speaks of.
  stepped :
      (result : Option (ResourcePool Time S)) (g' : ResourcePool Time S) (arrived : List ℕ)
      (pending : ℕ)
      → result ≡ some g'
      → Steps keeps result arrived pending
      → Conserved keeps arrived pending g'
  stepped result g' arrived pending e (g, (found, kept)) = let same : g' ≡ g = cc in rw same kept

  unfailing :
      (result : Option (ResourcePool Time S)) (arrived : List ℕ) (pending : ℕ)
      → Steps keeps result arrived pending
      → (g : ResourcePool Time S) × (result ≡ some g)
  unfailing result arrived pending (g, (found, kept)) = (g, found)

  released :
      (arrived : List ℕ) (pending : ℕ) (g : ResourcePool Time S) (k : Clock Time)
      → Conserved keeps arrived pending g
      → (pending ≡ 0) ⊎ ((g' : ResourcePool Time S) × (release_resource d k g ≡ some g'))
  released arrived zero g k h = inl refl
  released arrived (suc pending) g k h =
      inr (unfailing _ arrived pending (release_resource-Conserved keeps k arrived pending g h))

  Runs-Conserved :
      {n cap : ℕ} (arrived : List ℕ) (pending : ℕ) (g : ResourcePool Time S)
      → Runs n cap arrived pending g
      → Conserved keeps arrived pending g
  unfolding new_pool new_queue new_resource count
  Runs-Conserved arrived pending g (starts id empty cs holds) = record {
    waiting = [];
    queued = record { held = holds; counted = refl };
    numbered = tt;
    servers = omega arith;
    busy = λ filled. absurd (omega (arith, filled));
    counted = refl;
    balance = λ u. omega arith;
  }
  Runs-Conserved arrived pending g
        (enters {arrived = a} {pending = p} {g = before} k c demand run e) =
      stepped _ g arrived pending e
        (enter-Conserved keeps k a pending before c demand (Runs-Conserved a pending before run))
  Runs-Conserved arrived pending g
        (ends {arrived = a} {pending = p} {g = before} k event run has e) =
      stepped _ g arrived pending e (
        invoke_event-Conserved keeps k arrived p before event (Runs-Conserved arrived p before run)
          has)
  Runs-Conserved arrived pending g (releases {arrived = a} {pending = p} {g = before} k run e) =
      stepped _ g arrived pending e (
        release_resource-Conserved keeps k arrived pending before
          (Runs-Conserved arrived (suc pending) before run))

  -- Who has arrived is in service, queued, lost or moved on; the servers are free, serving or held
  -- for a move; and somebody is queued only while no server is free.
  abbrev pub Balanced : List ℕ → ℕ → ResourcePool Time S → Type 0
  Balanced arrived pending g =
      (waiting : List ℕ) × keeps.Holds g.queue.waiting waiting
      × (g.queue.pop ≡ length waiting)
      × ((u : ℕ)
          → count u arrived
            ≡ count u (served g.scheduled) + count u waiting + count u g.lost + count u g.moved)
      × (g.resources.resources + length g.scheduled + pending ≡ g.resources.nresources)
      × ((g.queue.pop ≡ 0) ⊎ (g.resources.resources ≡ 0))

  idle_or_busy : (p r : ℕ) → (0 < p → r ≡ 0) → (p ≡ 0) ⊎ (r ≡ 0)
  idle_or_busy zero r h = inl refl
  idle_or_busy (suc p) r h = inr (h (omega arith))

  -- Nobody is lost track of, and no server idles. However arrivals, ends of service and releases are
  -- interleaved, and whatever discipline the queue has that keeps its customers: each customer that
  -- has arrived is in service, queued, lost or moved on, once for each arrival; the servers are free,
  -- serving or held for a move; and somebody is queued only while no server is free.
  pub Runs-Balanced :
      {n cap : ℕ} (arrived : List ℕ) (pending : ℕ) (g : ResourcePool Time S)
      → Runs n cap arrived pending g
      → Balanced arrived pending g
  Runs-Balanced arrived pending g run =
      let c = Runs-Conserved arrived pending g run in
      (
        c.waiting,
        c.queued.held,
        c.queued.counted,
        c.balance,
        c.servers,
        idle_or_busy g.queue.pop g.resources.resources c.busy,
      )

  abbrev pub Succeeds : Option (ResourcePool Time S) → Type 0
  Succeeds result = (g : ResourcePool Time S) × (result ≡ some g)

  -- Each of the services can end.
  abbrev pub CanEnd : Clock Time → ResourcePool Time S → List (EndServiceEvent Time) → Type 0
  CanEnd k g [] = Unit {0}
  CanEnd k g (e ∷ es) = Succeeds (invoke_event d k g e) × CanEnd k g es

  each-CanEnd :
      (arrived : List ℕ) (pending : ℕ) (g : ResourcePool Time S) (k : Clock Time)
      → Conserved keeps arrived pending g
      → (es : List (EndServiceEvent Time))
      → ((e : EndServiceEvent Time) → Has e es → Has e g.scheduled)
      → CanEnd k g es
  each-CanEnd arrived pending g k h [] has = tt
  each-CanEnd arrived pending g k h (e ∷ es) has = (
    unfailing _ _ _ (invoke_event-Conserved keeps k arrived pending g e h (has e (inl refl))),
    each-CanEnd arrived pending g k h es (λ e' later. has e' (inr later)),
  )

  -- No check of the simulator fails. From any state that a node can reach, an arrival goes through,
  -- so does the end of each service in the diary, and, while a move is under way, the release after
  -- it.
  pub Runs-unfailing :
      {n cap : ℕ} (arrived : List ℕ) (pending : ℕ) (g : ResourcePool Time S) (k : Clock Time)
      (c : ℕ) (demand : Time)
      → Runs n cap arrived pending g
      → Succeeds (enter d k g c demand)
        × CanEnd k g g.scheduled
        × ((pending ≡ 0) ⊎ Succeeds (release_resource d k g))
  Runs-unfailing arrived pending g k c demand run =
      let h = Runs-Conserved arrived pending g run in
      (
        unfailing _ _ _ (enter-Conserved keeps k arrived pending g c demand h),
        each-CanEnd arrived pending g k h g.scheduled (λ e has. has),
        released arrived pending g k h,
      )
