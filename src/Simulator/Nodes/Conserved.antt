-- ===== src/Simulator/Nodes/Conserved.antt =====
-- What a queueing node keeps through arrivals, services and releases in any order.
use vexjine.Common.{
  ℕ, suc, ◌≡◌, refl, ◌<◌, ◌+◌, ◌-◌, true, false, ◌==◌, Bool-cases, Option, some, List, ◌∷◌, length,
  push_back, count, ltb, arith, if◌then◌else◌, inl, inr,
}
use vexjine.Simulator.Queues.{Discipline, Queue, can_accept, is_empty}
use vexjine.Simulator.Queues.Laws.{Keeps, QueueHolds, enqueue-OneMore, dequeue-OneMore}
use vexjine.Simulator.Nodes.Events.{served, Numbered, Has, without_event-Left}
use vexjine.Simulator.Nodes.{
  Resource, ResourcePool, EndServiceEvent, Clock, resource_is_available, claim, release,
  invoke_service, accept, entered, enter, release_resource, invoke_event,
}

count-cons : (u c : ℕ) (xs : List ℕ) → count u (c ∷ xs) ≡ (if c == u then 1 else 0) + count u xs
unfolding count
count-cons u c xs = ground arith

filled→lt : {Time S : Type 0} (q : Queue Time S) → is_empty q ≡ false → 0 < q.pop
unfolding is_empty
filled→lt q h = ground arith

empty→not_lt : {Time S : Type 0} (q : Queue Time S) → is_empty q ≡ true → 0 < q.pop → ⊥
unfolding is_empty
empty→not_lt q h filled = ground arith

lt→ltb : (a b : ℕ) → a < b → ltb a b ≡ true
lt→ltb a b h = ground arith

available→lt : (r : Resource) → resource_is_available r ≡ true → 0 < r.resources
unfolding resource_is_available
available→lt r h = ground arith

available→none : (r : Resource) → resource_is_available r ≡ false → r.resources ≡ 0
unfolding resource_is_available
available→none r h = ground arith

module _ {Time S : Type 0} {d : Discipline Time S} (keeps : Keeps d) where
  -- `pending` counts the servers held for customers that have been moved.
  pub record Conserved (arrived : List ℕ) (pending : ℕ) (g : ResourcePool Time S) : Type 0 where
    pub waiting : List ℕ
    pub queued : QueueHolds keeps g.queue waiting
    pub numbered : Numbered g.next_id g.scheduled
    pub servers : g.resources.resources + length g.scheduled + pending ≡ g.resources.nresources
    pub busy : 0 < g.queue.pop → g.resources.resources ≡ 0
    pub counted : g.arrivals ≡ length arrived
    pub balance :
        (u : ℕ)
        → count u arrived
          ≡ count u (served g.scheduled) + count u waiting + count u g.lost + count u g.moved

  -- A step's result, without a failed check.
  abbrev pub Steps : Option (ResourcePool Time S) → List ℕ → ℕ → Type 0
  Steps result arrived pending =
      (g : ResourcePool Time S) × ((result ≡ some g) × Conserved arrived pending g)

  module _ (k : Clock Time) where
    -- A customer goes into service at a server that is held for it.
    serve-Conserved :
        (arrived : List ℕ) (pending : ℕ) (g : ResourcePool Time S) (c : ℕ) (waiting : List ℕ)
        → QueueHolds keeps g.queue waiting
        → Numbered g.next_id g.scheduled
        → g.resources.resources + length g.scheduled + suc pending ≡ g.resources.nresources
        → (0 < g.queue.pop → g.resources.resources ≡ 0)
        → g.arrivals ≡ length arrived
        → ((u : ℕ)
            → count u arrived
              ≡ count u (c ∷ served g.scheduled)
                + count u waiting
                + count u g.lost
                + count u g.moved)
        → Conserved arrived pending (invoke_service d k g c)
    unfolding invoke_service
    serve-Conserved arrived pending g c waiting queued numbered servers busy counted balance =
        record {
          waiting = waiting;
          queued = queued;
          numbered = (omega arith, numbered);
          servers = omega (arith, servers);
          busy = busy;
          counted = counted;
          balance = balance;
        }

    pub invoke_event-Conserved :
        (arrived : List ℕ) (pending : ℕ) (g : ResourcePool Time S) (e : EndServiceEvent Time)
        → Conserved arrived pending g
        → Has e g.scheduled
        → Steps (invoke_event d k g e) arrived (suc pending)
    unfolding invoke_event
    invoke_event-Conserved arrived pending g e h has =
        let (rest, (found, left)) = without_event-Left g.next_id e g.scheduled h.numbered has in
        let g' : ResourcePool Time S = record g {
          scheduled = rest;
          moved = e.customer ∷ g.moved;
        } in
        (
          g',
          (
            rw found refl,
            record {
              waiting = h.waiting;
              queued = h.queued;
              numbered = left.numbered;
              servers = omega (arith, h.servers, left.longer);
              busy = h.busy;
              counted = h.counted;
              balance = λ u. omega (
                arith,
                h.balance u,
                left.counts u,
                count-cons u e.customer (served rest),
                count-cons u e.customer g.moved,
              );
            },
          ),
        )

    module _ (arrived : List ℕ) (pending : ℕ) (g : ResourcePool Time S) (c : ℕ) (demand : Time)
        (h : Conserved arrived pending g) where
      abbrev g' : ResourcePool Time S
      unfolding entered
      g' = entered d k g c demand

      enter-free :
          resource_is_available g.resources ≡ true → Steps (accept d k g' c) (c ∷ arrived) pending
      unfolding entered accept claim
      enter-free free =
          let some_free = available→lt g.resources free in
          let r : Resource = record (g.resources) {
            resources = g.resources.resources - 1;
            resource_count =
                push_back g.resources.resource_count
                  (g.resources.nresources - (g.resources.resources - 1));
          } in
          (
            invoke_service d k (record g' { resources = r }) c,
            (
              rw free refl,
              serve-Conserved (c ∷ arrived) pending (record g' { resources = r }) c h.waiting
                  h.queued h.numbered (omega (arith, h.servers, some_free))
                  (λ filled. omega (arith, h.busy filled, some_free)) (omega (arith, h.counted))
                  (λ u. omega (
                    arith,
                    h.balance u,
                    count-cons u c arrived,
                    count-cons u c (served g.scheduled),
                  )),
            ),
          )

      enter-queued :
          resource_is_available g.resources ≡ false
          → can_accept g.queue ≡ true
          → Steps (accept d k g' c) (c ∷ arrived) pending
      unfolding entered accept
      enter-queued taken free =
          let ((cs, q), (e, (waiting, (queued, more)))) =
            enqueue-OneMore keeps k.now g'.customers g.queue c h.waiting h.queued free in
          (
            record g' { customers = cs; queue = q },
            (
              rw (taken, e, free) refl,
              record {
                waiting = waiting;
                queued = queued;
                numbered = h.numbered;
                servers = h.servers;
                busy = λ filled. available→none g.resources taken;
                counted = omega (arith, h.counted);
                balance = λ u. omega (
                  arith,
                  h.balance u,
                  count-cons u c arrived,
                  more.counts u,
                  count-cons u c h.waiting,
                );
              },
            ),
          )

      enter-lost :
          resource_is_available g.resources ≡ false
          → can_accept g.queue ≡ false
          → Steps (accept d k g' c) (c ∷ arrived) pending
      unfolding entered accept
      enter-lost taken full = (
        record g' { losses = suc g.losses; lost = c ∷ g.lost },
        (
          rw (taken, full) refl,
          record {
            waiting = h.waiting;
            queued = h.queued;
            numbered = h.numbered;
            servers = h.servers;
            busy = λ filled. available→none g.resources taken;
            counted = omega (arith, h.counted);
            balance =
                λ u. omega (arith, h.balance u, count-cons u c arrived, count-cons u c g.lost);
          },
        ),
      )

      pub enter-Conserved : Steps (enter d k g c demand) (c ∷ arrived) pending
      unfolding enter
      enter-Conserved = elim (Bool-cases (resource_is_available g.resources)) [
        | inl free ↦ enter-free free
        | inr taken ↦ elim (Bool-cases (can_accept g.queue)) [
          | inl room ↦ enter-queued taken room
          | inr full ↦ enter-lost taken full
        ]
      ]

    -- A server that was held is given to the next customer, or is free again.
    module _ (arrived : List ℕ) (pending : ℕ) (g : ResourcePool Time S)
        (h : Conserved arrived (suc pending) g) where
      release-next : is_empty g.queue ≡ false → Steps (release_resource d k g) arrived pending
      unfolding release_resource
      release-next filled =
          let (q, (c, (e, (waiting, (queued, more))))) =
            dequeue-OneMore keeps k.minus k.now g.customers g.queue h.waiting h.queued
              (filled→lt g.queue filled) in
          (
            invoke_service d k (record g { queue = q }) c,
            (
              rw (e, filled) refl,
              serve-Conserved arrived pending (record g { queue = q }) c waiting queued h.numbered
                  h.servers (λ left. h.busy (filled→lt g.queue filled)) h.counted
                  (λ u. omega (
                    arith,
                    h.balance u,
                    more.counts u,
                    count-cons u c waiting,
                    count-cons u c (served g.scheduled),
                  )),
            ),
          )

      release-free : is_empty g.queue ≡ true → Steps (release_resource d k g) arrived pending
      unfolding release_resource release
      release-free empty =
          let test : ltb g.resources.resources g.resources.nresources ≡ true =
            lt→ltb _ _ (omega (arith, h.servers)) in
          (
            record g {
              resources = record (g.resources) {
                resources = suc g.resources.resources;
                resource_count =
                    push_back g.resources.resource_count
                      (g.resources.nresources - suc g.resources.resources);
              };
            },
            (
              rw (empty, test) refl,
              record {
                waiting = h.waiting;
                queued = h.queued;
                numbered = h.numbered;
                servers = omega (arith, h.servers);
                busy = λ filled. absurd (empty→not_lt g.queue empty filled);
                counted = h.counted;
                balance = h.balance;
              },
            ),
          )

      pub release_resource-Conserved : Steps (release_resource d k g) arrived pending
      release_resource-Conserved = elim (Bool-cases (is_empty g.queue)) [
        | inl empty ↦ release-free empty
        | inr filled ↦ release-next filled
      ]
