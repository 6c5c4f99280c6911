-- ===== src/Simulator/Diary/Timely.antt =====
-- Time in the simulator: it never runs backwards.
use vexjine.Common.{
  ℕ, ◌≡◌, refl, ◌∙◌, ap, Bool, true, false, Bool-cases, Option, some, List, [], ◌∷◌, arith, inl,
  inr,
}
use vexjine.Simulator.Lists.{ObjectList, is_empty}
use vexjine.Simulator.Lists.Cells.{Cells, objects}
use vexjine.Simulator.Lists.Memory.{Represents}
use vexjine.Simulator.Lists.Ends.{remove_from_front-Represents}
use vexjine.Simulator.Lists.Refinement.{
  Implements, insert_ordered, insert_in_order-Represents, objects-insert,
}
use vexjine.Simulator.Diary.{Sim, before, schedule, progressed}

-- The order of times, as it is among numbers.
pub record TimeOrder {Time : Type 0} (leb_time : Time → Time → Bool) : Type 0 where
  pub transitive : (a b c : Time) → leb_time a b ≡ true → leb_time b c ≡ true → leb_time a c ≡ true
  pub total : (a b : Time) → leb_time a b ≡ false → leb_time b a ≡ true
  pub reflexive : (a : Time) → leb_time a a ≡ true

module _ {Time : Type 0} (leb_time : Time → Time → Bool) (times : ℕ → Time) where
  -- All events are at that time or later.
  abbrev pub From : Time → List ℕ → Type 0
  From t [] = Unit {0}
  From t (e ∷ es) = (leb_time t (times e) ≡ true) × From t es

  abbrev pub InOrder : List ℕ → Type 0
  InOrder [] = Unit {0}
  InOrder (e ∷ es) = From (times e) es × InOrder es

  module _ (order : TimeOrder leb_time) where
    From-later : (t t' : Time) (es : List ℕ) → leb_time t t' ≡ true → From t' es → From t es
    From-later t t' [] h f = tt
    From-later t t' (e ∷ es) h (first, f) =
        (order.transitive t t' (times e) h first, From-later t t' es h f)

    From-insert :
        (t : Time) (e : ℕ) (es : List ℕ)
        → leb_time t (times e) ≡ true
        → From t es
        → From t (insert_ordered (before leb_time times) e es)
    From-insert t e [] h f = (h, tt)
    From-insert t e (x ∷ es) h (first, f) = elim (Bool-cases (before leb_time times x e)) [
      | inl comes ↦ rw comes (first, From-insert t e es h f)
      | inr later ↦ rw later (h, (first, f))
    ]

    InOrder-insert :
        (e : ℕ) (es : List ℕ) → InOrder es → InOrder (insert_ordered (before leb_time times) e es)
    unfolding before
    InOrder-insert e [] o = (tt, tt)
    InOrder-insert e (x ∷ es) (f, o) = elim (Bool-cases (leb_time (times x) (times e))) [
      | inl comes ↦ rw comes (From-insert (times x) e es comes f, InOrder-insert e es o)
      | inr later ↦
          let earlier = order.total (times x) (times e) later in
          rw later ((earlier, From-later (times e) (times x) es earlier f), (f, o))
    ]

heads : {x y : ℕ} {xs ys : List ℕ} → x ∷ xs ≡ y ∷ ys → (x ≡ y) × (xs ≡ ys)
heads {x} {y} {xs} {ys} e =
    (ap (λ l. elim l [ [] ↦ x | z ∷ zs ↦ z ]) e, ap (λ l. elim l [ [] ↦ xs | z ∷ zs ↦ zs ]) e)

empty_first : (l : ObjectList) → l.first_node ≡ 0 → is_empty l ≡ false → ⊥
unfolding is_empty
empty_first l e filled = ground arith

module _ {Time W : Type 0} (leb_time : Time → Time → Bool) where
  -- The diary is in order, and holds nothing of the past.
  pub record Timely (s : Sim Time W) : Type 0 where
    pub events : List ℕ
    pub kept : Implements s.diary events
    pub to_come : From leb_time s.invoke_time s.vtime events
    pub in_order : InOrder leb_time s.invoke_time events

  -- A scheduled event is put in its place, behind those of the same time.
  abbrev pub Scheduled : Sim Time W → ℕ → List ℕ → Option (Sim Time W) → Type 0
  Scheduled s e events result =
      (s' : Sim Time W) × ((result ≡ some s')
        × Timely s'
        × (s'.vtime ≡ s.vtime)
        × Implements s'.diary (insert_ordered (before leb_time s.invoke_time) e events))

  module _ (order : TimeOrder leb_time) where
    -- `Sim::schedule` keeps the diary in order of time. An event that is not in the past is put
    -- behind all events of its time or earlier, and before the others.
    pub schedule-Scheduled :
        (s : Sim Time W) (e : ℕ) (timely : Timely s)
        → leb_time s.vtime (s.invoke_time e) ≡ true
        → Scheduled s e timely.events (schedule leb_time s e)
    unfolding schedule
    schedule-Scheduled s e timely h =
        let (cs, (r, same)) = timely.kept in
        let earlier = before leb_time s.invoke_time in
        let (l, (inserted, r')) = insert_in_order-Represents s.diary cs e r earlier in
        let kept : Implements l (insert_ordered earlier e timely.events) =
          (_, (r', objects-insert earlier e _ cs ∙ ap (insert_ordered earlier e) same)) in
        (
          record s { diary = l },
          (
            rw inserted refl,
            record {
              events = insert_ordered earlier e timely.events;
              kept = kept;
              to_come =
                  From-insert leb_time s.invoke_time order s.vtime e timely.events h timely.to_come;
              in_order =
                  InOrder-insert leb_time s.invoke_time order e timely.events timely.in_order;
            },
            refl,
            kept,
          ),
        )

    -- The next event is the earliest.
    pub progressed-From :
        (s : Sim Time W) (cs : Cells) (events : List ℕ)
        → Represents s.diary cs
        → objects cs ≡ events
        → From leb_time s.invoke_time s.vtime events
        → InOrder leb_time s.invoke_time events
        → is_empty s.diary ≡ false
        → (s' : Sim Time W) × ((e : ℕ) × ((progressed s ≡ some (s', e))
              × Timely s'
              × (leb_time s.vtime s'.vtime ≡ true)))
    unfolding progressed is_empty
    progressed-From s [] events r same f o filled = absurd (empty_first s.diary r.starts filled)
    progressed-From s ((a, e) ∷ cs) [] r same f o filled = absurd (cc)
    progressed-From s ((a, e) ∷ cs) (e' ∷ es) r same (first, f) (f', o) filled =
        let (l, (removed, r')) = remove_from_front-Represents s.diary a e cs r in
        let (head, tail) = heads same in
        (
          record s { diary = l; vtime = s.invoke_time e },
          (
            e,
            (
              rw removed refl,
              record { events = es; kept = (cs, (r', tail)); to_come = rw head f'; in_order = o },
              rw head first,
            ),
          ),
        )
