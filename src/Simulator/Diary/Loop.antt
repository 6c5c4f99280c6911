-- ===== src/Simulator/Diary/Loop.antt =====
-- The simulator's loop, for events that act in the present.
use vexjine.Common.{ℕ, zero, suc, ◌≡◌, refl, Bool, true, ◌||◌, Bool-cases, Option, some, inl, inr}
use vexjine.Simulator.Lists.{is_empty}
use vexjine.Simulator.Diary.{Sim, Ended, ended, broken, out_of_fuel, invoked, go}
use vexjine.Simulator.Diary.Timely.{TimeOrder, Timely, progressed-From}

module _ {Time W : Type 0} (leb_time : Time → Time → Bool) where
  -- An event that is invoked does not fail, leaves the clock alone and schedules nothing in the
  -- past.
  abbrev pub Invokes : (Sim Time W → ℕ → Option (Sim Time W)) → Type 0
  Invokes invoke =
      (s : Sim Time W) (e : ℕ)
      → Timely leb_time s
      → (s' : Sim Time W) × ((invoke s e ≡ some s') × Timely leb_time s' × (s'.vtime ≡ s.vtime))

  -- The loop is not broken, and where it ends, time has not gone back, the diary is in order, and
  -- there is nothing left to do.
  abbrev pub Runs : (Sim Time W → Bool) → Sim Time W → Ended (Sim Time W) → Type 0
  Runs stop s (ended s') =
      Timely leb_time s'
      × (leb_time s.vtime s'.vtime ≡ true)
      × ((is_empty s'.diary || stop s') ≡ true)
  Runs stop s broken = ⊥
  Runs stop s out_of_fuel = Unit {0}

  module _ (order : TimeOrder leb_time) (stop : Sim Time W → Bool)
      (invoke : Sim Time W → ℕ → Option (Sim Time W)) (invokes : Invokes invoke) where
    Runs-later :
        (s s' : Sim Time W) (r : Ended (Sim Time W))
        → leb_time s.vtime s'.vtime ≡ true
        → Runs stop s' r
        → Runs stop s r
    Runs-later s s' (ended s'') h (timely, later, over) =
        (timely, order.transitive s.vtime s'.vtime s''.vtime h later, over)
    Runs-later s s' broken h r = r
    Runs-later s s' out_of_fuel h r = tt

    invoked-Timely :
        (s : Sim Time W) (e : ℕ)
        → Timely leb_time s
        → (s' : Sim Time W) × ((invoked stop invoke s e ≡ some s')
            × Timely leb_time s'
            × (s'.vtime ≡ s.vtime))
    unfolding invoked
    invoked-Timely s e timely = elim (Bool-cases (stop s)) [
      | inl over ↦ (s, (rw over refl, timely, refl))
      | inr on ↦
          let (s', (e, timely', same)) = invokes s e timely in
          (s', (rw (on, e) refl, timely', same))
    ]

    -- The loop of the simulator. If events schedule nothing in the past, time never runs backwards;
    -- the loop is never broken, and it ends only when the diary is empty or the simulation stops.
    pub go-Runs :
        (fuel : ℕ) (s : Sim Time W) → Timely leb_time s → Runs stop s (go stop invoke fuel s)
    unfolding go
    go-Runs zero s timely = tt
    go-Runs (suc fuel) s timely = elim (Bool-cases (is_empty s.diary)) [
      | inl empty ↦ rw empty (timely, order.reflexive s.vtime, rw empty refl)
      | inr filled ↦ elim (Bool-cases (stop s)) [
        | inl over ↦ rw (filled, over) (timely, order.reflexive s.vtime, rw (filled, over) refl)
        | inr on ↦
            let (cs, (r, same)) = timely.kept in
            let (s1, (e, (next, timely1, later))) =
              progressed-From leb_time order s cs timely.events r same timely.to_come
                timely.in_order filled in
            let (s2, (done, timely2, unmoved)) = invoked-Timely s1 e timely1 in
            rw (filled, on, next, done)
              (Runs-later s s2 _ (rw unmoved later) (go-Runs fuel s2 timely2))
      ]
    ]
