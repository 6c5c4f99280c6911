-- ===== src/Simulator/Diary.antt =====
-- cinqs/tools/Diary.cpp and Sim.cpp: the diary of events and the loop that invokes them. An event is
-- its id; what `invoke` does, and when to stop, are the simulation's own.
pub mod Timely
pub mod Loop
use vexjine.Common.{
  ℕ, zero, suc, Bool, true, false, not, ◌&&◌, Option, none, some, ◌>>=◌, if◌then◌else◌,
}
use vexjine.Simulator.Lists.{ObjectList, is_empty, insert_in_order, remove, remove_from_front}

-- `W` is the rest of the simulated world.
pub record Sim (Time W : Type 0) : Type 0 where
  pub diary : ObjectList
  pub vtime : Time
  pub invoke_time : ℕ → Time
  pub world : W

-- The end of a run of the loop.
pub data Ended (A : Type 0) : Type 0 where
  ended : A → Ended A
  broken : Ended A
  out_of_fuel : Ended A

unfoldable pub before : {Time : Type 0} → (Time → Time → Bool) → (ℕ → Time) → ℕ → ℕ → Bool
before leb_time times x y = leb_time (times x) (times y)

module _ {Time W : Type 0} (leb_time : Time → Time → Bool) where
  unfoldable pub schedule : Sim Time W → ℕ → Option (Sim Time W)
  schedule s e = do
    diary ← insert_in_order (before leb_time s.invoke_time) s.diary e
    some (record s { diary = diary })

module _ {Time W : Type 0} where
  unfoldable pub deschedule : Sim Time W → ℕ → Option (Sim Time W)
  deschedule s e = do diary ← remove s.diary e; some (record s { diary = diary })

  -- The next event leaves the diary, and the time is the event's.
  unfoldable pub progressed : Sim Time W → Option (Sim Time W × ℕ)
  progressed s = do
    (diary, e) ← remove_from_front s.diary
    some (record s { diary = diary; vtime = s.invoke_time e }, e)

  module _ (stop : Sim Time W → Bool) (invoke : Sim Time W → ℕ → Option (Sim Time W)) where
    unfoldable pub invoked : Sim Time W → ℕ → Option (Sim Time W)
    invoked s e = if not (stop s) then invoke s e else some s

    unfoldable pub go : ℕ → Sim Time W → Ended (Sim Time W)
    go zero s = out_of_fuel
    go (suc fuel) s =
        let again = λ (s' : Sim Time W). go fuel s' in
        if not (is_empty s.diary) && not (stop s)
        then elim (do (s', e) ← progressed s; invoked s' e) [ none ↦ broken | some s' ↦ again s' ]
        else ended s
