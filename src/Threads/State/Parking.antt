-- ===== src/Threads/State/Parking.antt =====
-- Parking as a permit, and what an interrupt leaves behind.
use vexjine.Common.{
  ◌≡◌, refl, Bool, true, false, List, [], ◌∷◌, some, pos, ◌≤ℤ◌, ltb_ℤ, ◌==◌, if◌then◌else◌, arith,
}
use vexjine.Threads.Code.{suspended}
use vexjine.Threads.State.{VexThreadState}
use vexjine.Threads.State.Waiting.{
  get_and_set_unparked_state, get_and_set_parked_state, before_thread_interrupt_at,
}
use vexjine.Registries.Object.{ObjectRegistry, erase}

-- What a thread has of the permit of `LockSupport`: nothing, a permit that is left for it, or a
-- thread that is parked until one comes.
pub data Permit : Type 0 where
  absent available awaited : Permit

pub data ParkingCall : Type 0 where
  parks unparks : ParkingCall

-- The specification: `park` returns whether it may go on at once, `unpark` whether it wakes.
pub permit_step : Permit → ParkingCall → Permit × Bool
permit_step absent parks = (awaited, false)
permit_step available parks = (absent, true)
permit_step awaited parks = (awaited, false)
permit_step absent unparks = (available, false)
permit_step available unparks = (available, false)
permit_step awaited unparks = (absent, true)

pub state_step : VexThreadState → ParkingCall → VexThreadState × Bool
state_step s parks = get_and_set_unparked_state s
state_step s unparks = get_and_set_parked_state s

abbrev flags_permit : Bool → Bool → Permit
flags_permit true parked = available
flags_permit false true = awaited
flags_permit false false = absent

pub permit : VexThreadState → Permit
permit s = flags_permit s.already_unparked s.parked

-- A permit is never left for a thread that is parked.
abbrev pub IsSound : VexThreadState → Type 0
IsSound s = s.already_unparked ≡ true → s.parked ≡ false

state_step-permit :
    (s : VexThreadState) (c : ParkingCall)
    → IsSound s
    → (permit (state_step s c).0 ≡ (permit_step (permit s) c).0)
      × ((state_step s c).1 ≡ (permit_step (permit s) c).1)
      × IsSound (state_step s c).0
unfolding state_step permit permit_step get_and_set_unparked_state get_and_set_parked_state
state_step-permit s parks h = ground arith
state_step-permit s unparks h = ground arith

pub permit_run : Permit → List ParkingCall → Permit × List Bool
permit_run p [] = (p, [])
permit_run p (c ∷ cs) =
    let (p', answer) = permit_step p c in
    let (p'', answers) = permit_run p' cs in (p'', answer ∷ answers)

pub state_run : VexThreadState → List ParkingCall → VexThreadState × List Bool
state_run s [] = (s, [])
state_run s (c ∷ cs) =
    let (s', answer) = state_step s c in
    let (s'', answers) = state_run s' cs in (s'', answer ∷ answers)

-- From a thread that is not parked while a permit is left for it, every sequence of park and
-- unpark calls gives the answers of the permit, and ends in its state.
pub state_run-permit_run :
    (s : VexThreadState) (cs : List ParkingCall)
    → IsSound s
    → (permit (state_run s cs).0 ≡ (permit_run (permit s) cs).0)
      × ((state_run s cs).1 ≡ (permit_run (permit s) cs).1)
      × IsSound (state_run s cs).0
unfolding state_run permit_run
state_run-permit_run s [] h = (refl, refl, h)
state_run-permit_run s (c ∷ cs) h =
    let (state, answer, sound) = state_step-permit s c h in
    let (state', answers, sound') = state_run-permit_run (state_step s c).0 cs sound in ground arith

-- An interrupt leaves a thread suspended, neither parked nor timed out, at the same time; its
-- timeout is not negative, and if it was parked with a timeout this is remembered. Its record is
-- taken from the object that it waited on.
pub interrupt_outcome :
    (s : VexThreadState) (r : ObjectRegistry)
    → let (s', r') = before_thread_interrupt_at s (some r) in
      (s'.current_state ≡ suspended)
      × (s'.timed_out ≡ false)
      × (s'.parked ≡ false)
      × (s'.timers.estimated_real_time ≡ s.timers.estimated_real_time)
      × (pos 0 ≤ℤ s'.timers.timeout)
      × (s.parked ≡ true
          → ltb_ℤ (pos 0) s.timers.timeout ≡ true
          → s'.after_interrupted_timed_parking ≡ true)
      × (r'
          ≡ some (
              if s.timed_waiting_object_id == 0
              then r
              else erase r s.timed_waiting_object_id s.jthread_id))
unfolding before_thread_interrupt_at
interrupt_outcome s r =
    (refl, refl, ground arith, ground arith, ground arith, λ p t. ground arith, ground arith)
