-- ===== src/Timeline/Multicore/Blocking.antt =====
-- When a core is to wait for the others, and when the call never returns.
use vexjine.Common.{
  ℕ, ◌≡◌, refl, ap, inl, inr, Bool, true, false, Bool-cases, Option, none, some, List, ℤ, ◌-ℤ◌,
  ltb_ℤ, if◌then◌else◌,
}
use vexjine.Timeline.Multicore.{
  MulticoreVirtualTimeline, time_at, from_flags, disable_local_timeline, should_block_core_progress,
}

-- The core's clock is ahead of the global one by more than the timeslot.
abbrev pub is_ahead : MulticoreVirtualTimeline → ℤ → ℕ → Bool
is_ahead m timeslot id =
    ltb_ℤ timeslot (time_at m.local_core_virtual_times id -ℤ m.global_virtual_time)

disable-held :
    (m : MulticoreVirtualTimeline) (id : ℕ) (active : List Bool)
    → m.local_core_active ≡ some active
    → disable_local_timeline true m id ≡ none
unfolding disable_local_timeline from_flags
disable-held m id active h = ap (λ o. from_flags true m id o) h

-- In the subclass the call never returns if the core is ahead: it holds the mutex and asks
-- `disableLocalTimeline` to lock it again. Otherwise it answers that the core need not wait, and
-- changes nothing.
pub should_block-disabling :
    (m : MulticoreVirtualTimeline) (timeslot : ℤ) (id : ℕ) (active : List Bool)
    → m.local_core_active ≡ some active
    → should_block_core_progress m timeslot id
      ≡ (if is_ahead m timeslot id then none else some (m, false))
unfolding should_block_core_progress
should_block-disabling m timeslot id active h = elim (Bool-cases (is_ahead m timeslot id)) [
  | inl e ↦ rw (e, disable-held m id active h, should_block_core_progress) refl
  | inr e ↦ rw (e, should_block_core_progress) refl
]

free-answers :
    (m : MulticoreVirtualTimeline) (id : ℕ) (active : Option (List Bool))
    → (m' : MulticoreVirtualTimeline) × ((b : Bool) × (from_flags false m id active ≡ some (m', b)))
unfolding from_flags
free-answers m id none = (m, (false, refl))
free-answers m id (some active) = (_, (_, refl))

-- A thread that does not hold the mutex gets an answer.
pub disable-free :
    (m : MulticoreVirtualTimeline) (id : ℕ)
    → (m' : MulticoreVirtualTimeline) × ((b : Bool) × (disable_local_timeline false m id
          ≡ some (m', b)))
unfolding disable_local_timeline
disable-free m id = free-answers m id m.local_core_active
