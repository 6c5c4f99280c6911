-- ===== src/Timeline/Multicore.antt =====
-- The classes MulticoreVirtualTimeline and DisablingMulticoreVirtualTimeline: one local clock for
-- each processor and a global one. `local_core_active` is the array that only the subclass has; a
-- call of a virtual function goes by it. The mutex makes each operation one step. An index is a
-- processor's: a read out of the array, which the code never makes, gives 0 here.
pub mod Clocks
pub mod Disabling
pub mod Commits
pub mod Blocking
pub mod Local
use mathlib.Core.Option
use vexjine.Common.{
  ℕ, zero, suc, Bool, true, false, not, ◌&&◌, Option, none, some, List, [], ◌∷◌, get_elem?, set, ℤ,
  pos, ◌+ℤ◌, ◌-ℤ◌, ltb_ℤ, eqb_ℤ, max_ℤ, if◌then◌else◌, map, ◌>>=◌,
}

pub record MulticoreVirtualTimeline : Type 0 where
  pub global_virtual_time : ℤ
  pub local_core_virtual_times : List ℤ
  pub local_core_active : Option (List Bool)

abbrev pub replicate {ℓ} : {A : Type ℓ} → ℕ → A → List A
replicate zero a = []
replicate (suc n) a = a ∷ replicate n a

abbrev pub time_at : List ℤ → ℕ → ℤ
time_at times i = elim (get_elem? times i) [ none ↦ pos 0 | some t ↦ t ]

-- The constructors of the two classes.
abbrev pub new_multicore : ℕ → MulticoreVirtualTimeline
new_multicore schedulers = record {
  global_virtual_time = pos 0;
  local_core_virtual_times = replicate schedulers (pos 0);
  local_core_active = none;
}

abbrev pub new_disabling : ℕ → MulticoreVirtualTimeline
new_disabling schedulers = record (new_multicore schedulers) {
  local_core_active = some (replicate schedulers false);
}

unfoldable pub get_local_time : MulticoreVirtualTimeline → ℕ → ℤ
get_local_time m id = time_at m.local_core_virtual_times id

-- LLONG_MAX.
abbrev pub llong_max : ℤ
llong_max = pos 9_223_372_036_854_775_807

-- The loop that looks for the smallest local time of an active core.
unfoldable pub min_active : List ℤ → List Bool → ℤ → ℤ
min_active [] active min = min
min_active (t ∷ ts) [] min = min
min_active (t ∷ ts) (a ∷ rest) min = min_active ts rest (if a && ltb_ℤ t min then t else min)

-- `updateGlobalTimeTo` of the subclass, and its `getUpdatedGlobalTime`.
unfoldable pub update_to_min_active :
    MulticoreVirtualTimeline → List Bool → MulticoreVirtualTimeline
unfolding min_active
update_to_min_active m active =
    let min = min_active m.local_core_virtual_times active llong_max in
    if not (eqb_ℤ min llong_max) then record m { global_virtual_time = min } else m

unfoldable pub update_global_time_to : MulticoreVirtualTimeline → ℤ → MulticoreVirtualTimeline
unfolding update_to_min_active
update_global_time_to m time = elim m.local_core_active [
  | none ↦ record m { global_virtual_time = max_ℤ m.global_virtual_time time }
  | some active ↦ update_to_min_active m active
]

unfoldable pub get_updated_global_time : MulticoreVirtualTimeline → MulticoreVirtualTimeline × ℤ
unfolding update_to_min_active
get_updated_global_time m = elim m.local_core_active [
  | none ↦ (m, m.global_virtual_time)
  | some active ↦ let m' = update_to_min_active m active in (m', m'.global_virtual_time)
]

unfoldable pub leap_forward_to : MulticoreVirtualTimeline → ℤ → ℕ → MulticoreVirtualTimeline
unfolding update_global_time_to
leap_forward_to m time id =
    let times =
      set m.local_core_virtual_times id (max_ℤ (time_at m.local_core_virtual_times id) time) in
    update_global_time_to (record m { local_core_virtual_times = times }) (time_at times id)

-- The loops for the latest local time and for the core with the earliest one, from the second
-- core on: `i` is the index of the first element of the rest.
unfoldable pub latest : List ℤ → ℤ → ℤ
latest [] max = max
latest (t ∷ ts) max = latest ts (max_ℤ max t)

unfoldable pub earliest : List ℤ → ℕ → ℤ → ℕ → ℕ
earliest [] i min at = at
earliest (t ∷ ts) i min at =
    let before = ltb_ℤ t min in
    earliest ts (suc i) (if before then t else min) (if before then i else at)

abbrev pub tail : List ℤ → List ℤ
tail [] = []
tail (t ∷ ts) = ts

unfoldable pub add_time_of_unknown_real_time_duration_and_synchronize :
    MulticoreVirtualTimeline → ℤ → MulticoreVirtualTimeline
unfolding latest update_global_time_to
add_time_of_unknown_real_time_duration_and_synchronize m forward =
    let times = m.local_core_virtual_times in
    let max = latest (tail times) (time_at times 0) +ℤ forward in
    update_global_time_to (record m { local_core_virtual_times = map (λ t. max) times }) max

unfoldable pub add_time_of_thread_executing_at_unknown_time :
    MulticoreVirtualTimeline → ℤ → MulticoreVirtualTimeline
unfolding earliest update_global_time_to
add_time_of_thread_executing_at_unknown_time m forward =
    let times = m.local_core_virtual_times in
    let id = earliest (tail times) 1 (time_at times 0) 0 in
    let times' = set times id (time_at times id +ℤ forward) in
    update_global_time_to (record m { local_core_virtual_times = times' }) (time_at times' id)

unfoldable pub get_local_timeline_activation_time :
    MulticoreVirtualTimeline → ℤ → ℕ → MulticoreVirtualTimeline × ℤ
unfolding update_global_time_to
get_local_timeline_activation_time m thread_time id =
    let times =
      set m.local_core_virtual_times id
        (max_ℤ (time_at m.local_core_virtual_times id) thread_time) in
    let active = Option.map (λ a. set a id true) m.local_core_active in
    (
      update_global_time_to
          (record m { local_core_virtual_times = times; local_core_active = active }) thread_time,
      time_at times id,
    )

-- `reset()` of the two classes.
unfoldable pub reset : MulticoreVirtualTimeline → MulticoreVirtualTimeline
reset m = record m {
  global_virtual_time = pos 0;
  local_core_virtual_times = map (λ t. pos 0) m.local_core_virtual_times;
  local_core_active = Option.map (λ a. map (λ b. false) a) m.local_core_active;
}

none_active : List Bool → Bool
none_active [] = true
none_active (a ∷ rest) = not a && none_active rest

-- `pthread_mutex_lock` on a mutex of the default type, `true` when the calling thread holds it: a
-- thread that locks it twice waits for ever.
unfoldable pub lock : Bool → Option Bool
lock true = none
lock false = some true

-- `disableLocalTimeline` of the base class, which locks nothing, and of the subclass.
from_flags :
    Bool
    → MulticoreVirtualTimeline
    → ℕ
    → Option (List Bool)
    → Option (MulticoreVirtualTimeline × Bool)
unfolding none_active lock
from_flags held m id none = some (m, false)
from_flags held m id (some active) = do
  held' ← lock held
  let active' = set active id false
  some (record m { local_core_active = some active' }, none_active active')

-- `held`: does the calling thread hold the mutex already?
unfoldable pub disable_local_timeline :
    Bool → MulticoreVirtualTimeline → ℕ → Option (MulticoreVirtualTimeline × Bool)
unfolding from_flags
disable_local_timeline held m id = from_flags held m id m.local_core_active

-- The call of `disableLocalTimeline` stands between the lock and the unlock of the mutex.
unfoldable pub should_block_core_progress :
    MulticoreVirtualTimeline → ℤ → ℕ → Option (MulticoreVirtualTimeline × Bool)
unfolding lock disable_local_timeline
should_block_core_progress m timeslot id = elim (lock false) [
  | none ↦ none
  | some held ↦
      if ltb_ℤ timeslot (time_at m.local_core_virtual_times id -ℤ m.global_virtual_time)
      then elim (disable_local_timeline held m id) [
        | none ↦ none
        | some (m', all_disabled) ↦ some (m', not all_disabled)
      ]
      else some (m, false)
]
