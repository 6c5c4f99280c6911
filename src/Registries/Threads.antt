-- ===== src/Registries/Threads.antt =====
-- ThreadRegistry.h and ThreadRegistry.cpp: the threads that the framework knows, and whether one of
-- them forbids a leap in virtual time. `threads` gives the state behind each pointer. The index is an
-- `unordered_map` in the order of its iteration. The registry's mutex makes each operation one step.
pub mod Activity
pub mod Spawning
use vexjine.Common.{
  ℕ, ◌+◌, ◌-◌, ◌%◌, ◌==◌, Bool, true, false, not, ◌&&◌, ◌||◌, Option, none, some, List, [], ◌∷◌,
  Map, put, empty_map, push_back, ℤ, pos, ◌+ℤ◌, ◌-ℤ◌, ◌*ℤ◌, ltb_ℤ, ltb, if◌then◌else◌,
}
use vexjine.Threads.Code.{ordinal}
use vexjine.Threads.Timers.{set_estimated_real_time}
use vexjine.Threads.Scheduling.{set_awakening_from_join}
use vexjine.Threads.State.{
  VexThreadState, is_suspended, is_native_waiting, is_dead, is_definitely_active,
}

pub record ThreadRegistry : Type 0 where
  pub threads : ℕ → VexThreadState
  pub thread_state_index : List (ℕ × ℕ)
  pub sortable_vector_of_thread_state_indices : List ℕ
  pub parent_thread_ids_to_their_erts : Map ℤ
  -- The thread that waits for a thread to end, if there is one.
  pub parent_thread_waiting_you_to_join : Map ℕ
  -- An `int` that starts at 0 and is decremented only when it is not 0.
  pub threads_being_spawned : ℕ
  pub main_thread_state : Option ℕ
  pub main_defined : Bool
  pub forward_leaps_allowed : Bool
  pub total_threads_controlled : ℕ

unfoldable pub new_registry : (ℕ → VexThreadState) → ThreadRegistry
new_registry threads = record {
  threads = threads;
  thread_state_index = [];
  sortable_vector_of_thread_state_indices = [];
  parent_thread_ids_to_their_erts = empty_map;
  parent_thread_waiting_you_to_join = empty_map;
  threads_being_spawned = 0;
  main_thread_state = none;
  main_defined = false;
  forward_leaps_allowed = true;
  total_threads_controlled = 0;
}

-- `find`, `operator[]` with an assignment, and `erase` of the index.
unfoldable pub lookup : List (ℕ × ℕ) → ℕ → Option ℕ
lookup [] id = none
lookup ((k, p) ∷ index) id = if k == id then some p else lookup index id

unfoldable pub assign : List (ℕ × ℕ) → ℕ → ℕ → List (ℕ × ℕ)
assign [] id p = (id, p) ∷ []
assign ((k, q) ∷ index) id p = if k == id then (k, p) ∷ index else (k, q) ∷ assign index id p

unfoldable pub erase_key : List (ℕ × ℕ) → ℕ → List (ℕ × ℕ)
erase_key [] id = []
erase_key ((k, q) ∷ index) id = if k == id then index else (k, q) ∷ erase_key index id

unfoldable pub get_current_thread_state : ThreadRegistry → ℕ → Option ℕ
unfolding lookup
get_current_thread_state r id = lookup r.thread_state_index id

unfoldable pub is_empty : ThreadRegistry → Bool
is_empty r = elim r.thread_state_index [ [] ↦ true | entry ∷ index ↦ false ]

-- `if (threadsBeingSpawned) --threadsBeingSpawned`, also `newThreadStarted`.
unfoldable pub new_thread_started : ThreadRegistry → ThreadRegistry
new_thread_started r = record r {
  threads_being_spawned = if r.threads_being_spawned == 0 then 0 else r.threads_being_spawned - 1;
}

inherit : VexThreadState → Option ℤ → VexThreadState
unfolding set_estimated_real_time
inherit s none = s
inherit s (some ert) = record s { timers = set_estimated_real_time s.timers ert }

-- `is_main`: is the thread's name "main"?
unfoldable pub add : ThreadRegistry → ℕ → Bool → ThreadRegistry
unfolding inherit assign new_thread_started
add r p is_main =
    let s = r.threads p in
    let id = s.jthread_id in
    new_thread_started (record r {
      threads = put r.threads p (inherit s (r.parent_thread_ids_to_their_erts id));
      parent_thread_ids_to_their_erts = put r.parent_thread_ids_to_their_erts id none;
      thread_state_index = assign r.thread_state_index id p;
      sortable_vector_of_thread_state_indices =
          push_back r.sortable_vector_of_thread_state_indices p;
      main_thread_state = if is_main then some p else r.main_thread_state;
      main_defined = is_main || r.main_defined;
      total_threads_controlled = (r.total_threads_controlled + 1) % 4_294_967_296;
    })

unfoldable pub set_awakening : ThreadRegistry → ℕ → ThreadRegistry
unfolding set_awakening_from_join
set_awakening r p =
    let s = r.threads p in
    record r {
      threads =
          put r.threads p (record s { scheduling = set_awakening_from_join s.scheduling true });
    }

-- `notifyParentWaitingForYouToJoin` of the thread.
unfoldable pub notify_parent_waiting_to_join : ThreadRegistry → ℕ → ThreadRegistry
unfolding set_awakening
notify_parent_waiting_to_join r p = elim (r.parent_thread_waiting_you_to_join p) [
  | none ↦ r
  | some parent ↦ set_awakening r parent
]

-- `erase(std::remove(...))`: every occurrence goes.
unfoldable pub remove_all : ℕ → List ℕ → List ℕ
remove_all p [] = []
remove_all p (q ∷ qs) = let rest = remove_all p qs in if q == p then rest else q ∷ rest

same : Option ℕ → ℕ → Bool
same none p = false
same (some q) p = q == p

unfoldable pub remove : ThreadRegistry → ℕ → ThreadRegistry
unfolding notify_parent_waiting_to_join erase_key remove_all same
remove r p =
    let r' = notify_parent_waiting_to_join r p in
    record r' {
      thread_state_index = erase_key r'.thread_state_index (r'.threads p).jthread_id;
      sortable_vector_of_thread_state_indices =
          remove_all p r'.sortable_vector_of_thread_state_indices;
      main_thread_state = if same r'.main_thread_state p then none else r'.main_thread_state;
    }

unfoldable pub no_process_threads_left : ThreadRegistry → Bool
unfolding is_empty
no_process_threads_left r =
    r.threads_being_spawned == 0
    && (elim r.main_thread_state [ none ↦ true | some p ↦ false ])
    && is_empty r

unfoldable pub is_main_still_alive : ThreadRegistry → Bool
is_main_still_alive r =
    not r.main_defined || (elim r.main_thread_state [ none ↦ false | some p ↦ true ])

-- The time at which a thread that is being spawned begins, and one more of these threads.
unfoldable pub tell : ThreadRegistry → ℕ → ℤ → ThreadRegistry
tell r child ert = record r {
  parent_thread_ids_to_their_erts = put r.parent_thread_ids_to_their_erts child (some ert);
  threads_being_spawned = r.threads_being_spawned + 1;
}

-- `newThreadBeingSpawned(parent, child)`. An unknown parent other than 0 fails an assertion.
unfoldable pub new_thread_being_spawned_by : ThreadRegistry → ℕ → ℕ → Option ThreadRegistry
unfolding lookup tell
new_thread_being_spawned_by r parent child = elim (lookup r.thread_state_index parent) [
  | some p ↦ some (tell r child (r.threads p).timers.estimated_real_time)
  | none ↦ if parent == 0 then some (tell r child (pos 0)) else none
]

unfoldable pub has_thread_parent_registered_this_thread : ThreadRegistry → ℕ → Bool
has_thread_parent_registered_this_thread r id = elim (r.parent_thread_ids_to_their_erts id) [
  | none ↦ false
  | some ert ↦ true
]

-- `state` waits for the thread with the id `joining`. `false`: threads are still being spawned.
unfoldable pub coordinate_joining_threads : ThreadRegistry → ℕ → ℕ → ThreadRegistry × Bool
unfolding lookup is_dead set_awakening
coordinate_joining_threads r state joining =
    if ltb 0 r.threads_being_spawned
    then (r, false)
    else elim (lookup r.thread_state_index joining) [
      | none ↦ (set_awakening r state, true)
      | some other ↦
          if not (is_dead (r.threads other))
          then (
            record r {
              parent_thread_waiting_you_to_join =
                  put r.parent_thread_waiting_you_to_join other (some state);
            },
            true,
          )
          else (set_awakening r state, true)
    ]
