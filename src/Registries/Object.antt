-- ===== src/Registries/Object.antt =====
-- ObjectRegistry.h and ObjectRegistry.cpp: the threads that wait on an object's monitor.
-- Thread and object ids are numbers; 0 is what a query returns when no thread waits.
pub mod Laws
use vexjine.Common.{
  erase_first, ℕ, Bool, true, false, Option, none, some, List, [], ◌∷◌, Map, put, empty_map,
  push_back, unsnoc, ◌==◌, if◌then◌else◌,
}

pub record ObjectRegistryInfo : Type 0 where
  pub threads_waiting : List ℕ
  pub monitor_free : Bool

unfoldable pub new_info : ObjectRegistryInfo
new_info = record { threads_waiting = []; monitor_free = true }

unfoldable pub enter_monitor : ObjectRegistryInfo → ObjectRegistryInfo
enter_monitor i = record i { monitor_free = false }

unfoldable pub release_monitor : ObjectRegistryInfo → ObjectRegistryInfo
release_monitor i = record i { monitor_free = true }

abbrev pub ObjectRegistry : Type 0
ObjectRegistry = Map ObjectRegistryInfo

unfoldable pub new_registry : ObjectRegistry
new_registry = empty_map

unfoldable pub last_or_zero : List ℕ → ℕ
last_or_zero ts = elim (unsnoc ts) [ none ↦ 0 | some (rest, t) ↦ t ]

unfoldable pub but_last : List ℕ → List ℕ
but_last ts = elim (unsnoc ts) [ none ↦ [] | some (rest, t) ↦ rest ]

unfoldable pub find_next : ObjectRegistry → ℕ → ℕ
unfolding last_or_zero
find_next r object = elim (r object) [ some i ↦ last_or_zero i.threads_waiting | none ↦ 0 ]

unfoldable pub get_next : ObjectRegistry → ℕ → ObjectRegistry × ℕ
unfolding last_or_zero but_last
get_next r object = elim (r object) [
  | some i ↦ (
    put r object (some (record i { threads_waiting = but_last i.threads_waiting })),
    last_or_zero i.threads_waiting,
  )
  | none ↦ (r, 0)
]

-- The loop of `erase` returns at the first record of the thread.
unfoldable pub erase : ObjectRegistry → ℕ → ℕ → ObjectRegistry
unfolding erase_first
erase r object t = elim (r object) [
  | some i ↦ put r object (some (record i { threads_waiting = erase_first t i.threads_waiting }))
  | none ↦ r
]

add_waiting : ObjectRegistryInfo → ℕ → ObjectRegistryInfo
add_waiting i t = record i { threads_waiting = push_back i.threads_waiting t }

unfoldable pub insert : ObjectRegistry → ℕ → ℕ → ObjectRegistry
unfolding add_waiting release_monitor new_info
insert r object t = elim (r object) [
  | some i ↦ put r object (some (release_monitor (add_waiting i t)))
  | none ↦ put r object (some (release_monitor (add_waiting new_info t)))
]

is_empty : List ℕ → Bool
is_empty [] = true
is_empty (t ∷ ts) = false

unfoldable pub empty : ObjectRegistry → ℕ → Bool
unfolding is_empty
empty r object = elim (r object) [ some i ↦ is_empty i.threads_waiting | none ↦ true ]

-- The entry of an object, made on the first look.
unfoldable pub get_object_registry_info : ObjectRegistry → ℕ → ObjectRegistry × ObjectRegistryInfo
unfolding new_info
get_object_registry_info r object = elim (r object) [
  | some i ↦ (r, i)
  | none ↦ (put r object (some new_info), new_info)
]

unfoldable pub is_object_free : ObjectRegistry → ℕ → ObjectRegistry × Bool
unfolding get_object_registry_info
is_object_free r object = let (r', i) = get_object_registry_info r object in (r', i.monitor_free)
