-- ===== src/Registries/Lock.antt =====
-- LockRegistry.h and LockRegistry.cpp: the plain (not reentrant) lock registry.
-- A thread is known by its id, a `VexThreadState *` that may be NULL is an `Option`. The registry's
-- own mutex makes each operation one step.
pub mod Exclusion
use vexjine.Common.{
  ℕ, Bool, true, false, not, Option, none, some, List, [], Map, put, empty_map, push_back, unsnoc,
  if◌then◌else◌,
}

pub record LockRegistryInfo : Type 0 where
  pub threads_contended_on_lock : List ℕ
  pub monitor_locked : Bool

unfoldable pub new_info : LockRegistryInfo
new_info = record { threads_contended_on_lock = []; monitor_locked = true }

unfoldable pub enter_monitor : LockRegistryInfo → LockRegistryInfo
enter_monitor i = record i { monitor_locked = true }

unfoldable pub release_monitor : LockRegistryInfo → LockRegistryInfo × Bool
release_monitor i = (record i { monitor_locked = false }, true)

unfoldable pub is_monitor_free : LockRegistryInfo → Bool
is_monitor_free i = not i.monitor_locked

unfoldable pub block_on_monitor : LockRegistryInfo → ℕ → LockRegistryInfo
block_on_monitor i t = record i {
  threads_contended_on_lock = push_back i.threads_contended_on_lock t;
}

abbrev pub LockRegistry : Type 0
LockRegistry = Map LockRegistryInfo

unfoldable pub new_registry : LockRegistry
new_registry = empty_map

-- The branch of `tryAcquiringLock` for a lock that the registry has met before.
enter_or_block : LockRegistryInfo → ℕ → LockRegistryInfo × Bool
unfolding is_monitor_free enter_monitor block_on_monitor
enter_or_block i t =
    if is_monitor_free i then (enter_monitor i, true) else (block_on_monitor i t, false)

unfoldable pub try_acquiring_lock : LockRegistry → ℕ → ℕ → LockRegistry × Bool
unfolding enter_or_block new_info
try_acquiring_lock r t lock = elim (r lock) [
  | some i ↦ (put r lock (some (enter_or_block i t).0), (enter_or_block i t).1)
  | none ↦ (put r lock (some new_info), true)
]

-- The branch of `releaseAndGetNext` for a known lock: the last thread to block goes first, and
-- the monitor stays locked for it.
hand_over_or_free : LockRegistryInfo → LockRegistryInfo × Option ℕ
unfolding release_monitor
hand_over_or_free i = elim (unsnoc i.threads_contended_on_lock) [
  | none ↦ ((release_monitor i).0, none)
  | some (rest, t) ↦ (record i { threads_contended_on_lock = rest }, some t)
]

unfoldable pub release_and_get_next : LockRegistry → ℕ → LockRegistry × Option ℕ
unfolding hand_over_or_free
release_and_get_next r lock = elim (r lock) [
  | some i ↦ (put r lock (some (hand_over_or_free i).0), (hand_over_or_free i).1)
  | none ↦ (r, none)
]
