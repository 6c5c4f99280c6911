-- ===== src/Registries/Reentrant.antt =====
-- LockRegistry.h and LockRegistry.cpp: the reentrant lock registry.
-- `counter` is an `int` that a release past the last one takes below zero. `none` in place of a
-- result is the failed `assert(false)` of a release of an unknown lock.
pub mod Nesting
pub mod Barging
use vexjine.Common.{
  ℕ, Bool, true, false, not, ◌||◌, Option, none, some, List, [], ◌==◌, ℤ, pos, ◌+ℤ◌, ◌-ℤ◌, eqb_ℤ,
  Map, put, push_back, unsnoc, if◌then◌else◌,
}

pub record ReentrantLockRegistryInfo : Type 0 where
  pub threads_contended_on_lock : List ℕ
  pub monitor_locked : Bool
  pub owner : Option ℕ
  pub counter : ℤ

unfoldable pub new_info : ℕ → ReentrantLockRegistryInfo
new_info t = record {
  threads_contended_on_lock = [];
  monitor_locked = true;
  owner = some t;
  counter = pos 1;
}

unfoldable pub enter_monitor : ReentrantLockRegistryInfo → ℕ → ReentrantLockRegistryInfo
unfolding ◌+ℤ◌
enter_monitor i t = record i { monitor_locked = true; owner = some t; counter = i.counter +ℤ pos 1 }

unfoldable pub release_monitor : ReentrantLockRegistryInfo → ReentrantLockRegistryInfo × Bool
unfolding ◌-ℤ◌
release_monitor i =
    let counter = i.counter -ℤ pos 1 in
    if eqb_ℤ counter (pos 0)
    then (record i { counter = counter; monitor_locked = false; owner = none }, true)
    else (record i { counter = counter }, false)

unfoldable pub set_next_owner : ReentrantLockRegistryInfo → ℕ → ReentrantLockRegistryInfo
set_next_owner i t = record i { owner = some t; counter = pos 1 }

is_owner : Option ℕ → ℕ → Bool
is_owner none t = false
is_owner (some o) t = t == o

unfoldable pub is_current_owner_thread : ReentrantLockRegistryInfo → ℕ → Bool
unfolding is_owner
is_current_owner_thread i t = is_owner i.owner t

unfoldable pub is_monitor_free : ReentrantLockRegistryInfo → Bool
is_monitor_free i = not i.monitor_locked

unfoldable pub block_on_monitor : ReentrantLockRegistryInfo → ℕ → ReentrantLockRegistryInfo
block_on_monitor i t = record i {
  threads_contended_on_lock = push_back i.threads_contended_on_lock t;
}

abbrev pub ReentrantLockRegistry : Type 0
ReentrantLockRegistry = Map ReentrantLockRegistryInfo

enter_or_block : ReentrantLockRegistryInfo → ℕ → ReentrantLockRegistryInfo × Bool
unfolding is_monitor_free is_current_owner_thread enter_monitor block_on_monitor
enter_or_block i t =
    if is_monitor_free i || is_current_owner_thread i t
    then (enter_monitor i t, true)
    else (block_on_monitor i t, false)

unfoldable pub try_acquiring_lock : ReentrantLockRegistry → ℕ → ℕ → ReentrantLockRegistry × Bool
unfolding enter_or_block new_info
try_acquiring_lock r t lock = elim (r lock) [
  | some i ↦ (put r lock (some (enter_or_block i t).0), (enter_or_block i t).1)
  | none ↦ (put r lock (some (new_info t)), true)
]

-- `releaseMonitor() && !lockThreadList->empty()`, with the last thread to block served first.
hand_over : ReentrantLockRegistryInfo → Bool → ReentrantLockRegistryInfo × Option ℕ
unfolding set_next_owner
hand_over i false = (i, none)
hand_over i true = elim (unsnoc i.threads_contended_on_lock) [
  | none ↦ (i, none)
  | some (rest, t) ↦ (set_next_owner (record i { threads_contended_on_lock = rest }) t, some t)
]

release_entry : ReentrantLockRegistryInfo → ReentrantLockRegistryInfo × Option ℕ
unfolding release_monitor hand_over
release_entry i = hand_over (release_monitor i).0 (release_monitor i).1

unfoldable pub release_and_get_next :
    ReentrantLockRegistry → ℕ → Option (ReentrantLockRegistry × Option ℕ)
unfolding release_entry
release_and_get_next r lock = elim (r lock) [
  | some i ↦ some (put r lock (some (release_entry i).0), (release_entry i).1)
  | none ↦ none
]
