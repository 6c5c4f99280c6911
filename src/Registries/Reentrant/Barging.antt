-- ===== src/Registries/Reentrant/Barging.antt =====
-- What a hand-over leaves behind in the reentrant registry.
use vexjine.Common.{
  ℕ, ◌≡◌, true, false, some, List, pos, put, push_back, unsnoc-push_back, ==_refl, arith,
}
use vexjine.Registries.Reentrant.{
  ReentrantLockRegistry, ReentrantLockRegistryInfo, try_acquiring_lock, release_and_get_next,
  release_entry,
}

-- A lock that `holder` has entered once, with `waiter` the last of the threads blocked on it.
abbrev pub contended : ℕ → List ℕ → ℕ → ReentrantLockRegistryInfo
contended holder waiting waiter = record {
  threads_contended_on_lock = push_back waiting waiter;
  monitor_locked = true;
  owner = some holder;
  counter = pos 1;
}

-- What the hand-over makes of that entry: a new owner, and a monitor that is marked as free.
abbrev pub handed : List ℕ → ℕ → ReentrantLockRegistryInfo
handed waiting waiter = record {
  threads_contended_on_lock = waiting;
  monitor_locked = false;
  owner = some waiter;
  counter = pos 1;
}

release_entry-contended :
    (holder waiter : ℕ) (waiting : List ℕ)
    → release_entry (contended holder waiting waiter) ≡ (handed waiting waiter, some waiter)
unfolding release_entry
release_entry-contended holder waiter waiting = ground (arith, unsnoc-push_back waiting waiter)

-- Whenever the last release of a lock hands it to a blocked thread, `setNextOwner` leaves the
-- monitor marked as free: any thread that tries the lock next is told that it has it and becomes
-- the owner, although the thread that was handed the lock has not released it.
pub release-then_barged :
    (r : ReentrantLockRegistry) (lock holder waiter thief : ℕ) (waiting : List ℕ)
    → r lock ≡ some (contended holder waiting waiter)
    → let r' = put r lock (some (handed waiting waiter)) in
      let (r'', entered) = try_acquiring_lock r' thief lock in
      (release_and_get_next r lock ≡ some (r', some waiter))
      × (entered ≡ true)
      × (r'' lock
          ≡ some (record (handed waiting waiter) {
            monitor_locked = true;
            owner = some thief;
            counter = pos 2;
          }))
unfolding release_and_get_next try_acquiring_lock
release-then_barged r lock holder waiter thief waiting e = (
  rw (e, release_and_get_next) (rw (release_entry-contended holder waiter waiting)),
  ground (arith, ==_refl lock),
  ground (arith, ==_refl lock),
)
