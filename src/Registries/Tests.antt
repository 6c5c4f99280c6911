-- ===== src/Registries/Tests.antt =====
-- The registries on small histories.
use vexjine.Common.{
  pos, false, ◌==◌, ◌↔◌, if◌then◌else◌, arith, ℕ, ◌≤◌, ◌≡◌, ◌≢◌, refl, true, false, none, some, [],
  ◌∷◌, List, length, put,
}
use vexjine.Threads.Samples.{thread_at}
use vexjine.Registries.Threads
use vexjine.Registries.Threads.Activity.{
  are_any_other_threads_active_in_former_time, none_alive, IsIn, IsQuiet, none_alive_iff,
}
use vexjine.Registries.Threads.Spawning.{
  Birth, Births, nothing, announces, adds, announced, added, births-alive, announcements, arrivals,
}
use vexjine.Registries.Lock
use vexjine.Registries.Lock.Exclusion.{
  System, Reach, here, next, tries, releases, start, reachable_exclusion, after_try, after_release,
}
use vexjine.Registries.Reentrant
use vexjine.Registries.Reentrant.Nesting.{nested_entries, enters, leaves}
use vexjine.Registries.Reentrant.Barging.{release-then_barged, contended, handed}
use vexjine.Registries.Object
use vexjine.Registries.Object.Laws.{insert_all, drain, drain-insert_all}

-- Thread 1 takes lock 7, thread 2 blocks on it, thread 1 releases it to thread 2.
abbrev first : System
first = after_try start 1 7

abbrev second : System
second = after_try first 2 7

abbrev third : System
third = after_release second 7 []

third_reached : Reach start third
unfolding start Lock.try_acquiring_lock Lock.release_and_get_next
third_reached =
    next (next (next here (tries start 1 7)) (tries first 2 7)) (releases second 1 7 [] refl)

third_holders : third.holders 7 ≡ 2 ∷ []
unfolding start Lock.try_acquiring_lock Lock.release_and_get_next
third_holders = refl

reachable_exclusion_example : length (third.holders 7) ≤ 1
reachable_exclusion_example = (reachable_exclusion third_reached 7).0

abbrev one_held : Lock.LockRegistry
one_held =
    put Lock.new_registry 7
      (some (record { threads_contended_on_lock = 3 ∷ []; monitor_locked = true }))

abbrev one_contended : Reentrant.ReentrantLockRegistry
one_contended = put (λ lock. none) 7 (some (contended 1 (3 ∷ []) 2))

release-then_barged_example :
    (Reentrant.try_acquiring_lock (put one_contended 7 (some (handed (3 ∷ []) 2))) 4 7).1 ≡ true
release-then_barged_example = (release-then_barged one_contended 7 1 2 4 (3 ∷ []) refl).1

nested_entries_example :
    (r : Reentrant.ReentrantLockRegistry) × (r' : Reentrant.ReentrantLockRegistry)
    × (r'' : Reentrant.ReentrantLockRegistry) × (enters 3 (λ lock. none) 1 7 ≡ (r, true))
    × (leaves 2 r 7 ≡ some r')
    × ((u : ℕ) → u ≢ 1 → (Reentrant.try_acquiring_lock r' u 7).1 ≡ false)
    × (Reentrant.release_and_get_next r' 7 ≡ some (r'', none))
    × ((u : ℕ) → (Reentrant.try_acquiring_lock r'' u 7).1 ≡ true)
nested_entries_example = nested_entries (λ lock. none) 1 7 2 refl

drain-insert_all_example :
    (drain 3 (insert_all Object.new_registry 9 (1 ∷ 2 ∷ 3 ∷ [])) 9).1 ≡ 3 ∷ 2 ∷ 1 ∷ []
drain-insert_all_example = (drain-insert_all Object.new_registry 9 (1 ∷ 2 ∷ 3 ∷ [])).0

abbrev two_waiting : Object.ObjectRegistry
two_waiting =
    put Object.new_registry 9 (some (record { threads_waiting = 1 ∷ 2 ∷ []; monitor_free = true }))

-- Thread 1 at time 4 and thread 2 at time 9.
abbrev two_registered : Threads.ThreadRegistry
two_registered =
    record (Threads.new_registry
      (λ t. if t == 1 then thread_at 1 (pos 4) else thread_at t (pos 9))) {
        thread_state_index = (1, 1) ∷ (2, 2) ∷ [];
      }

none_alive_iff_example :
    (are_any_other_threads_active_in_former_time two_registered 1 none ≡ none_alive) ↔ (
      (two_registered.threads_being_spawned ≡ 0)
      × ((two_registered.forward_leaps_allowed ≡ true)
          × ((p : ℕ)
              → IsIn p two_registered.thread_state_index
              → IsQuiet
                  (two_registered.threads 1).timers.estimated_real_time
                  none
                  (two_registered.threads p))))
none_alive_iff_example = none_alive_iff two_registered 1 none

abbrev announce : Threads.ThreadRegistry → ℕ → ℕ → Threads.ThreadRegistry
announce r parent child = elim (Threads.new_thread_being_spawned_by r parent child) [
  | none ↦ r
  | some r' ↦ r'
]

-- Thread 1 announces thread 3, which is added, and then thread 4.
abbrev three_registered : Threads.ThreadRegistry
three_registered = announce (Threads.add (announce two_registered 1 3) 3 false) 1 4

abbrev expected : List Birth
expected = announced 1 3 ∷ added 3 false ∷ announced 1 4 ∷ []

three-Births : Births two_registered expected three_registered
unfolding Threads.new_thread_being_spawned_by Threads.tell Threads.lookup Threads.add Threads.assign
    Threads.new_registry
three-Births = announces 1 3 refl (adds 3 false (announces 1 4 refl nothing))

births-alive_example : Threads.no_process_threads_left three_registered ≡ false
unfolding announcements arrivals Threads.new_registry
births-alive_example =
    (births-alive two_registered three_registered expected 1 2 none three-Births (omega arith)).1.0
