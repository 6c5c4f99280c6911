-- ===== src/Registries/Threads/Spawning.antt =====
-- Threads that are announced, start and end.
use vexjine.Common.{
  ℕ, suc, ◌+◌, ◌≤◌, ◌<◌, ◌==◌, ◌≡◌, refl, ap, ◌∙◌, Bool, true, false, Option, some, List, [], ◌∷◌,
  put, put_self, ℤ, ltb, arith, ==_iff,
}
use vexjine.Threads.State.{VexThreadState}
use vexjine.Threads.Timers.{set_estimated_real_time}
use vexjine.Registries.Threads.{
  ThreadRegistry, lookup, add, inherit, new_thread_started, remove, notify_parent_waiting_to_join,
  set_awakening, new_thread_being_spawned_by, tell, no_process_threads_left, is_empty,
  coordinate_joining_threads,
}
use vexjine.Registries.Threads.Activity.{
  at_least_one_alive, are_any_other_threads_active_in_former_time,
}

-- What happens to a registry: a parent announces a child, a thread starts without being added, is
-- added, or is removed, and threads change their own states.
pub data Birth : Type 0 where
  announced : ℕ → ℕ → Birth
  started : Birth
  added : ℕ → Bool → Birth
  removed : ℕ → Birth
  changed : (ℕ → VexThreadState) → Birth

-- A history from one registry to another, in which no assertion fails.
pub data Births : ThreadRegistry → List Birth → ThreadRegistry → Type 0 where
  nothing : {r : ThreadRegistry} → Births r [] r
  announces :
      {r r' r'' : ThreadRegistry} {bs : List Birth}
      → (parent child : ℕ) → new_thread_being_spawned_by r parent child ≡ some r'
      → Births r' bs r''
      → Births r (announced parent child ∷ bs) r''
  starts :
      {r r'' : ThreadRegistry} {bs : List Birth}
      → Births (new_thread_started r) bs r''
      → Births r (started ∷ bs) r''
  adds :
      {r r'' : ThreadRegistry} {bs : List Birth}
      → (p : ℕ) (is_main : Bool) → Births (add r p is_main) bs r''
      → Births r (added p is_main ∷ bs) r''
  removes :
      {r r'' : ThreadRegistry} {bs : List Birth}
      → (p : ℕ) → Births (remove r p) bs r''
      → Births r (removed p ∷ bs) r''
  changes :
      {r r'' : ThreadRegistry} {bs : List Birth}
      → (later : ℕ → VexThreadState) → Births (record r { threads = later }) bs r''
      → Births r (changed later ∷ bs) r''

-- How many threads of a history were announced, and how many have come to life.
unfoldable pub announcements : List Birth → ℕ
announcements [] = 0
announcements (announced parent child ∷ bs) = suc (announcements bs)
announcements (started ∷ bs) = announcements bs
announcements (added p m ∷ bs) = announcements bs
announcements (removed p ∷ bs) = announcements bs
announcements (changed later ∷ bs) = announcements bs

unfoldable pub arrivals : List Birth → ℕ
arrivals [] = 0
arrivals (announced parent child ∷ bs) = arrivals bs
arrivals (started ∷ bs) = suc (arrivals bs)
arrivals (added p m ∷ bs) = suc (arrivals bs)
arrivals (removed p ∷ bs) = arrivals bs
arrivals (changed later ∷ bs) = arrivals bs

started-spawned :
    (r : ThreadRegistry)
    → r.threads_being_spawned ≤ suc (new_thread_started r).threads_being_spawned
unfolding new_thread_started
started-spawned r = ground arith

added-spawned :
    (r : ThreadRegistry) (p : ℕ) (m : Bool)
    → r.threads_being_spawned ≤ suc (add r p m).threads_being_spawned
unfolding add new_thread_started
added-spawned r p m = ground arith

announced-spawned :
    (r r' : ThreadRegistry) (parent child : ℕ)
    → new_thread_being_spawned_by r parent child ≡ some r'
    → r'.threads_being_spawned ≡ suc r.threads_being_spawned
unfolding new_thread_being_spawned_by tell
announced-spawned r r' parent child e = ground arith

removed-spawned :
    (r : ThreadRegistry) (p : ℕ) → (remove r p).threads_being_spawned ≡ r.threads_being_spawned
unfolding remove notify_parent_waiting_to_join set_awakening
removed-spawned r p = ground arith

births-spawned :
    (r r' : ThreadRegistry) (bs : List Birth)
    → Births r bs r'
    → r.threads_being_spawned + announcements bs ≤ r'.threads_being_spawned + arrivals bs
unfolding announcements arrivals
births-spawned r r' bs nothing = omega arith
births-spawned r r' bs (announces parent child e h) =
    let ih = births-spawned _ r' _ h in omega (arith, announced-spawned r _ parent child e)
births-spawned r r' bs (starts h) =
    let ih = births-spawned _ r' _ h in omega (arith, started-spawned r)
births-spawned r r' bs (adds p m h) =
    let ih = births-spawned _ r' _ h in omega (arith, added-spawned r p m)
births-spawned r r' bs (removes p h) =
    let ih = births-spawned _ r' _ h in omega (arith, removed-spawned r p)
births-spawned r r' bs (changes later h) = let ih = births-spawned _ r' _ h in omega arith

-- After any history of announcements, births, removals and changes of states in which no assertion
-- fails: while more threads have been announced than have come to life, some thread counts as
-- alive, the process has threads left, and no thread can register to wait for the end of another.
pub births-alive :
    (r r' : ThreadRegistry) (bs : List Birth) (state joining : ℕ) (remaining : Option ℤ)
    → Births r bs r'
    → arrivals bs < r.threads_being_spawned + announcements bs
    → (are_any_other_threads_active_in_former_time r' state remaining ≡ at_least_one_alive)
      × ((no_process_threads_left r' ≡ false)
          × (coordinate_joining_threads r' state joining ≡ (r', false)))
unfolding are_any_other_threads_active_in_former_time no_process_threads_left is_empty
    coordinate_joining_threads
births-alive r r' bs state joining remaining history h =
    let n = births-spawned r r' bs history in
    let some_left : ltb 0 r'.threads_being_spawned ≡ true = ground arith in
    let not_zero : (r'.threads_being_spawned == 0) ≡ false = ground arith in
    (
      rw (some_left, are_any_other_threads_active_in_former_time) refl,
      (
        rw (not_zero, no_process_threads_left) refl,
        rw (some_left, coordinate_joining_threads) refl,
      ),
    )

-- A thread begins at the time at which its parent announced it, wherever the parent is by then.
-- The parent is in the index when it announces the child, and the child is added under the id
-- that was announced.
pub announced-add :
    (r : ThreadRegistry) (parent q child p : ℕ) (is_main : Bool) (later : ℕ → VexThreadState)
    → lookup r.thread_state_index parent ≡ some q
    → (later p).jthread_id ≡ child
    → (r' : ThreadRegistry) × ((new_thread_being_spawned_by r parent child ≡ some r')
        × (((add (record r' { threads = later }) p is_main).threads p).timers.estimated_real_time
            ≡ (r.threads q).timers.estimated_real_time))
unfolding new_thread_being_spawned_by tell add inherit new_thread_started set_estimated_real_time
announced-add r parent q child p is_main later h e =
    let ert = (r.threads q).timers.estimated_real_time in
    let told = put r.parent_thread_ids_to_their_erts child (some ert) in
    let hit : told (later p).jthread_id ≡ some ert =
      ground (arith, ==_iff child (later p).jthread_id) in
    let time : (put later p (inherit (later p) (told (later p).jthread_id))
          p).timers.estimated_real_time
        ≡ ert =
      ap (λ s. s.timers.estimated_real_time)
        (put_self later p (inherit (later p) (told (later p).jthread_id)))
      ∙ ap (λ o. (inherit (later p) o).timers.estimated_real_time) hit in
    (
      tell r child (r.threads q).timers.estimated_real_time,
      (rw (h, new_thread_being_spawned_by) refl, time),
    )
