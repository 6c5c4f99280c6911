-- ===== src/Registries/Reentrant/Nesting.antt =====
-- Nested entries of one owner into the reentrant registry, when no thread is blocked on the lock.
use vexjine.Common.{
  ℕ, zero, suc, ◌+◌, ◌≡◌, ◌≢◌, refl, ap, Bool, true, false, ◌&&◌, Option, none, some, [], pos, put,
  ==_iff, ==_refl, arith,
}
use vexjine.Registries.Reentrant.{
  ReentrantLockRegistry, ReentrantLockRegistryInfo, try_acquiring_lock, release_and_get_next,
  enter_or_block, release_entry,
}

-- A thread tries the lock a number of times; was it told each time that it has it?
unfoldable pub enters : ℕ → ReentrantLockRegistry → ℕ → ℕ → ReentrantLockRegistry × Bool
enters zero r t lock = (r, true)
enters (suc n) r t lock =
    let (r', entered) = try_acquiring_lock r t lock in
    let (r'', all) = enters n r' t lock in (r'', entered && all)

-- A number of releases, none of which names a next owner.
unfoldable pub leaves : ℕ → ReentrantLockRegistry → ℕ → Option ReentrantLockRegistry
leaves zero r lock = some r
leaves (suc n) r lock = elim (release_and_get_next r lock) [
  | some (r', none) ↦ leaves n r' lock
  | _ ↦ none
]

-- The entry of a lock that `t` has entered k + 1 times.
abbrev pub held : ℕ → ℕ → ReentrantLockRegistryInfo
held t k = record {
  threads_contended_on_lock = [];
  monitor_locked = true;
  owner = some t;
  counter = pos (suc k);
}

abbrev pub free : ReentrantLockRegistryInfo
free = record {
  threads_contended_on_lock = [];
  monitor_locked = false;
  owner = none;
  counter = pos 0;
}

enter-held : (t k : ℕ) → enter_or_block (held t k) t ≡ (held t (suc k), true)
unfolding enter_or_block
enter-held t k = ground (arith, ==_refl t)

release-held : (t k : ℕ) → release_entry (held t (suc k)) ≡ (held t k, none)
unfolding release_entry
release-held t k = ground arith

release-held_last : (t : ℕ) → release_entry (held t zero) ≡ (free, none)
unfolding release_entry
release-held_last t = ground arith

try-held :
    (r : ReentrantLockRegistry) (t lock k : ℕ)
    → r lock ≡ some (held t k)
    → try_acquiring_lock r t lock ≡ (put r lock (some (held t (suc k))), true)
unfolding try_acquiring_lock
try-held r t lock k e = rw (e, try_acquiring_lock) (rw (enter-held t k))

leave-held :
    (r : ReentrantLockRegistry) (t lock k : ℕ)
    → r lock ≡ some (held t (suc k))
    → release_and_get_next r lock ≡ some (put r lock (some (held t k)), none)
unfolding release_and_get_next
leave-held r t lock k e = rw (e, release_and_get_next) (rw (release-held t k))

leave-held_last :
    (r : ReentrantLockRegistry) (t lock : ℕ)
    → r lock ≡ some (held t zero)
    → release_and_get_next r lock ≡ some (put r lock (some free), none)
unfolding release_and_get_next
leave-held_last r t lock e =
    rw (e, release_and_get_next) (ap (λ p. some (put r lock (some p.0), p.1)) (release-held_last t))

enters-held :
    (n : ℕ) (r : ReentrantLockRegistry) (t lock k m : ℕ)
    → r lock ≡ some (held t k)
    → m ≡ k + n
    → (r' : ReentrantLockRegistry) × (enters n r t lock ≡ (r', true)) × (r' lock ≡ some (held t m))
unfolding enters
enters-held zero r t lock k m e h = (r, refl, rw e (ap (λ x. some (held t x)) (omega arith)))
enters-held (suc n) r t lock k m e h =
    let r1 = put r lock (some (held t (suc k))) in
    let (r', all, e') =
      enters-held n r1 t lock (suc k) m (ground (arith, ==_refl lock)) (omega arith) in
    (r', rw (try-held r t lock k e) (rw all), e')

leaves-held :
    (n : ℕ) (r : ReentrantLockRegistry) (t lock k m : ℕ)
    → r lock ≡ some (held t m)
    → m ≡ k + n
    → (r' : ReentrantLockRegistry) × (leaves n r lock ≡ some r') × (r' lock ≡ some (held t k))
unfolding leaves
leaves-held zero r t lock k m e h = (r, refl, rw e (ap (λ x. some (held t x)) (omega arith)))
leaves-held (suc n) r t lock k m e h =
    let e1 : r lock ≡ some (held t (suc (k + n))) =
      rw e (ap (λ x. some (held t x)) (omega arith)) in
    let r1 = put r lock (some (held t (k + n))) in
    let (r', all, e') = leaves-held n r1 t lock k (k + n) (ground (arith, ==_refl lock)) refl in
    (r', rw (leave-held r t lock (k + n) e1, leaves) all, e')

enters-fresh :
    (r : ReentrantLockRegistry) (t lock n : ℕ) (r' : ReentrantLockRegistry)
    → r lock ≡ none
    → enters n (put r lock (some (held t zero))) t lock ≡ (r', true)
    → enters (suc n) r t lock ≡ (r', true)
unfolding enters try_acquiring_lock
enters-fresh r t lock n r' fresh e = rw (fresh, try_acquiring_lock) (rw e)

blocked :
    (r : ReentrantLockRegistry) (t lock : ℕ)
    → r lock ≡ some (held t zero)
    → (u : ℕ) → u ≢ t
    → (try_acquiring_lock r u lock).1 ≡ false
unfolding try_acquiring_lock
blocked r t lock e u h = ground (arith, ==_iff u t)

open_to_all :
    (r : ReentrantLockRegistry) (lock u : ℕ)
    → (try_acquiring_lock (put r lock (some free)) u lock).1 ≡ true
unfolding try_acquiring_lock
open_to_all r lock u = ground (arith, ==_refl lock)

-- A lock that nobody has met is entered n + 1 times by one thread, each time with success. After
-- n releases every other thread is still blocked; one more release, which names no next owner,
-- and whoever tries the lock enters.
pub nested_entries :
    (r : ReentrantLockRegistry) (t lock n : ℕ)
    → r lock ≡ none
    → (r' : ReentrantLockRegistry) × (r'' : ReentrantLockRegistry) × (r''' : ReentrantLockRegistry)
      × (enters (suc n) r t lock ≡ (r', true))
      × (leaves n r' lock ≡ some r'')
      × ((u : ℕ) → u ≢ t → (try_acquiring_lock r'' u lock).1 ≡ false)
      × (release_and_get_next r'' lock ≡ some (r''', none))
      × ((u : ℕ) → (try_acquiring_lock r''' u lock).1 ≡ true)
nested_entries r t lock n fresh =
    let r1 = put r lock (some (held t zero)) in
    let (r', entered, e') =
      enters-held n r1 t lock zero n (ground (arith, ==_refl lock)) (omega arith) in
    let (r'', left, e'') = leaves-held n r' t lock zero n e' (omega arith) in
    (
      r',
      r'',
      put r'' lock (some free),
      enters-fresh r t lock n r' fresh entered,
      left,
      blocked r'' t lock e'',
      leave-held_last r'' t lock e'',
      open_to_all r'' lock,
    )
