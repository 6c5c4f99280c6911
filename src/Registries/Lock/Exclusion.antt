-- ===== src/Registries/Lock/Exclusion.antt =====
-- Mutual exclusion for LockRegistry, over every interleaving of its two operations.
use vexjine.Common.{
  ℕ, ◌≤◌, ◌≡◌, ◌⊎◌, refl, Bool, true, false, Option, none, some, List, [], ◌∷◌, length, put, ==_iff,
  unsnoc-push_back, arith,
}
use vexjine.Registries.Lock.{
  LockRegistry, LockRegistryInfo, new_registry, try_acquiring_lock, release_and_get_next,
}

-- The registry, and for each lock the threads that were told that they own it and have not
-- released it.
pub record System : Type 0 where
  pub registry : LockRegistry
  pub holders : ℕ → List ℕ

abbrev pub add_if : Bool → ℕ → List ℕ → List ℕ
add_if true t ts = t ∷ ts
add_if false t ts = ts

abbrev pub add_next : Option ℕ → List ℕ → List ℕ
add_next none ts = ts
add_next (some t) ts = t ∷ ts

abbrev pub after_try : System → ℕ → ℕ → System
after_try s t lock =
    let (r, entered) = try_acquiring_lock s.registry t lock in
    record { registry = r; holders = put s.holders lock (add_if entered t (s.holders lock)) }

abbrev pub after_release : System → ℕ → List ℕ → System
after_release s lock others =
    let (r, successor) = release_and_get_next s.registry lock in
    record { registry = r; holders = put s.holders lock (add_next successor others) }

-- A thread may try a lock at any time; only a thread that owns the lock releases it.
pub data Step : System → System → Type 0 where
  tries : (s : System) (t lock : ℕ) → Step s (after_try s t lock)
  releases :
      (s : System) (t lock : ℕ) (others : List ℕ)
      → s.holders lock ≡ t ∷ others
      → Step s (after_release s lock others)

pub data Reach (s : System) : System → Type 0 where
  here : Reach s s
  next : {t u : System} → Reach s t → Step t u → Reach s u

unfoldable pub start : System
unfolding new_registry
start = record { registry = new_registry; holders = λ lock. [] }

-- What is known of one lock: its holders against its entry.
abbrev pub Agrees : Option LockRegistryInfo → List ℕ → Type 0
Agrees none hs = hs ≡ []
Agrees (some i) hs =
    ((i.monitor_locked ≡ true) × (length hs ≡ 1))
    ⊎ ((i.monitor_locked ≡ false) × (hs ≡ []) × (i.threads_contended_on_lock ≡ []))

abbrev pub Inv : System → Type 0
Inv s = (lock : ℕ) → Agrees (s.registry lock) (s.holders lock)

tries-Agrees :
    (s : System) (t lock j : ℕ)
    → Agrees (s.registry lock) (s.holders lock)
    → Agrees (s.registry j) (s.holders j)
    → Agrees ((after_try s t lock).registry j) ((after_try s t lock).holders j)
unfolding try_acquiring_lock
tries-Agrees s t lock j h k = ground (arith, ==_iff lock j)

releases-Agrees :
    (s : System) (t lock j : ℕ) (others : List ℕ)
    → s.holders lock ≡ t ∷ others
    → Agrees (s.registry lock) (s.holders lock)
    → Agrees (s.registry j) (s.holders j)
    → Agrees ((after_release s lock others).registry j) ((after_release s lock others).holders j)
unfolding release_and_get_next
releases-Agrees s t lock j others e h k = ground (arith, ==_iff lock j)

Step-Inv : {s u : System} → Step s u → Inv s → Inv u
Step-Inv (tries s t lock) h j = tries-Agrees s t lock j (h lock) (h j)
Step-Inv (releases s t lock others e) h j = releases-Agrees s t lock j others e (h lock) (h j)

pub Reach-Inv : {s u : System} → Inv s → Reach s u → Inv u
Reach-Inv h here = h
Reach-Inv h (next r st) = Step-Inv st (Reach-Inv h r)

start-Inv : Inv start
unfolding start
start-Inv lock = refl

-- However threads try and release, a lock never has two owners; it is marked free exactly when
-- it has none, and then no thread is left blocked on it.
pub reachable_exclusion :
    {s : System}
    → Reach start s
    → (lock : ℕ)
    → (length (s.holders lock) ≤ 1)
      × ((i : LockRegistryInfo)
          → s.registry lock ≡ some i
          → i.monitor_locked ≡ false
          → (s.holders lock ≡ []) × (i.threads_contended_on_lock ≡ []))
      × ((i : LockRegistryInfo)
          → s.registry lock ≡ some i
          → i.monitor_locked ≡ true
          → length (s.holders lock) ≡ 1)
reachable_exclusion {s} r lock = (
  ground (arith, Reach-Inv start-Inv r lock),
  λ i e f. ground (arith, Reach-Inv start-Inv r lock),
  λ i e f. ground (arith, Reach-Inv start-Inv r lock),
)

-- A thread that blocks on a held lock is the next to get it, and the lock's entry is then what
-- it was before.
pub release-try_blocked :
    (r : LockRegistry) (t lock : ℕ) (i : LockRegistryInfo)
    → r lock ≡ some i
    → i.monitor_locked ≡ true
    → let (r', entered) = try_acquiring_lock r t lock in
      let (r'', successor) = release_and_get_next r' lock in
      (entered ≡ false) × (successor ≡ some t) × (r'' lock ≡ some i)
unfolding try_acquiring_lock release_and_get_next
release-try_blocked r t lock i e held =
    ground (arith, ==_iff lock lock, unsnoc-push_back i.threads_contended_on_lock t)
