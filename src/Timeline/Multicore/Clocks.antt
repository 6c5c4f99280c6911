-- ===== src/Timeline/Multicore/Clocks.antt =====
-- The local clocks: what a leap, a synchronisation and native time do to each of them.
use vexjine.Common.{
  ℕ, zero, suc, ◌+◌, ◌<◌, ◌==◌, ◌≡◌, refl, ap, ◌∙◌, ◌⊎◌, subst, inl, inr, Bool-cases, List, [], ◌∷◌,
  map, length, set, ℤ, ◌+ℤ◌, ◌≤ℤ◌, max_ℤ, max_ℤ_bounds, ltb_ℤ, ltb_ℤ→lt, ltb_ℤ→le, arith,
  if◌then◌else◌, ==_iff,
}
use vexjine.Timeline.Multicore.{
  MulticoreVirtualTimeline, time_at, tail, latest, earliest, update_global_time_to,
  update_to_min_active, leap_forward_to, add_time_of_unknown_real_time_duration_and_synchronize,
  add_time_of_thread_executing_at_unknown_time,
}

-- The operations on the global clock leave the local ones alone.
pub local_after-update :
    (m : MulticoreVirtualTimeline) (time : ℤ)
    → (update_global_time_to m time).local_core_virtual_times ≡ m.local_core_virtual_times
unfolding update_global_time_to update_to_min_active
local_after-update m time = ground arith

pub time_at-set :
    (times : List ℤ) (i j : ℕ) (t : ℤ)
    → i < length times
    → time_at (set times i t) j ≡ (if i == j then t else time_at times j)
time_at-set [] i j t h = absurd (omega arith)
time_at-set (s ∷ ss) zero zero t h = refl
time_at-set (s ∷ ss) zero (suc j) t h = ground arith
time_at-set (s ∷ ss) (suc i) zero t h = ground arith
time_at-set (s ∷ ss) (suc i) (suc j) t h =
    ground (arith, time_at-set ss i j t (omega arith), ==_iff i j, ==_iff (suc i) (suc j))

-- A leap of one core takes its clock to the given time, if it is not there yet, and moves no other
-- core's clock. The index is a core's.
pub leap_forward_to-local :
    (m : MulticoreVirtualTimeline) (time : ℤ) (id j : ℕ)
    → id < length m.local_core_virtual_times
    → time_at (leap_forward_to m time id).local_core_virtual_times j ≡ (
        if id == j
        then max_ℤ (time_at m.local_core_virtual_times id) time
        else time_at m.local_core_virtual_times j)
unfolding leap_forward_to
leap_forward_to-local m time id j h =
    let times = m.local_core_virtual_times in
    let t = max_ℤ (time_at times id) time in
    ap (λ z. time_at z j)
      (local_after-update (record m { local_core_virtual_times = set times id t })
        (time_at (set times id t) id))
    ∙ time_at-set times id j t h

all-∷ :
    (t : ℤ) (ts : List ℤ) (P : ℤ → Type 0)
    → P t
    → ((i : ℕ) → i < length ts → P (time_at ts i))
    → (i : ℕ) → i < length (t ∷ ts)
    → P (time_at (t ∷ ts) i)
all-∷ t ts P p all zero h = p
all-∷ t ts P p all (suc i) h = all i (omega arith)

latest-bounds :
    (ts : List ℤ) (max : ℤ)
    → (max ≤ℤ latest ts max)
      × (((i : ℕ) → i < length ts → time_at ts i ≤ℤ latest ts max)
          × ((latest ts max ≡ max)
              ⊎ ((i : ℕ) × ((i < length ts) × (latest ts max ≡ time_at ts i)))))
unfolding latest
latest-bounds [] max = (omega arith, ((λ i h. absurd (omega arith)), inl refl))
latest-bounds (t ∷ ts) max =
    let (up, (all, from)) = latest-bounds ts (max_ℤ max t) in
    (
      omega (arith, (max_ℤ_bounds max t).0),
      (
        all-∷ t ts (λ z. z ≤ℤ latest ts (max_ℤ max t)) (omega (arith, (max_ℤ_bounds max t).1)) all,
        elim from [
          | inr (i, (h, e)) ↦ inr (suc i, (omega arith, e))
          | inl e ↦ elim (Bool-cases (ltb_ℤ max t)) [
            | inl b ↦ inr (0, (omega arith, e ∙ (rw b refl)))
            | inr b ↦ inl (e ∙ (rw b refl))
          ]
        ],
      ),
    )

earliest-bounds :
    (ts : List ℤ) (i : ℕ) (min : ℤ) (at : ℕ) (all : ℕ → ℤ)
    → all at ≡ min
    → ((j : ℕ) → j < length ts → all (i + j) ≡ time_at ts j)
    → (all (earliest ts i min at) ≤ℤ min)
      × (((j : ℕ) → j < length ts → all (earliest ts i min at) ≤ℤ time_at ts j)
          × ((earliest ts i min at ≡ at) ⊎ (earliest ts i min at < i + length ts)))
unfolding earliest
earliest-bounds [] i min at all e a =
    (subst (λ z. all at ≤ℤ z) e (omega arith), ((λ j h. absurd (omega arith)), inl refl))
earliest-bounds (t ∷ ts) i min at all e a =
    let later : (j : ℕ) → j < length ts → all (suc i + j) ≡ time_at ts j =
      λ j h. subst (λ z. all z ≡ time_at ts j) (omega arith) (a (suc j) (omega arith)) in
    elim (Bool-cases (ltb_ℤ t min)) [
      | inl b ↦
          let here : all i ≡ t = subst (λ z. all z ≡ t) (omega arith) (a 0 (omega arith)) in
          let (low, (lows, from)) = earliest-bounds ts (suc i) t i all here later in
          let b' = ltb_ℤ→lt t min b in
          rw (b, earliest)
            (
              omega arith,
              (all-∷ t ts (λ z. all (earliest ts (suc i) t i) ≤ℤ z) low lows, ground arith),
            )
      | inr b ↦
          let (low, (lows, from)) = earliest-bounds ts (suc i) min at all e later in
          let b' = ltb_ℤ→le t min b in
          rw (b, earliest)
            (
              low,
              (
                all-∷ t ts (λ z. all (earliest ts (suc i) min at) ≤ℤ z) (omega arith) lows,
                ground arith,
              ),
            )
    ]

-- One of the times, and none of them is later.
abbrev pub IsLatest : List ℤ → ℤ → Type 0
IsLatest times last =
    ((i : ℕ) → i < length times → time_at times i ≤ℤ last)
    × ((i : ℕ) × ((i < length times) × (last ≡ time_at times i)))

latest-IsLatest :
    (times : List ℤ) → 0 < length times → IsLatest times (latest (tail times) (time_at times 0))
latest-IsLatest [] h = absurd (omega arith)
latest-IsLatest (t ∷ ts) h =
    let (up, (all, from)) = latest-bounds ts t in
    (
      all-∷ t ts (λ z. z ≤ℤ latest ts t) up all,
      elim from [ inl e ↦ (0, (omega arith, e)) | inr (i, (h', e)) ↦ (suc i, (omega arith, e)) ],
    )

time_at-map :
    (times : List ℤ) (t : ℤ) (j : ℕ) → j < length times → time_at (map (λ s. t) times) j ≡ t
time_at-map [] t j h = absurd (omega arith)
time_at-map (s ∷ ss) t zero h = refl
time_at-map (s ∷ ss) t (suc j) h = time_at-map ss t j (omega arith)

-- Work of unknown duration outside the framework synchronises the cores: each one's clock then
-- shows the latest local time and the duration on top. There is at least one core.
pub synchronize-IsLatest :
    (m : MulticoreVirtualTimeline) (forward : ℤ)
    → 0 < length m.local_core_virtual_times
    → (last : ℤ) × (IsLatest m.local_core_virtual_times last
        × ((j : ℕ)
            → j < length m.local_core_virtual_times
            → time_at
                (add_time_of_unknown_real_time_duration_and_synchronize m
                  forward).local_core_virtual_times
                j
              ≡ last +ℤ forward))
unfolding add_time_of_unknown_real_time_duration_and_synchronize
synchronize-IsLatest m forward h =
    let times = m.local_core_virtual_times in
    let last = latest (tail times) (time_at times 0) in
    let max = last +ℤ forward in
    (
      last,
      (
        latest-IsLatest times h,
        λ j h'.
            ap (λ z. time_at z j)
              (local_after-update (record m { local_core_virtual_times = map (λ t. max) times })
                max)
            ∙ time_at-map times max j h',
      ),
    )

one_more : (j : ℕ) → 1 + j ≡ suc j
one_more j = omega arith

earliest-IsEarliest :
    (times : List ℤ)
    → 0 < length times
    → let id = earliest (tail times) 1 (time_at times 0) 0 in
      (id < length times) × ((j : ℕ) → j < length times → time_at times id ≤ℤ time_at times j)
earliest-IsEarliest [] h = absurd (omega arith)
earliest-IsEarliest (t ∷ ts) h =
    let all = time_at (t ∷ ts) in
    let next : (j : ℕ) → j < length ts → all (1 + j) ≡ time_at ts j = λ j h'. ap all (one_more j) in
    let (low, (lows, from)) = earliest-bounds ts 1 t 0 all refl next in
    (ground arith, all-∷ t ts (λ z. all (earliest ts 1 t 0) ≤ℤ z) low lows)

-- Native time of a thread goes to a core whose clock is behind or level with every other, and
-- moves that clock by exactly the duration. No other clock moves. There is at least one core.
pub native_time-earliest :
    (m : MulticoreVirtualTimeline) (forward : ℤ)
    → 0 < length m.local_core_virtual_times
    → let times = m.local_core_virtual_times in
      let times' =
        (add_time_of_thread_executing_at_unknown_time m forward).local_core_virtual_times in
      (id : ℕ) × ((id < length times)
        × (((j : ℕ) → j < length times → time_at times id ≤ℤ time_at times j)
            × ((j : ℕ)
                → time_at times' j
                  ≡ (if id == j then time_at times id +ℤ forward else time_at times j))))
unfolding add_time_of_thread_executing_at_unknown_time
native_time-earliest m forward h =
    let times = m.local_core_virtual_times in
    let id = earliest (tail times) 1 (time_at times 0) 0 in
    let (inside, low) = earliest-IsEarliest times h in
    let t = time_at times id +ℤ forward in
    (
      id,
      (
        inside,
        (
          low,
          λ j.
              ap (λ z. time_at z j)
                (local_after-update (record m { local_core_virtual_times = set times id t })
                  (time_at (set times id t) id))
              ∙ time_at-set times id j t inside,
        ),
      ),
    )
