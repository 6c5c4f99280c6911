-- ===== src/Timeline/Multicore/Disabling.antt =====
-- The global clock of the two classes: in the base class it only goes forward, in the subclass it is
-- the earliest clock of an active core.
use vexjine.Common.{
  ℕ, zero, suc, ◌+◌, ◌<◌, ◌≡◌, refl, ap, ◌∙◌, ◌⊎◌, inl, inr, Bool, true, false, Bool-cases, some,
  List, [], ◌∷◌, length, get_elem?, ℤ, ◌≤ℤ◌, ltb_ℤ, eqb_ℤ, ==_iff, pos_part, neg_part, arith,
  if◌then◌else◌,
}
use vexjine.Timeline.Multicore.{
  MulticoreVirtualTimeline, time_at, llong_max, min_active, update_to_min_active,
}

-- The core is one that takes part.
abbrev pub IsActive : List Bool → ℕ → Type 0
IsActive active i = get_elem? active i ≡ some true

-- `min` is the earliest of `bound` and the clocks of the active cores.
abbrev IsMin : List ℤ → List Bool → ℤ → ℤ → Type 0
IsMin times active bound min =
    (min ≤ℤ bound)
    × (((i : ℕ) → i < length times → IsActive active i → min ≤ℤ time_at times i)
        × ((min ≡ bound)
            ⊎ ((i : ℕ) × ((i < length times) × (IsActive active i × (min ≡ time_at times i))))))

low-∷ :
    (t : ℤ) (ts : List ℤ) (a : Bool) (rest : List Bool) (min : ℤ)
    → (a ≡ true → min ≤ℤ t)
    → ((i : ℕ) → i < length ts → IsActive rest i → min ≤ℤ time_at ts i)
    → (i : ℕ) → i < length (t ∷ ts)
    → IsActive (a ∷ rest) i
    → min ≤ℤ time_at (t ∷ ts) i
low-∷ t ts a rest min first all zero h on = first (cc)
low-∷ t ts a rest min first all (suc i) h on = all i (omega arith) on

IsMin-∷ :
    (t : ℤ) (ts : List ℤ) (a : Bool) (rest : List Bool) (bound b min : ℤ)
    → b ≤ℤ bound
    → (a ≡ true → b ≤ℤ t)
    → (b ≡ bound) ⊎ ((a ≡ true) × (b ≡ t))
    → IsMin ts rest b min
    → IsMin (t ∷ ts) (a ∷ rest) bound min
IsMin-∷ t ts a rest bound b min up mine from (low, (lows, from')) = (
  omega arith,
  (
    low-∷ t ts a rest min (λ on. let m = mine on in omega arith) lows,
    elim from' [
      | inr (i, (h, (on, e))) ↦ inr (suc i, (omega arith, (on, e)))
      | inl e ↦ elim from [
        | inl e' ↦ inl (e ∙ e')
        | inr (on, e') ↦ inr (0, (omega arith, (ap some on, e ∙ e')))
      ]
    ],
  ),
)

min_active-IsMin :
    (times : List ℤ) (active : List Bool) (bound : ℤ)
    → length active ≡ length times
    → IsMin times active bound (min_active times active bound)
unfolding min_active
min_active-IsMin [] active bound h = (omega arith, ((λ i h. absurd (omega arith)), inl refl))
min_active-IsMin (t ∷ ts) [] bound h = absurd (omega arith)
min_active-IsMin (t ∷ ts) (false ∷ rest) bound h =
    IsMin-∷ t ts false rest bound bound (min_active ts rest bound) (omega arith) (λ e. absurd cc)
      (inl refl) (min_active-IsMin ts rest bound (omega arith))
min_active-IsMin (t ∷ ts) (true ∷ rest) bound h =
    let b = if ltb_ℤ t bound then t else bound in
    IsMin-∷ t ts true rest bound b (min_active ts rest b) (ground arith) (λ e. ground arith)
      (ground arith) (min_active-IsMin ts rest b (omega arith))

-- The global clock shows the earliest time of the active cores. It is left alone if there is none
-- before LLONG_MAX, which the code takes for no time at all.
abbrev pub IsSettled : MulticoreVirtualTimeline → List Bool → ℤ → Type 0
IsSettled m active before =
    let times = m.local_core_virtual_times in
    let g = m.global_virtual_time in
    (((i : ℕ) → i < length times → IsActive active i → llong_max ≤ℤ time_at times i) × (g ≡ before))
    ⊎ (((i : ℕ) → i < length times → IsActive active i → g ≤ℤ time_at times i)
        × ((i : ℕ) × ((i < length times) × (IsActive active i × (g ≡ time_at times i)))))

eqb_ℤ→parts : (a b : ℤ) → eqb_ℤ a b ≡ true → pos_part a + neg_part b ≡ pos_part b + neg_part a
eqb_ℤ→parts a b e = (==_iff (pos_part a + neg_part b) (pos_part b + neg_part a)).0 e

differ : (min : ℤ) → min ≡ llong_max → eqb_ℤ min llong_max ≡ false → ⊥
differ min e n = absurd (
    ground (
      arith,
      ==_iff (pos_part min + 0) (9_223_372_036_854_775_807 + neg_part min),
      ap pos_part e,
      ap neg_part e,
    ))

pub update-IsSettled :
    (m : MulticoreVirtualTimeline) (active : List Bool)
    → length active ≡ length m.local_core_virtual_times
    → IsSettled (update_to_min_active m active) active m.global_virtual_time
unfolding update_to_min_active
update-IsSettled m active h =
    let times = m.local_core_virtual_times in
    let min = min_active times active llong_max in
    let (low, (lows, from)) = min_active-IsMin times active llong_max h in
    elim (Bool-cases (eqb_ℤ min llong_max)) [
      | inl e ↦
          rw (e, update_to_min_active)
            (inl (
              (λ i h' on. let l = lows i h' on in omega (arith, eqb_ℤ→parts min llong_max e)),
              refl,
            ))
      | inr e ↦
          rw (e, update_to_min_active)
            (inr (lows, elim from [ inl e' ↦ absurd (differ min e' e) | inr at ↦ at ]))
    ]
