-- ===== src/Profiler/Merging/Sums.antt =====
-- What the measures of the program's threads add up to for a method.
use vexjine.Common.{
  ℕ, ◌≡◌, refl, sym, ◌∙◌, ap, ◌==◌, ==_iff, true, false, Bool-cases, Option, some, List, [], ◌∷◌, ℤ,
  pos, ◌+ℤ◌, int_laws, arith, inl, inr, if◌then◌else◌,
}
use mathlib.Core.Bool.{true≢false}
use vexjine.Profiler.Measures.{PerformanceMeasure, merge}
use vexjine.Profiler.Merging.{
  EventLogger, is_found, find_measure, merge_into, add_measure, create_measures_for_thread,
}

-- A quantity that merging adds up.
abbrev pub Additive : (PerformanceMeasure → ℤ) → Type 0
Additive f = (a b : PerformanceMeasure) → f (merge a b) ≡ f a +ℤ f b

-- The quantity over all measures of a method.
unfoldable pub sum_of : (PerformanceMeasure → ℤ) → ℕ → List PerformanceMeasure → ℤ
sum_of f id [] = pos 0
sum_of f id (m ∷ ms) =
    let rest = sum_of f id ms in if m.measured_id == id then f m +ℤ rest else rest

unfoldable pub share : (PerformanceMeasure → ℤ) → ℕ → PerformanceMeasure → ℤ
share f id m = if m.measured_id == id then f m else pos 0

zero_left : (a : ℤ) → pos 0 +ℤ a ≡ a
zero_left a = omega int_laws

to_end : (a b c : ℤ) → a +ℤ b +ℤ c ≡ a +ℤ c +ℤ b
to_end a b c = omega int_laws

swapped : (a b : ℤ) → a +ℤ b ≡ b +ℤ a
swapped a b = omega int_laws

zero_right : (a : ℤ) → a ≡ a +ℤ pos 0
zero_right a = omega int_laws

inwards : (a b c : ℤ) → a +ℤ (b +ℤ c) ≡ a +ℤ b +ℤ c
inwards a b c = omega int_laws

sum_of-cons :
    (f : PerformanceMeasure → ℤ) (id : ℕ) (m : PerformanceMeasure) (ms : List PerformanceMeasure)
    → sum_of f id (m ∷ ms) ≡ share f id m +ℤ sum_of f id ms
unfolding sum_of share
sum_of-cons f id m ms = elim (Bool-cases (m.measured_id == id)) [
  | inl same ↦ rw same refl
  | inr other ↦ rw other (sym (zero_left (sum_of f id ms)))
]

module _ (f : PerformanceMeasure → ℤ) (additive : Additive f) (id : ℕ) where
  share-merge :
      (m pm : PerformanceMeasure)
      → (m.measured_id == pm.measured_id) ≡ true
      → share f id (merge m pm) ≡ share f id m +ℤ share f id pm
  unfolding share merge
  share-merge m pm same = elim (Bool-cases (m.measured_id == id)) [
    | inl here ↦
        let there : (pm.measured_id == id) ≡ true =
          ground (arith, ==_iff m.measured_id pm.measured_id, ==_iff m.measured_id id) in
        rw (here, there) (additive m pm)
    | inr away ↦
        let there : (pm.measured_id == id) ≡ false =
          ground (arith, ==_iff m.measured_id pm.measured_id, ==_iff m.measured_id id) in
        rw (away, there) (sym (zero_left (pos 0)))
  ]

  sum_of-merge_into :
      (pm : PerformanceMeasure) (ms : List PerformanceMeasure)
      → sum_of f id (merge_into pm ms) ≡ sum_of f id ms +ℤ share f id pm
  unfolding merge_into
  sum_of-merge_into pm [] = sum_of-cons f id pm [] ∙ swapped (share f id pm) (sum_of f id [])
  sum_of-merge_into pm (m ∷ ms) = elim (Bool-cases (m.measured_id == pm.measured_id)) [
    | inl same ↦ rw same (
        sum_of-cons f id (merge m pm) ms
        ∙ ap (λ z. z +ℤ sum_of f id ms) (share-merge m pm same)
        ∙ to_end (share f id m) (share f id pm) (sum_of f id ms)
        ∙ ap (λ z. z +ℤ share f id pm) (sym (sum_of-cons f id m ms)))
    | inr other ↦ rw other (
        sum_of-cons f id m (merge_into pm ms)
        ∙ ap (λ z. share f id m +ℤ z) (sum_of-merge_into pm ms)
        ∙ inwards (share f id m) (sum_of f id ms) (share f id pm)
        ∙ ap (λ z. z +ℤ share f id pm) (sym (sum_of-cons f id m ms)))
  ]

  share-unknown :
      (names : ℕ → Option ℕ) (name : ℕ) (pm : PerformanceMeasure)
      → names id ≡ some name
      → is_found (names pm.measured_id) ≡ false
      → share f id pm ≡ pos 0
  unfolding share
  share-unknown names name pm known unknown = elim (Bool-cases (pm.measured_id == id)) [
    | inl same ↦
        let e = (==_iff pm.measured_id id).0 same in
        absurd (true≢false (sym (ap is_found (ap names e ∙ known)) ∙ unknown))
    | inr other ↦ rw other refl
  ]

  sum_of-add_measure :
      (l : EventLogger) (name : ℕ) (pm : PerformanceMeasure)
      → l.registered_method_names id ≡ some name
      → sum_of f id (add_measure l pm).measures ≡ sum_of f id l.measures +ℤ share f id pm
  unfolding add_measure
  sum_of-add_measure l name pm known =
      elim (Bool-cases (is_found (find_measure pm.measured_id l.measures))) [
        | inl found ↦ rw found (sum_of-merge_into pm l.measures)
        | inr missing ↦ elim (Bool-cases (is_found (l.registered_method_names pm.measured_id))) [
          | inl registered ↦ rw (missing, registered) (sum_of-merge_into pm l.measures)
          | inr unknown ↦
              rw (missing, unknown, share-unknown l.registered_method_names name pm known unknown)
                (zero_right (sum_of f id l.measures))
        ]
      ]

  names-add_measure :
      (l : EventLogger) (pm : PerformanceMeasure)
      → (add_measure l pm).registered_method_names ≡ l.registered_method_names
  unfolding add_measure
  names-add_measure l pm = ground arith

  -- The measures of a thread that ends are added to those of the program: for a registered method,
  -- each quantity that `operator+=` adds up is afterwards what it was and what the thread has
  -- measured, in whatever order the thread's measures come.
  pub sum_of-create_measures :
      (l : EventLogger) (name : ℕ) (pms : List PerformanceMeasure)
      → l.registered_method_names id ≡ some name
      → sum_of f id (create_measures_for_thread l pms).measures
        ≡ sum_of f id l.measures +ℤ sum_of f id pms
  unfolding create_measures_for_thread sum_of
  sum_of-create_measures l name [] known = zero_right (sum_of f id l.measures)
  sum_of-create_measures l name (pm ∷ pms) known =
      let l' = add_measure l pm in
      sum_of-create_measures l' name pms (ap (λ n. n id) (names-add_measure l pm) ∙ known)
      ∙ ap (λ z. z +ℤ sum_of f id pms) (sum_of-add_measure l name pm known)
      ∙ sym (inwards (sum_of f id l.measures) (share f id pm) (sum_of f id pms))
      ∙ ap (λ z. sum_of f id l.measures +ℤ z) (sym (sum_of-cons f id pm pms))

-- The quantities that `operator+=` adds up.
pub merge-Additive :
    Additive (λ m. m.excluding_callee_methods.cpu_time)
    × Additive (λ m. m.excluding_callee_methods.estimated_real_time)
    × Additive (λ m. m.including_callee_methods.cpu_time)
    × Additive (λ m. m.including_callee_methods.estimated_real_time)
    × Additive (λ m. pos m.samples)
unfolding merge
merge-Additive = (λ a b. refl, λ a b. refl, λ a b. refl, λ a b. refl, λ a b. omega int_laws)
