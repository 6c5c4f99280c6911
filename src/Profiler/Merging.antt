-- ===== src/Profiler/Merging.antt =====
-- EventLogger.cpp: the measures of a thread that ends are merged into those of the program.
pub mod Sums
use vexjine.Common.{
  ℕ, ◌≡◌, refl, sym, ◌∙◌, ap, ◌==◌, Bool, true, false, Bool-cases, Option, none, some, List, [],
  ◌∷◌, ℤ, pos, ◌+ℤ◌, int_laws, inl, inr, if◌then◌else◌,
}
use vexjine.Profiler.Measures.{CallTimes, PerformanceMeasure, merge}

-- `measures` with `registeredMethodNames`; a name is all that is known of a method here.
pub record EventLogger : Type 0 where
  pub registered_method_names : ℕ → Option ℕ
  pub measures : List PerformanceMeasure

unfoldable pub find_measure : ℕ → List PerformanceMeasure → Option PerformanceMeasure
find_measure id [] = none
find_measure id (m ∷ ms) =
    let further = find_measure id ms in if m.measured_id == id then some m else further

unfoldable pub merge_into : PerformanceMeasure → List PerformanceMeasure → List PerformanceMeasure
unfolding merge
merge_into pm [] = pm ∷ []
merge_into pm (m ∷ ms) =
    let further = m ∷ merge_into pm ms in
    if m.measured_id == pm.measured_id then merge m pm ∷ ms else further

abbrev pub is_found : {A : Type 0} → Option A → Bool
is_found none = false
is_found (some a) = true

-- One measure of the thread; that of a method without a name is kept only where it is found.
unfoldable pub add_measure : EventLogger → PerformanceMeasure → EventLogger
unfolding find_measure merge_into
add_measure l pm =
    let added = record l { measures = merge_into pm l.measures } in
    if is_found (find_measure pm.measured_id l.measures)
    then added
    else if is_found (l.registered_method_names pm.measured_id)
    then added
    else l

unfoldable pub create_measures_for_thread : EventLogger → List PerformanceMeasure → EventLogger
unfolding add_measure
create_measures_for_thread l [] = l
create_measures_for_thread l (pm ∷ pms) = create_measures_for_thread (add_measure l pm) pms

unfoldable pub reset : EventLogger → EventLogger
reset l = record l { measures = [] }
