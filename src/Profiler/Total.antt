-- ===== src/Profiler/Total.antt =====
-- What the measures of a thread add up to.
use vexjine.Common.{
  ℕ, ◌≡◌, refl, sym, ◌∙◌, ap, ◌==◌, ==_iff, true, false, Bool-cases, List, [], ◌∷◌, contains, ℤ,
  pos, ◌+ℤ◌, ◌-ℤ◌, int_laws, put, put_self, arith, inl, inr, if◌then◌else◌,
}
use vexjine.Profiler.Measures.{
  CallTimes, no_times, plus_times, minus_times, MethodCallInfo, PerformanceMeasure, new_measure,
  add, more_info, log_times_on_method_exit, get_inclusive_difference_from, update_callee_time,
}
use vexjine.Profiler.Log.{MethodLog, log_method_exit, end_call, measured, tell_caller}
use vexjine.Profiler.Log.Places.{Falling, Falling-free}

pub data Metric : Type 0 where
  cpu : Metric
  real : Metric
  monitor : Metric
  io : Metric

abbrev pub of_metric : Metric → CallTimes → ℤ
of_metric cpu t = t.cpu_time
of_metric real t = t.estimated_real_time
of_metric monitor t = t.monitor_wait
of_metric io t = t.io_wait

of-plus :
    (m : Metric) (a b : CallTimes) → of_metric m (plus_times a b) ≡ of_metric m a +ℤ of_metric m b
of-plus cpu a b = refl
of-plus real a b = refl
of-plus monitor a b = refl
of-plus io a b = refl

of-minus :
    (m : Metric) (a b : CallTimes) → of_metric m (minus_times a b) ≡ of_metric m a -ℤ of_metric m b
of-minus cpu a b = refl
of-minus real a b = refl
of-minus monitor a b = refl
of-minus io a b = refl

pub of-none : (m : Metric) → of_metric m no_times ≡ pos 0
of-none cpu = refl
of-none real = refl
of-none monitor = refl
of-none io = refl

pub to_right : (a t b : ℤ) → a +ℤ t +ℤ b ≡ a +ℤ b +ℤ t
to_right a t b = omega int_laws

regroup : (a b c : ℤ) → a +ℤ (b +ℤ c) ≡ a +ℤ b +ℤ c
regroup a b c = omega int_laws

zeros : pos 0 ≡ pos 0 +ℤ pos 0 +ℤ pos 0
zeros = omega int_laws

pub zero_right : (a : ℤ) → a +ℤ pos 0 ≡ a
zero_right a = omega int_laws

alone : (t i c : ℤ) → t +ℤ (i -ℤ c) +ℤ (c +ℤ pos 0) ≡ t +ℤ (i +ℤ pos 0 +ℤ pos 0)
alone t i c = omega int_laws

called : (t i c u : ℤ) → t +ℤ (i -ℤ c) +ℤ (c +ℤ u) ≡ t +ℤ (pos 0 +ℤ (u +ℤ i) +ℤ pos 0)
called t i c u = omega int_laws

shift : (a c u : ℤ) → a +ℤ (c +ℤ u) ≡ a +ℤ u +ℤ c
shift a c u = omega int_laws

back : (t out u d c : ℤ) → t +ℤ (out +ℤ u +ℤ d) +ℤ c ≡ t +ℤ (out +ℤ u +ℤ (c +ℤ d))
back t out u d c = omega int_laws

skip :
    (t t' c u out u' d : ℤ)
    → t' +ℤ u ≡ t +ℤ (out +ℤ u' +ℤ d)
    → t' +ℤ (c +ℤ u) ≡ t +ℤ (out +ℤ u' +ℤ (c +ℤ d))
skip t t' c u out u' d h = shift t' c u ∙ ap (λ z. z +ℤ c) h ∙ back t out u' d c

module _ (m : Metric) where
  -- The exclusive times of all methods.
  unfoldable pub exclusive_total : List PerformanceMeasure → ℤ
  exclusive_total [] = pos 0
  exclusive_total (p ∷ ps) = of_metric m p.excluding_callee_methods +ℤ exclusive_total ps

  -- What the calls under way have been told by calls that have ended.
  unfoldable pub told : (ℕ → MethodCallInfo) → List ℕ → ℤ
  told storage [] = pos 0
  told storage (i ∷ is) = of_metric m (storage i).callee_time +ℤ told storage is

  -- The inclusive time of the call that an exit ends, if nobody has called it.
  unfoldable pub outermost : MethodLog → MethodCallInfo → List ℕ → ℤ
  outermost l exiting [] = pos 0
  outermost l exiting (i ∷ []) =
      if (l.method_info_storage i).method_id == exiting.method_id
      then of_metric m (get_inclusive_difference_from exiting (l.method_info_storage i))
      else pos 0
  outermost l exiting (i ∷ (j ∷ is)) =
      let further = outermost l exiting (j ∷ is) in
      if (l.method_info_storage i).method_id == exiting.method_id then pos 0 else further

  -- What the calls that an exit takes off without an end have been told.
  unfoldable pub dropped : MethodLog → MethodCallInfo → List ℕ → ℤ
  dropped l exiting [] = pos 0
  dropped l exiting (i ∷ is) =
      let further = of_metric m (l.method_info_storage i).callee_time +ℤ dropped l exiting is in
      if (l.method_info_storage i).method_id == exiting.method_id then pos 0 else further

  pub told-put :
      (storage : ℕ → MethodCallInfo) (i : ℕ) (info : MethodCallInfo) (is : List ℕ)
      → contains i is ≡ false
      → told (put storage i info) is ≡ told storage is
  unfolding told contains
  told-put storage i info [] h = refl
  told-put storage i info (j ∷ is) h = ground (arith, told-put storage i info is, ==_iff j i)

  exclusive_total-measured :
      (id : ℕ) (f : PerformanceMeasure → PerformanceMeasure) (t : ℤ) (ps : List PerformanceMeasure)
      → ((p : PerformanceMeasure)
          → of_metric m (f p).excluding_callee_methods
            ≡ of_metric m p.excluding_callee_methods +ℤ t)
      → exclusive_total (measured id f ps) ≡ exclusive_total ps +ℤ t
  unfolding exclusive_total measured new_measure
  exclusive_total-measured id f t [] adds =
      ap (λ z. z +ℤ pos 0) (adds (new_measure id) ∙ ap (λ z. z +ℤ t) (of-none m))
      ∙ zero_right (pos 0 +ℤ t)
  exclusive_total-measured id f t (p ∷ ps) adds = elim (Bool-cases (p.measured_id == id)) [
    | inl same ↦ rw same (
        ap (λ z. z +ℤ exclusive_total ps) (adds p)
        ∙ to_right (of_metric m p.excluding_callee_methods) t (exclusive_total ps))
    | inr other ↦ rw other (
        ap (λ z. of_metric m p.excluding_callee_methods +ℤ z)
          (exclusive_total-measured id f t ps adds)
        ∙ regroup (of_metric m p.excluding_callee_methods) (exclusive_total ps) t)
  ]

  log_times-adds :
      (exiting entry : MethodCallInfo) (p : PerformanceMeasure)
      → of_metric m (log_times_on_method_exit exiting p entry).excluding_callee_methods
        ≡ of_metric m p.excluding_callee_methods
          +ℤ (of_metric m (get_inclusive_difference_from exiting entry)
              -ℤ of_metric m entry.callee_time)
  unfolding log_times_on_method_exit add more_info
  log_times-adds exiting entry p =
      of-plus m p.excluding_callee_methods _
      ∙ ap (λ z. of_metric m p.excluding_callee_methods +ℤ z)
          (of-minus m (get_inclusive_difference_from exiting entry) entry.callee_time)

  -- A caller on the stack is told the time of the call that ends; without a caller, it is lost to the
  -- stack.
  told-caller :
      (storage : ℕ → MethodCallInfo) (c : ℕ) (cs : List ℕ) (diff : CallTimes)
      → contains c cs ≡ false
      → told (tell_caller storage (c ∷ cs) diff) (c ∷ cs)
        ≡ told storage (c ∷ cs) +ℤ of_metric m diff
  unfolding told tell_caller update_callee_time
  told-caller storage c cs diff apart =
      let info = update_callee_time (storage c) diff in
      ap (λ z. z +ℤ told (put storage c info) cs)
        (ap (λ i. of_metric m i.callee_time) (put_self storage c info)
          ∙ of-plus m (storage c).callee_time diff)
      ∙ ap (λ z. of_metric m (storage c).callee_time +ℤ of_metric m diff +ℤ z)
          (told-put storage c info cs apart)
      ∙ to_right (of_metric m (storage c).callee_time) (of_metric m diff) (told storage cs)

  -- The sum of an exit: what the measures gain stands for what has been told, what nobody has
  -- called, and what is dropped.
  abbrev pub Balanced : MethodLog → MethodCallInfo → List ℕ → Type 0
  Balanced l exiting is =
      let l' = log_method_exit l exiting is in
      exclusive_total l'.measures +ℤ told l.method_info_storage is
      ≡ exclusive_total l.measures
        +ℤ (outermost l exiting is
            +ℤ told l'.method_info_storage l'.method_stack
            +ℤ dropped l exiting is)

  measures-end :
      (l : MethodLog) (exiting : MethodCallInfo) (i : ℕ) (rest : List ℕ)
      → exclusive_total (end_call l exiting i rest).measures
        ≡ exclusive_total l.measures
          +ℤ (of_metric m (get_inclusive_difference_from exiting (l.method_info_storage i))
              -ℤ of_metric m (l.method_info_storage i).callee_time)
  unfolding end_call
  measures-end l exiting i rest =
      exclusive_total-measured exiting.method_id
        (λ p. log_times_on_method_exit exiting p (l.method_info_storage i)) _ l.measures
        (log_times-adds exiting (l.method_info_storage i))

  end_call-Balanced :
      (l : MethodLog) (exiting : MethodCallInfo) (i : ℕ) (rest : List ℕ)
      → Falling i rest
      → ((l.method_info_storage i).method_id == exiting.method_id) ≡ true
      → Balanced l exiting (i ∷ rest)
  unfolding log_method_exit outermost dropped told end_call tell_caller
  end_call-Balanced l exiting i [] f same = rw same (
      ap (λ z. z +ℤ (of_metric m (l.method_info_storage i).callee_time +ℤ pos 0))
        (measures-end l exiting i [])
      ∙ alone (exclusive_total l.measures)
          (of_metric m (get_inclusive_difference_from exiting (l.method_info_storage i)))
          (of_metric m (l.method_info_storage i).callee_time))
  end_call-Balanced l exiting i (c ∷ cs) (low, f) same =
      let entry = l.method_info_storage i in
      let including = get_inclusive_difference_from exiting entry in
      let u = told l.method_info_storage (c ∷ cs) in
      let t = exclusive_total l.measures in
      rw same (
        ap (λ z. z +ℤ (of_metric m entry.callee_time +ℤ u)) (measures-end l exiting i (c ∷ cs))
        ∙ called t (of_metric m including) (of_metric m entry.callee_time) u
        ∙ ap (λ z. t +ℤ (pos 0 +ℤ z +ℤ pos 0))
            (sym (
              told-caller l.method_info_storage c cs including
                (Falling-free c c cs (omega arith) f))))

  outermost-other :
      (l : MethodLog) (exiting : MethodCallInfo) (i : ℕ) (is : List ℕ)
      → ((l.method_info_storage i).method_id == exiting.method_id) ≡ false
      → outermost l exiting (i ∷ is) ≡ outermost l exiting is
  unfolding outermost
  outermost-other l exiting i [] other = rw other refl
  outermost-other l exiting i (j ∷ is) other = rw other refl

  passed-Balanced :
      (l : MethodLog) (exiting : MethodCallInfo) (i : ℕ) (is : List ℕ)
      → ((l.method_info_storage i).method_id == exiting.method_id) ≡ false
      → Balanced l exiting is
      → Balanced l exiting (i ∷ is)
  unfolding log_method_exit dropped told
  passed-Balanced l exiting i is other balanced =
      let l' = log_method_exit l exiting is in
      let ci = of_metric m (l.method_info_storage i).callee_time in
      rw (outermost-other l exiting i is other, other)
        (skip (exclusive_total l.measures) (exclusive_total l'.measures) ci
          (told l.method_info_storage is) (outermost l exiting is)
          (told l'.method_info_storage l'.method_stack) (dropped l exiting is) balanced)

  pub log_method_exit-Balanced :
      (l : MethodLog) (exiting : MethodCallInfo) (n : ℕ) (is : List ℕ)
      → Falling n is
      → Balanced l exiting is
  unfolding log_method_exit dropped told outermost
  log_method_exit-Balanced l exiting n [] f = ap (λ z. exclusive_total l.measures +ℤ z) zeros
  log_method_exit-Balanced l exiting n (i ∷ is) (low, f) =
      elim (Bool-cases ((l.method_info_storage i).method_id == exiting.method_id)) [
        | inl same ↦ end_call-Balanced l exiting i is f same
        | inr other ↦
            passed-Balanced l exiting i is other (log_method_exit-Balanced l exiting i is f)
      ]
