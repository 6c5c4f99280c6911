-- ===== src/Timeline/Virtual/Parallel.antt =====
-- Time of threads that run in native code, whose place in virtual time is not known, and the leaps.
use vexjine.Common.{
  ◌≡◌, ap, ◌∙◌, List, [], ◌∷◌, ℤ, pos, ◌+ℤ◌, +ℤ_parts, max_ℤ, ◌≤ℤ◌, int_laws, arith,
}
use vexjine.Timeline.Virtual.{
  VirtualTimeline, leap_forward_to, add_time_of_thread_executing_at_unknown_time,
}

-- Several threads report their native time, one after the other.
unfoldable pub report_all : VirtualTimeline → List ℤ → VirtualTimeline
unfolding add_time_of_thread_executing_at_unknown_time
report_all v [] = v
report_all v (d ∷ ds) = report_all (add_time_of_thread_executing_at_unknown_time v d) ds

unfoldable pub total : List ℤ → ℤ
total [] = pos 0
total (d ∷ ds) = d +ℤ total ds

report_all-times :
    (v : VirtualTimeline) (ds : List ℤ)
    → ((report_all v ds).global_virtual_time ≡ v.global_virtual_time +ℤ total ds)
      × ((report_all v ds).unknown_parallel_time ≡ v.unknown_parallel_time +ℤ total ds)
unfolding report_all add_time_of_thread_executing_at_unknown_time total
report_all-times v [] = (omega int_laws, omega int_laws)
report_all-times v (d ∷ ds) =
    let (g, u) = report_all-times (add_time_of_thread_executing_at_unknown_time v d) ds in
    (g ∙ omega int_laws, u ∙ omega int_laws)

-- A clock without open native time.
abbrev pub at_rest : ℤ → VirtualTimeline
at_rest time = record { global_virtual_time = time; unknown_parallel_time = pos 0 }

max-add : (a b c : ℤ) → max_ℤ (a +ℤ c) (b +ℤ c) ≡ max_ℤ a b +ℤ c
max-add a b c = ground (arith, +ℤ_parts a c, +ℤ_parts b c)

-- The native times that threads report before a leap of the clock come on top of the leap: the
-- clock shows what it would show if it had leapt first and the times had been added then. No
-- native time is open after the leap.
pub leap_forward_to-report_all :
    (v : VirtualTimeline) (ds : List ℤ) (forward : ℤ)
    → leap_forward_to (report_all v ds) forward
      ≡ at_rest ((leap_forward_to v forward).global_virtual_time +ℤ total ds)
unfolding leap_forward_to
leap_forward_to-report_all v ds forward =
    let (g, u) = report_all-times v ds in
    let late = v.global_virtual_time +ℤ total ds in
    let open' = v.unknown_parallel_time in
    let assoc : (forward +ℤ (open' +ℤ total ds)) ≡ (forward +ℤ open') +ℤ total ds =
      omega int_laws in
    let times =
      ap (λ z. max_ℤ z (forward +ℤ (report_all v ds).unknown_parallel_time)) g
      ∙ ap (λ z. max_ℤ late (forward +ℤ z)) u
      ∙ ap (max_ℤ late) assoc
      ∙ max-add v.global_virtual_time (forward +ℤ open') (total ds) in
    ap at_rest times

-- A leap never takes the clock back, and takes it at least to the time that it is asked for with
-- the open native time on top.
pub leap_forward_to-bounds :
    (v : VirtualTimeline) (forward : ℤ)
    → (v.global_virtual_time ≤ℤ (leap_forward_to v forward).global_virtual_time)
      × (forward +ℤ v.unknown_parallel_time ≤ℤ (leap_forward_to v forward).global_virtual_time)
unfolding leap_forward_to
leap_forward_to-bounds v forward = (ground arith, ground arith)
