-- ===== src/Timeline/Tests.antt =====
-- The clocks and the controllers on small histories.
use vexjine.Common.{
  ℕ, ◌≡◌, ◌<◌, ◌==◌, refl, true, false, none, some, List, [], ◌∷◌, length, ℤ, pos, ◌+ℤ◌, ◌≤ℤ◌,
  if◌then◌else◌, arith,
}
use vexjine.Threads.Samples.{thread_at}
use vexjine.Timeline.Virtual
use vexjine.Timeline.Virtual.{VirtualTimeline}
use vexjine.Timeline.Virtual.Parallel.{report_all, total, at_rest, leap_forward_to-report_all}
use vexjine.Timeline.Multicore
use vexjine.Timeline.Multicore.{
  MulticoreVirtualTimeline, time_at, get_local_time, should_block_core_progress,
}
use vexjine.Timeline.Multicore.Clocks.{synchronize-IsLatest, native_time-earliest, IsLatest}
use vexjine.Timeline.Multicore.Disabling.{IsSettled}
use vexjine.Timeline.Multicore.Commits.{
  Commit, native, commit, activates, synchronizes, commit-monotone, commit-IsSettled,
}
use vexjine.Timeline.Multicore.Blocking.{is_ahead, should_block-disabling}
use vexjine.Timeline.Controllers.Single
use vexjine.Timeline.Controllers.Multiple
use vexjine.Timeline.Controllers.Laws.{
  commit-not_ahead, io, background_load, make_all, make_all-measured,
}
use vexjine.Timeline.Controllers.Logged.{statistics_enabled}
use vexjine.Timeline.Controllers.Cores.{commit-reached, resumed-reached}
use vexjine.Timeline.Multicore.Local.{commit_all}

leap_forward_to-report_all_example :
    Virtual.leap_forward_to (report_all Virtual.reset (pos 3 ∷ pos 4 ∷ [])) (pos 10)
    ≡ at_rest (
        (Virtual.leap_forward_to Virtual.reset (pos 10)).global_virtual_time
        +ℤ total (pos 3 ∷ pos 4 ∷ []))
leap_forward_to-report_all_example =
    leap_forward_to-report_all Virtual.reset (pos 3 ∷ pos 4 ∷ []) (pos 10)

-- Two processors, the second one ahead.
abbrev two_cores : MulticoreVirtualTimeline
two_cores = record {
  global_virtual_time = pos 5;
  local_core_virtual_times = pos 5 ∷ pos 30 ∷ [];
  local_core_active = none;
}

abbrev two_active : MulticoreVirtualTimeline
two_active = record two_cores { local_core_active = some (true ∷ true ∷ []) }

synchronize-IsLatest_example :
    (last : ℤ) × (IsLatest (pos 5 ∷ pos 30 ∷ []) last
      × ((j : ℕ)
          → j < 2
          → time_at
              (Multicore.add_time_of_unknown_real_time_duration_and_synchronize two_cores
                (pos 7)).local_core_virtual_times
              j
            ≡ last +ℤ pos 7))
synchronize-IsLatest_example = synchronize-IsLatest two_cores (pos 7) (omega arith)

native_time-earliest_example :
    let times = two_cores.local_core_virtual_times in
    let times' =
      (Multicore.add_time_of_thread_executing_at_unknown_time two_cores
        (pos 7)).local_core_virtual_times in
    (id : ℕ) × ((id < length times)
      × (((j : ℕ) → j < length times → time_at times id ≤ℤ time_at times j)
          × ((j : ℕ)
              → time_at times' j
                ≡ (if id == j then time_at times id +ℤ pos 7 else time_at times j))))
native_time-earliest_example = native_time-earliest two_cores (pos 7) (omega arith)

commit-monotone_example : pos 5 ≤ℤ (commit two_cores (synchronizes (pos 7))).global_virtual_time
commit-monotone_example = commit-monotone two_cores (synchronizes (pos 7)) refl

commit-IsSettled_example :
    IsSettled (commit two_active (activates (pos 12) 0)) (true ∷ true ∷ []) (pos 5)
commit-IsSettled_example =
    commit-IsSettled two_active (activates (pos 12) 0) (true ∷ true ∷ []) refl refl

should_block-disabling_example :
    should_block_core_progress two_active (pos 10) 1
    ≡ (if is_ahead two_active (pos 10) 1 then none else some (two_active, false))
should_block-disabling_example =
    should_block-disabling two_active (pos 10) 1 (true ∷ true ∷ []) refl

commit-not_ahead_example :
    Single.get_how_far_ahead_in_virtual_time_the_thread_is
      (Single.commit_io_time_progress Virtual.reset (thread_at 1 (pos 2)) (pos 2)).0
      (Single.commit_io_time_progress Virtual.reset (thread_at 1 (pos 2)) (pos 2)).1
    ≤ℤ pos 0
commit-not_ahead_example =
    (commit-not_ahead Virtual.reset (thread_at 1 (pos 2)) (pos 2) (omega arith)).0

make_all-measured_example :
    (make_all
      (statistics_enabled Single.single_controller)
      (Virtual.reset, [])
      (io (thread_at 1 (pos 2)) (pos 2) ∷ background_load (pos 3) ∷ [])).0
    ≡ make_all Single.single_controller Virtual.reset
        (io (thread_at 1 (pos 2)) (pos 2) ∷ background_load (pos 3) ∷ [])
make_all-measured_example =
    (make_all-measured Single.single_controller Virtual.reset []
      (io (thread_at 1 (pos 2)) (pos 2) ∷ background_load (pos 3) ∷ [])).0

commit-reached_example :
    (Multiple.commit_io_time_progress 0 two_cores
      (thread_at 1 (pos 9))
      (pos 3)).1.timers.estimated_real_time
    ≤ℤ get_local_time
        (Multiple.commit_io_time_progress 0 two_cores (thread_at 1 (pos 9)) (pos 3)).0
        0
commit-reached_example = (commit-reached 0 two_cores (thread_at 1 (pos 9)) (pos 3) (omega arith)).0

-- Another thread commits its native waiting between the two calls.
abbrev one_native : List Commit
one_native = native (pos 40) ∷ []

resumed-reached_example :
    (Multiple.leap_after_reading 0
      (get_local_time two_cores 0)
      (commit_all two_cores one_native)
      (thread_at 1 (pos 9))).1.timers.estimated_real_time
    ≤ℤ get_local_time
        (commit_all
          (Multiple.leap_after_reading 0
            (get_local_time two_cores 0)
            (commit_all two_cores one_native)
            (thread_at 1 (pos 9))).0
          [])
        0
resumed-reached_example =
    (resumed-reached 0 two_cores (thread_at 1 (pos 9)) (pos 1) one_native [] (omega arith)
      (omega arith, tt) tt).1
