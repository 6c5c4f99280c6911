-- ===== src/Timeline/Multicore/Commits.antt =====
-- What the managers commit to the clocks, and the global clock after it.
use mathlib.Core.Option
use vexjine.Common.{
  ℕ, suc, ◌≡◌, refl, ap, ◌∙◌, subst, sym, Bool, true, none, some, List, [], ◌∷◌, map, length, set,
  length-set, ℤ, ◌+ℤ◌, ◌≤ℤ◌, max_ℤ, max_ℤ_bounds,
}
use vexjine.Timeline.Multicore.{
  MulticoreVirtualTimeline, time_at, tail, latest, earliest, update_to_min_active,
  update_global_time_to, leap_forward_to, get_local_timeline_activation_time,
  add_time_of_unknown_real_time_duration_and_synchronize,
  add_time_of_thread_executing_at_unknown_time,
}
use vexjine.Timeline.Multicore.Disabling.{IsSettled, update-IsSettled}

pub data Commit : Type 0 where
  leaps activates : ℤ → ℕ → Commit
  synchronizes native : ℤ → Commit

unfoldable pub commit : MulticoreVirtualTimeline → Commit → MulticoreVirtualTimeline
unfolding leap_forward_to get_local_timeline_activation_time
    add_time_of_unknown_real_time_duration_and_synchronize
    add_time_of_thread_executing_at_unknown_time
commit m (leaps t id) = leap_forward_to m t id
commit m (activates t id) = (get_local_timeline_activation_time m t id).0
commit m (synchronizes t) = add_time_of_unknown_real_time_duration_and_synchronize m t
commit m (native t) = add_time_of_thread_executing_at_unknown_time m t

-- The four ways in which a commit prepares the update of the global clock.
abbrev pub prepared : MulticoreVirtualTimeline → Commit → MulticoreVirtualTimeline
prepared m (leaps t id) =
    let times = m.local_core_virtual_times in
    record m { local_core_virtual_times = set times id (max_ℤ (time_at times id) t) }
prepared m (activates t id) =
    let times = m.local_core_virtual_times in
    record m {
      local_core_virtual_times = set times id (max_ℤ (time_at times id) t);
      local_core_active = Option.map (λ a. set a id true) m.local_core_active;
    }
prepared m (synchronizes t) =
    let times = m.local_core_virtual_times in
    let max = latest (tail times) (time_at times 0) +ℤ t in
    record m { local_core_virtual_times = map (λ s. max) times }
prepared m (native t) =
    let times = m.local_core_virtual_times in
    let id = earliest (tail times) 1 (time_at times 0) 0 in
    record m { local_core_virtual_times = set times id (time_at times id +ℤ t) }

abbrev target : MulticoreVirtualTimeline → Commit → ℤ
target m (leaps t id) = time_at (prepared m (leaps t id)).local_core_virtual_times id
target m (activates t id) = t
target m (synchronizes t) =
    latest (tail m.local_core_virtual_times) (time_at m.local_core_virtual_times 0) +ℤ t
target m (native t) =
    let times = m.local_core_virtual_times in
    time_at (prepared m (native t)).local_core_virtual_times
      (earliest (tail times) 1 (time_at times 0) 0)

pub commit-prepared :
    (m : MulticoreVirtualTimeline) (c : Commit)
    → commit m c ≡ update_global_time_to (prepared m c) (target m c)
unfolding commit leap_forward_to get_local_timeline_activation_time
    add_time_of_unknown_real_time_duration_and_synchronize
    add_time_of_thread_executing_at_unknown_time
commit-prepared m (leaps t id) = refl
commit-prepared m (activates t id) = refl
commit-prepared m (synchronizes t) = refl
commit-prepared m (native t) = refl

update-monotone :
    (m : MulticoreVirtualTimeline) (t : ℤ)
    → m.local_core_active ≡ none
    → m.global_virtual_time ≤ℤ (update_global_time_to m t).global_virtual_time
unfolding update_global_time_to
update-monotone m t h = rw (h, update_global_time_to) (max_ℤ_bounds m.global_virtual_time t).0

-- Which cores take part after a commit.
abbrev pub active_after : List Bool → Commit → List Bool
active_after active (leaps t id) = active
active_after active (activates t id) = set active id true
active_after active (synchronizes t) = active
active_after active (native t) = active

prepared-none :
    (m : MulticoreVirtualTimeline) (c : Commit)
    → m.local_core_active ≡ none
    → ((prepared m c).local_core_active ≡ none)
      × ((prepared m c).global_virtual_time ≡ m.global_virtual_time)
prepared-none m (leaps t id) h = (h, refl)
prepared-none m (activates t id) h = (ap (Option.map (λ a. set a id true)) h, refl)
prepared-none m (synchronizes t) h = (h, refl)
prepared-none m (native t) h = (h, refl)

-- In the base class no commit takes the global clock back.
pub commit-monotone :
    (m : MulticoreVirtualTimeline) (c : Commit)
    → m.local_core_active ≡ none
    → m.global_virtual_time ≤ℤ (commit m c).global_virtual_time
commit-monotone m c h =
    let (n, g) = prepared-none m c h in
    subst (λ z. m.global_virtual_time ≤ℤ z.global_virtual_time) (sym (commit-prepared m c))
      (subst (λ z. z ≤ℤ (update_global_time_to (prepared m c) (target m c)).global_virtual_time) g
        (update-monotone (prepared m c) (target m c) n))

pub length-const : (ts : List ℤ) (t : ℤ) → length (map (λ s. t) ts) ≡ length ts
length-const [] t = refl
length-const (s ∷ ss) t = ap suc (length-const ss t)

prepared-some :
    (m : MulticoreVirtualTimeline) (c : Commit) (active : List Bool)
    → m.local_core_active ≡ some active
    → length active ≡ length m.local_core_virtual_times
    → ((prepared m c).local_core_active ≡ some (active_after active c))
      × ((length (active_after active c) ≡ length (prepared m c).local_core_virtual_times)
          × ((prepared m c).global_virtual_time ≡ m.global_virtual_time))
prepared-some m (leaps t id) active h l =
    (h, (l ∙ sym (length-set m.local_core_virtual_times id _), refl))
prepared-some m (activates t id) active h l = (
  ap (Option.map (λ a. set a id true)) h,
  (length-set active id true ∙ l ∙ sym (length-set m.local_core_virtual_times id _), refl),
)
prepared-some m (synchronizes t) active h l =
    (h, (l ∙ sym (length-const m.local_core_virtual_times _), refl))
prepared-some m (native t) active h l =
    (h, (l ∙ sym (length-set m.local_core_virtual_times _ _), refl))

update-active :
    (m : MulticoreVirtualTimeline) (active : List Bool) (t : ℤ)
    → m.local_core_active ≡ some active
    → update_global_time_to m t ≡ update_to_min_active m active
unfolding update_global_time_to
update-active m active t h =
    ap
      (λ o. elim o [
        | none ↦ record m { global_virtual_time = max_ℤ m.global_virtual_time t }
        | some a ↦ update_to_min_active m a
      ])
      h

-- In the subclass every commit leaves the global clock at the earliest time of the cores that are
-- active then, whatever the commit asks for; it stays as it was only if none is before LLONG_MAX.
-- The subclass has a flag for each core.
pub commit-IsSettled :
    (m : MulticoreVirtualTimeline) (c : Commit) (active : List Bool)
    → m.local_core_active ≡ some active
    → length active ≡ length m.local_core_virtual_times
    → IsSettled (commit m c) (active_after active c) m.global_virtual_time
commit-IsSettled m c active h l =
    let (on, (l', g)) = prepared-some m c active h l in
    let active' = active_after active c in
    let e = commit-prepared m c ∙ update-active (prepared m c) active' (target m c) on in
    subst (λ z. IsSettled z active' m.global_virtual_time) (sym e)
      (subst (IsSettled (update_to_min_active (prepared m c) active') active') g
        (update-IsSettled (prepared m c) active' l'))
