-- ===== src/Timeline/Multicore/Local.antt =====
-- The clock of one core under the commits of all threads: it only goes forward.
use vexjine.Common.{
  ℕ, zero, suc, ◌<◌, ◌≡◌, ◌==◌, refl, ap, ◌∙◌, subst, sym, inl, inr, Bool-cases, List, [], ◌∷◌,
  length, set, length-set, ℤ, pos, ◌+ℤ◌, +ℤ_parts, ◌≤ℤ◌, max_ℤ_bounds, arith, ==_iff,
}
use vexjine.Timeline.Multicore.{MulticoreVirtualTimeline, time_at}
use vexjine.Timeline.Multicore.Clocks.{
  local_after-update, synchronize-IsLatest, native_time-earliest,
}
use vexjine.Timeline.Multicore.Commits.{
  Commit, leaps, activates, synchronizes, native, commit, prepared, commit-prepared, length-const,
}

-- A commit of a duration that is not negative, or of a time.
abbrev pub IsForward : Commit → Type 0
IsForward (leaps t id) = Unit {0}
IsForward (activates t id) = Unit {0}
IsForward (synchronizes t) = pos 0 ≤ℤ t
IsForward (native t) = pos 0 ≤ℤ t

abbrev pub AllForward : List Commit → Type 0
AllForward [] = Unit {0}
AllForward (c ∷ cs) = IsForward c × AllForward cs

unfoldable pub commit_all : MulticoreVirtualTimeline → List Commit → MulticoreVirtualTimeline
unfolding commit
commit_all m [] = m
commit_all m (c ∷ cs) = commit_all (commit m c) cs

≤ℤ-refl : (a : ℤ) → a ≤ℤ a
≤ℤ-refl a = omega arith

set-forward :
    (times : List ℤ) (i j : ℕ) (t : ℤ)
    → time_at times i ≤ℤ t
    → time_at times j ≤ℤ time_at (set times i t) j
set-forward [] i j t h = ≤ℤ-refl (time_at [] j)
set-forward (s ∷ ss) zero zero t h = h
set-forward (s ∷ ss) zero (suc j) t h = ≤ℤ-refl (time_at ss j)
set-forward (s ∷ ss) (suc i) zero t h = ≤ℤ-refl s
set-forward (s ∷ ss) (suc i) (suc j) t h = set-forward ss i j t h

prepared-times :
    (m : MulticoreVirtualTimeline) (c : Commit)
    → (commit m c).local_core_virtual_times ≡ (prepared m c).local_core_virtual_times
prepared-times m c =
    ap (λ z. z.local_core_virtual_times) (commit-prepared m c) ∙ local_after-update (prepared m c) _

pub length-commit :
    (m : MulticoreVirtualTimeline) (c : Commit)
    → length (commit m c).local_core_virtual_times ≡ length m.local_core_virtual_times
length-commit m c = ap length (prepared-times m c) ∙ same m c
  where
    same :
        (m : MulticoreVirtualTimeline) (c : Commit)
        → length (prepared m c).local_core_virtual_times ≡ length m.local_core_virtual_times
    same m (leaps t id) = length-set m.local_core_virtual_times id _
    same m (activates t id) = length-set m.local_core_virtual_times id _
    same m (synchronizes t) = length-const m.local_core_virtual_times _
    same m (native t) = length-set m.local_core_virtual_times _ _

later : (a last t : ℤ) → a ≤ℤ last → pos 0 ≤ℤ t → a ≤ℤ last +ℤ t
later a last t h p = omega (arith, +ℤ_parts last t)

-- No commit takes the clock of a core back.
pub commit-forward :
    (m : MulticoreVirtualTimeline) (c : Commit) (j : ℕ)
    → j < length m.local_core_virtual_times
    → IsForward c
    → time_at m.local_core_virtual_times j ≤ℤ time_at (commit m c).local_core_virtual_times j
unfolding commit
commit-forward m (leaps t id) j h p =
    let times = m.local_core_virtual_times in
    subst (λ z. time_at times j ≤ℤ time_at z j) (sym (prepared-times m (leaps t id)))
      (set-forward times id j _ (max_ℤ_bounds (time_at times id) t).0)
commit-forward m (activates t id) j h p =
    let times = m.local_core_virtual_times in
    subst (λ z. time_at times j ≤ℤ time_at z j) (sym (prepared-times m (activates t id)))
      (set-forward times id j _ (max_ℤ_bounds (time_at times id) t).0)
commit-forward m (synchronizes t) j h p =
    let (last, ((all, _), every)) = synchronize-IsLatest m t (omega arith) in
    subst (λ z. time_at m.local_core_virtual_times j ≤ℤ z) (sym (every j h))
      (later _ last t (all j h) p)
commit-forward m (native t) j h p =
    let times = m.local_core_virtual_times in
    let (id, (inside, (low, every))) = native_time-earliest m t (omega arith) in
    subst (λ z. time_at times j ≤ℤ z) (sym (every j))
      (elim (Bool-cases (id == j)) [
        | inl e ↦
            rw (e, (==_iff id j).0 e) (later _ (time_at times j) t (≤ℤ-refl (time_at times j)) p)
        | inr n ↦ rw n (≤ℤ-refl (time_at times j))
      ])

pub commit_all-forward :
    (m : MulticoreVirtualTimeline) (cs : List Commit) (j : ℕ)
    → j < length m.local_core_virtual_times
    → AllForward cs
    → time_at m.local_core_virtual_times j ≤ℤ time_at (commit_all m cs).local_core_virtual_times j
unfolding commit_all
commit_all-forward m [] j h p = ≤ℤ-refl (time_at m.local_core_virtual_times j)
commit_all-forward m (c ∷ cs) j h (p, ps) =
    let first = commit-forward m c j h p in
    let h' = subst (λ n. j < n) (sym (length-commit m c)) h in
    let rest = commit_all-forward (commit m c) cs j h' ps in omega arith

pub length-commit_all :
    (m : MulticoreVirtualTimeline) (cs : List Commit)
    → length (commit_all m cs).local_core_virtual_times ≡ length m.local_core_virtual_times
unfolding commit_all
length-commit_all m [] = refl
length-commit_all m (c ∷ cs) = length-commit_all (commit m c) cs ∙ length-commit m c
