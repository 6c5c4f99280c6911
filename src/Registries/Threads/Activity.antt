-- ===== src/Registries/Threads/Activity.antt =====
-- May virtual time leap forward to a thread, or can another thread still act before it?
use vexjine.Common.{
  ℕ, ◌↔◌, ap, sym, subst, ◌∙◌, ◌≡◌, ◌≢◌, refl, ◌⊎◌, inl, inr, Bool, true, false, not, ◌&&◌, Option,
  none, some, List, [], ◌∷◌, ℤ, pos, ◌+ℤ◌, ◌-ℤ◌, ◌≤ℤ◌, ltb_ℤ, ltb_ℤ→le, ltb, if◌then◌else◌, arith,
}
use vexjine.Threads.Code.{ordinal}
use vexjine.Threads.State.{VexThreadState, is_suspended, is_native_waiting, is_definitely_active}
use vexjine.Registries.Threads.{ThreadRegistry}

pub data Activity : Type 0 where
  at_least_one_alive maybe_one_alive none_alive : Activity

-- `existsThreadThatIsSuspendedOnHigherErtThanTimeoutAndMightUnblockNativeWaitingThread`.
unfoldable pub exists_suspended_from : (ℕ → VexThreadState) → List (ℕ × ℕ) → ℤ → Bool
unfolding is_suspended
exists_suspended_from threads [] ert = false
exists_suspended_from threads ((k, p) ∷ index) ert =
    let rest = exists_suspended_from threads index ert in
    if is_suspended (threads p) && not (ltb_ℤ (threads p).timers.estimated_real_time ert)
    then true
    else rest

-- The time since a thread stopped is short beside the time that remains until the leap.
unfoldable pub is_recent : Option ℤ → ℤ → Bool
is_recent none ahead = false
is_recent (some remaining) ahead = ltb_ℤ ahead (remaining +ℤ remaining)

-- What one thread says of a leap; `none`: nothing. Is it before the time of the leap, definitely
-- active, in native waiting, are there suspended threads from then on, has it stopped recently?
unfoldable pub decide : Bool → Bool → Bool → Bool → Bool → Option Activity
decide false active native suspended recent = none
decide true true native suspended recent = some at_least_one_alive
decide true false true true recent = some maybe_one_alive
decide true false true false recent = some at_least_one_alive
decide true false false suspended true = some maybe_one_alive
decide true false false suspended false = none

unfoldable pub opinion : ThreadRegistry → ℤ → Option ℤ → VexThreadState → Option Activity
unfolding decide is_definitely_active is_native_waiting exists_suspended_from is_recent
opinion r ert remaining s =
    decide (ltb_ℤ s.timers.estimated_real_time ert) (is_definitely_active s) (is_native_waiting s)
      (exists_suspended_from r.threads r.thread_state_index ert)
      (is_recent remaining (ert -ℤ s.timers.estimated_real_time))

-- The loop goes on only past a thread that says nothing.
or_else : Option Activity → Activity → Activity
or_else none rest = rest
or_else (some a) rest = a

unfoldable pub first_opinion : ThreadRegistry → ℤ → Option ℤ → List (ℕ × ℕ) → Activity
unfolding opinion or_else
first_opinion r ert remaining [] = none_alive
first_opinion r ert remaining ((k, p) ∷ index) =
    or_else (opinion r ert remaining (r.threads p)) (first_opinion r ert remaining index)

-- `state` is the pointer of the thread to which time is to leap.
unfoldable pub are_any_other_threads_active_in_former_time :
    ThreadRegistry → ℕ → Option ℤ → Activity
unfolding first_opinion
are_any_other_threads_active_in_former_time r state remaining =
    if ltb 0 r.threads_being_spawned
    then at_least_one_alive
    else if not r.forward_leaps_allowed
    then at_least_one_alive
    else first_opinion r (r.threads state).timers.estimated_real_time remaining r.thread_state_index

unfoldable pub summed_ert : (ℕ → VexThreadState) → List (ℕ × ℕ) → ℤ
unfolding ordinal
summed_ert threads [] = pos 0
summed_ert threads ((k, p) ∷ index) =
    let s = threads p in
    s.timers.estimated_real_time
    +ℤ s.timers.local_time_since_last_resume
    +ℤ pos (ordinal s.current_state)
    +ℤ s.io_handler.io_cpu_time
    +ℤ summed_ert threads index

unfoldable pub get_summed_ert_of_all_threads : ThreadRegistry → ℤ
unfolding summed_ert
get_summed_ert_of_all_threads r = summed_ert r.threads r.thread_state_index

-- The thread is in the index.
abbrev pub IsIn : ℕ → List (ℕ × ℕ) → Type 0
IsIn p [] = ⊥
IsIn p ((k, q) ∷ index) = (q ≡ p) ⊎ IsIn p index

-- A thread that does not stand in the way of a leap to `ert`.
abbrev pub IsQuiet : ℤ → Option ℤ → VexThreadState → Type 0
IsQuiet ert remaining s =
    (ert ≤ℤ s.timers.estimated_real_time)
    ⊎ ((is_definitely_active s ≡ false)
        × ((is_native_waiting s ≡ false)
            × (is_recent remaining (ert -ℤ s.timers.estimated_real_time) ≡ false)))

-- Of the five answers, those that say nothing.
abbrev Silent : Bool → Bool → Bool → Bool → Type 0
Silent before active native recent =
    (before ≡ false) ⊎ ((active ≡ false) × ((native ≡ false) × (recent ≡ false)))

decide-Silent :
    (b a n e r : Bool)
    → ((decide b a n e r ≡ none) × Silent b a n r)
      ⊎ ((x : Activity) × ((decide b a n e r ≡ some x) × (x ≢ none_alive)))
unfolding decide
decide-Silent false a n e r = inl (refl, inl refl)
decide-Silent true true n e r = inr (at_least_one_alive, (refl, λ q. absurd (cc)))
decide-Silent true false true true r = inr (maybe_one_alive, (refl, λ q. absurd (cc)))
decide-Silent true false true false r = inr (at_least_one_alive, (refl, λ q. absurd (cc)))
decide-Silent true false false e true = inr (maybe_one_alive, (refl, λ q. absurd (cc)))
decide-Silent true false false e false = inl (refl, inr (refl, (refl, refl)))

decide-idle : (b e : Bool) → decide b false false e false ≡ none
unfolding decide
decide-idle false e = refl
decide-idle true e = refl

Silent-decide : (b a n e r : Bool) → Silent b a n r → decide b a n e r ≡ none
unfolding decide
Silent-decide b a n e r (inl before) = ap (λ z. decide z a n e r) before
Silent-decide b a n e r (inr (active, (native, recent))) =
    rw (active, native, recent) (decide-idle b e)

-- A thread has an opinion other than that none is alive, or it is quiet.
opinion-IsQuiet :
    (r : ThreadRegistry) (ert : ℤ) (remaining : Option ℤ) (s : VexThreadState)
    → ((opinion r ert remaining s ≡ none) × IsQuiet ert remaining s)
      ⊎ ((x : Activity) × ((opinion r ert remaining s ≡ some x) × (x ≢ none_alive)))
unfolding opinion
opinion-IsQuiet r ert remaining s =
    let now = s.timers.estimated_real_time in
    elim (decide-Silent (ltb_ℤ now ert) (is_definitely_active s) (is_native_waiting s)
      (exists_suspended_from r.threads r.thread_state_index ert)
      (is_recent remaining (ert -ℤ now))) [
        | inl (e, inl before) ↦ inl (e, inl (ltb_ℤ→le now ert before))
        | inl (e, inr idle) ↦ inl (e, inr idle)
        | inr x ↦ inr x
      ]

le→ltb_ℤ : (a b : ℤ) → b ≤ℤ a → ltb_ℤ a b ≡ false
le→ltb_ℤ a b h = ground arith

IsQuiet-opinion :
    (r : ThreadRegistry) (ert : ℤ) (remaining : Option ℤ) (s : VexThreadState)
    → IsQuiet ert remaining s
    → opinion r ert remaining s ≡ none
unfolding opinion
IsQuiet-opinion r ert remaining s h =
    let now = s.timers.estimated_real_time in
    Silent-decide (ltb_ℤ now ert) (is_definitely_active s) (is_native_waiting s)
      (exists_suspended_from r.threads r.thread_state_index ert) (is_recent remaining (ert -ℤ now))
      (elim h [ inl before ↦ inl (le→ltb_ℤ now ert before) | inr idle ↦ inr idle ])

first_opinion-IsQuiet :
    (r : ThreadRegistry) (ert : ℤ) (remaining : Option ℤ) (index : List (ℕ × ℕ))
    → (first_opinion r ert remaining index ≡ none_alive)
      ↔ ((p : ℕ) → IsIn p index → IsQuiet ert remaining (r.threads p))
unfolding first_opinion or_else
first_opinion-IsQuiet r ert remaining [] = (λ h p i. elim i [ ], λ h. refl)
first_opinion-IsQuiet r ert remaining ((k, q) ∷ index) =
    let s = r.threads q in
    let (there, back) = first_opinion-IsQuiet r ert remaining index in
    (
      λ h. elim (opinion-IsQuiet r ert remaining s) [
        | inl (e, quiet) ↦ λ p i. elim i [
          | inl same ↦ subst (λ z. IsQuiet ert remaining (r.threads z)) same quiet
          | inr later ↦
              there (ap (λ z. or_else z (first_opinion r ert remaining index)) (sym e) ∙ h) p later
        ]
        | inr (x, (e, other)) ↦
            absurd (other (ap (λ z. or_else z (first_opinion r ert remaining index)) (sym e) ∙ h))
      ],
      λ h.
          ap (λ z. or_else z (first_opinion r ert remaining index))
            (IsQuiet-opinion r ert remaining s (h q (inl refl)))
          ∙ back (λ p i. h p (inr i)),
    )

gate :
    (n : ℕ) (allowed : Bool) (a : Activity)
    → ((if ltb 0 n then at_least_one_alive else if not allowed then at_least_one_alive else a)
        ≡ none_alive)
      ↔ ((n ≡ 0) × ((allowed ≡ true) × (a ≡ none_alive)))
gate n allowed a = (λ h. ground arith, λ (e, (l, q)). ground arith)

-- No other thread is taken for active before a leap to a thread exactly if no thread is being
-- spawned, leaps are allowed, and every thread of the index either is not before that time, or
-- is neither definitely active nor in native waiting, and has not stopped so recently that
-- twice the remaining time, where one is given, reaches back to it.
pub none_alive_iff :
    (r : ThreadRegistry) (state : ℕ) (remaining : Option ℤ)
    → let ert = (r.threads state).timers.estimated_real_time in
      (are_any_other_threads_active_in_former_time r state remaining ≡ none_alive) ↔ (
        (r.threads_being_spawned ≡ 0)
        × ((r.forward_leaps_allowed ≡ true)
            × ((p : ℕ) → IsIn p r.thread_state_index → IsQuiet ert remaining (r.threads p))))
unfolding are_any_other_threads_active_in_former_time
none_alive_iff r state remaining =
    let ert = (r.threads state).timers.estimated_real_time in
    let (there, back) = first_opinion-IsQuiet r ert remaining r.thread_state_index in
    let (open', shut) =
      gate r.threads_being_spawned r.forward_leaps_allowed
        (first_opinion r ert remaining r.thread_state_index) in
    (λ h. let (n, (l, a)) = open' h in (n, (l, there a)), λ (n, (l, q)). shut (n, (l, back q)))
