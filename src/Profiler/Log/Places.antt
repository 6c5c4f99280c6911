-- ===== src/Profiler/Log/Places.antt =====
-- The places of the calls under way: no two calls share an info, and a new call gets a free one.
use vexjine.Common.{
  ℕ, ◌≡◌, refl, ◌<◌, ◌≤◌, ◌-◌, ◌==◌, Bool, false, Bool-cases, List, [], ◌∷◌, contains, arith, inl,
  inr,
}
use vexjine.Threads.Timers.{Timers}
use vexjine.Profiler.Measures.{CallTimes, MethodCallInfo}
use vexjine.Profiler.Log.{
  MethodLog, get_next_method_call_info, log_method_entry,
  push_method_entry_event_into_thread_method_stack, end_call, log_method_exit,
}

-- Each place on the stack was given out before those above it.
abbrev pub Falling : ℕ → List ℕ → Type 0
Falling n [] = Unit {0}
Falling n (i ∷ is) = (i < n) × Falling i is

pub Falling-le : (n m : ℕ) (is : List ℕ) → n ≤ m → Falling n is → Falling m is
Falling-le n m [] h f = tt
Falling-le n m (i ∷ is) h (low, f) = (omega arith, f)

pub Falling-free : (n m : ℕ) (is : List ℕ) → n ≤ m → Falling n is → contains m is ≡ false
unfolding contains
Falling-free n m [] h f = refl
Falling-free n m (i ∷ is) h (low, f) = ground (arith, Falling-free i m is (omega arith) f)

pub record Placed (l : MethodLog) : Type 0 where
  pub stacked : Falling l.next_method_info_to_use l.method_stack
  pub stored : l.next_method_info_to_use ≤ l.storage_size

pub entry_place :
    (l : MethodLog) (id : ℕ) (times : CallTimes)
    → Placed l
    → (get_next_method_call_info l id times).1 ≡ l.next_method_info_to_use
unfolding get_next_method_call_info
entry_place l id times p = ground (arith, p.stored)

pub log_method_entry-Placed :
    (l : MethodLog) (id : ℕ) (resets : Bool) (timers : Timers)
    → Placed l
    → Placed (log_method_entry l id resets timers)
unfolding log_method_entry get_next_method_call_info
    push_method_entry_event_into_thread_method_stack
log_method_entry-Placed l id resets timers p = record {
  stacked = (
    ground (arith, p.stored),
    Falling-le l.next_method_info_to_use _ l.method_stack (ground (arith, p.stored)) p.stacked,
  );
  stored = ground (arith, p.stored);
}

pub log_method_exit-Placed :
    (l : MethodLog) (exiting : MethodCallInfo) (is : List ℕ)
    → Falling l.next_method_info_to_use is
    → l.next_method_info_to_use ≤ l.storage_size
    → Placed (log_method_exit l exiting is)
unfolding log_method_exit end_call
log_method_exit-Placed l exiting [] f h = record { stacked = tt; stored = h }
log_method_exit-Placed l exiting (i ∷ is) (low, f) h =
    elim (Bool-cases ((l.method_info_storage i).method_id == exiting.method_id)) [
      | inl same ↦ rw same (record {
        stacked = Falling-le i (l.next_method_info_to_use - 1) is (omega arith) f;
        stored = omega arith;
      })
      | inr other ↦
          rw other (log_method_exit-Placed l exiting is (Falling-le i _ is (omega arith) f) h)
    ]
