-- ===== src/Profiler/Log.antt =====
-- MethodLog.h and .cpp, and the entry and exit of a profiled method in ThreadState.cpp. A call's
-- info is its place in the storage, which is kept for the next calls; the stack holds the places of
-- the calls under way. The measures are found by their method's id.
pub mod Places
use vexjine.Common.{
  ℕ, zero, suc, ◌-◌, ◌==◌, Bool, true, false, Option, none, some, List, [], ◌∷◌, ltb, put,
  if◌then◌else◌,
}
use vexjine.Threads.Timers.{Timers}
use vexjine.Profiler.Measures.{
  CallTimes, times_of, no_times, MethodCallInfo, set_info, update_callee_time,
  get_inclusive_difference_from, PerformanceMeasure, new_measure, log_times_on_method_exit,
}

pub record MethodLog : Type 0 where
  pub method_info_storage : ℕ → MethodCallInfo
  pub storage_size : ℕ
  pub next_method_info_to_use : ℕ
  pub method_stack : List ℕ
  pub current_method_info : Option ℕ
  pub measures : List PerformanceMeasure

unfoldable pub new_log : MethodLog
unfolding set_info
new_log = record {
  method_info_storage = λ i. set_info 0 no_times;
  storage_size = 0;
  next_method_info_to_use = 0;
  method_stack = [];
  current_method_info = none;
  measures = [];
}

-- The place of the info, and the log.
unfoldable pub get_next_method_call_info : MethodLog → ℕ → CallTimes → MethodLog × ℕ
unfolding set_info
get_next_method_call_info l id times =
    let n = l.next_method_info_to_use in
    let i = if ltb n l.storage_size then n else l.storage_size in
    (
      record l {
        method_info_storage = put l.method_info_storage i (set_info id times);
        storage_size = if ltb n l.storage_size then l.storage_size else suc l.storage_size;
        next_method_info_to_use = suc n;
      },
      i,
    )

unfoldable pub push_method_entry_event_into_thread_method_stack : MethodLog → ℕ → MethodLog
push_method_entry_event_into_thread_method_stack l i = record l {
  method_stack = i ∷ l.method_stack;
  current_method_info = some i;
}

unfoldable pub log_method_entry : MethodLog → ℕ → Bool → Timers → MethodLog
unfolding times_of get_next_method_call_info push_method_entry_event_into_thread_method_stack
log_method_entry l id resets timers =
    let (l', i) = get_next_method_call_info l id (times_of timers) in
    push_method_entry_event_into_thread_method_stack
      (record l' {
        method_info_storage =
            put l'.method_info_storage i
              (record (l'.method_info_storage i) { should_reset_vt_factor = resets });
      })
      i

-- The measure of a method, a new one at the first exit, changed by `f`.
unfoldable pub measured :
    ℕ
    → (PerformanceMeasure → PerformanceMeasure)
    → List PerformanceMeasure
    → List PerformanceMeasure
unfolding new_measure
measured id f [] = f (new_measure id) ∷ []
measured id f (m ∷ ms) =
    let further = m ∷ measured id f ms in if m.measured_id == id then f m ∷ ms else further

abbrev pub top : List ℕ → Option ℕ
top [] = none
top (i ∷ is) = some i

-- The caller's info is told the time of the call.
unfoldable pub tell_caller : (ℕ → MethodCallInfo) → List ℕ → CallTimes → ℕ → MethodCallInfo
unfolding update_callee_time
tell_caller storage [] diff = storage
tell_caller storage (c ∷ cs) diff = put storage c (update_callee_time (storage c) diff)

-- The exit of the call on top of the stack.
unfoldable pub end_call : MethodLog → MethodCallInfo → ℕ → List ℕ → MethodLog
unfolding get_inclusive_difference_from tell_caller measured log_times_on_method_exit
end_call l exiting i rest =
    let entry = l.method_info_storage i in
    let including = get_inclusive_difference_from exiting entry in
    record l {
      method_info_storage = tell_caller l.method_info_storage rest including;
      measures =
          measured exiting.method_id (λ m. log_times_on_method_exit exiting m entry) l.measures;
      method_stack = rest;
      current_method_info = top rest;
      next_method_info_to_use = l.next_method_info_to_use - 1;
    }

-- Calls of other methods on top have not ended properly, and are taken off the stack.
unfoldable pub log_method_exit : MethodLog → MethodCallInfo → List ℕ → MethodLog
unfolding end_call
log_method_exit l exiting [] = record l { method_stack = []; current_method_info = none }
log_method_exit l exiting (i ∷ rest) =
    let further = log_method_exit l exiting rest in
    if (l.method_info_storage i).method_id == exiting.method_id
    then end_call l exiting i rest
    else further

unfoldable pub on_vex_method_exit : MethodLog → ℕ → Timers → MethodLog
unfolding times_of set_info log_method_exit
on_vex_method_exit l id timers = log_method_exit l (set_info id (times_of timers)) l.method_stack
