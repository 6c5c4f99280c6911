-- ===== src/Profiler/Accounts.antt =====
-- The accounts of a thread's method log, over any entries and exits.
use vexjine.Common.{
  ℕ, ◌≡◌, refl, sym, ◌∙◌, ap, Bool, false, List, ◌∷◌, contains, ℤ, pos, ◌+ℤ◌, ◌-ℤ◌, int_laws, put,
  put_self, arith,
}
use vexjine.Threads.Timers.{Timers}
use vexjine.Profiler.Measures.{CallTimes, times_of, MethodCallInfo, set_info}
use vexjine.Profiler.Log.{
  MethodLog, new_log, get_next_method_call_info, push_method_entry_event_into_thread_method_stack,
  log_method_entry, on_vex_method_exit,
}
use vexjine.Profiler.Log.Places.{
  Falling, Falling-free, Placed, entry_place, log_method_entry-Placed, log_method_exit-Placed,
}
use vexjine.Profiler.Total.{
  Metric, of_metric, of-none, exclusive_total, told, outermost, dropped, told-put,
  log_method_exit-Balanced,
}

zero_left : (a : ℤ) → pos 0 +ℤ a ≡ a
zero_left a = omega int_laws

cancel : (t u : ℤ) → t ≡ t +ℤ u -ℤ u
cancel t u = omega int_laws

settle : (e u d o u' x : ℤ) → e +ℤ u +ℤ d +ℤ (o +ℤ u' +ℤ x) -ℤ u ≡ e +ℤ o +ℤ u' +ℤ (d +ℤ x)
settle e u d o u' x = omega int_laws

-- The account of an exit from the account before it.
carried :
    (t t' e u d o u' x : ℤ)
    → t ≡ e +ℤ u +ℤ d
    → t' +ℤ u ≡ t +ℤ (o +ℤ u' +ℤ x)
    → t' ≡ e +ℤ o +ℤ u' +ℤ (d +ℤ x)
carried t t' e u d o u' x before step =
    cancel t' u
    ∙ ap (λ z. z -ℤ u) (step ∙ ap (λ z. z +ℤ (o +ℤ u' +ℤ x)) before)
    ∙ settle e u d o u' x

module _ (m : Metric) where
  -- The logs that entries and exits lead to, with the inclusive times of the calls that have ended
  -- and that nobody has called, and with what exits have dropped.
  pub data Logs : ℤ → ℤ → MethodLog → Type 0 where
    starts : Logs (pos 0) (pos 0) new_log
    enters :
        {ended lost : ℤ} {l : MethodLog} (id : ℕ) (resets : Bool) (timers : Timers)
        → Logs ended lost l
        → Logs ended lost (log_method_entry l id resets timers)
    leaves :
        {ended lost : ℤ} {l : MethodLog} (id : ℕ) (timers : Timers)
        → Logs ended lost l
        → Logs
            (ended +ℤ outermost m l (set_info id (times_of timers)) l.method_stack)
            (lost +ℤ dropped m l (set_info id (times_of timers)) l.method_stack)
            (on_vex_method_exit l id timers)

  told-new :
      (storage : ℕ → MethodCallInfo) (i id : ℕ) (resets : Bool) (t : CallTimes) (is : List ℕ)
      → contains i is ≡ false
      → let storage' = put storage i (set_info id t) in
        told m (put storage' i (record (storage' i) { should_reset_vt_factor = resets })) (i ∷ is)
        ≡ told m storage is
  unfolding told set_info
  told-new storage i id resets t is free =
      let storage' = put storage i (set_info id t) in
      let info = record (storage' i) { should_reset_vt_factor = resets } in
      ap (λ z. z +ℤ told m (put storage' i info) is)
        (ap (λ x. of_metric m x.callee_time) (put_self storage' i info)
          ∙ ap (λ x. of_metric m x.callee_time) (put_self storage i (set_info id t))
          ∙ of-none m)
      ∙ zero_left (told m (put storage' i info) is)
      ∙ told-put m storage' i info is free
      ∙ told-put m storage i (set_info id t) is free

  entry-told :
      (l : MethodLog) (id : ℕ) (resets : Bool) (timers : Timers)
      → Placed l
      → told m
          (log_method_entry l id resets timers).method_info_storage
          (log_method_entry l id resets timers).method_stack
        ≡ told m l.method_info_storage l.method_stack
  unfolding told log_method_entry get_next_method_call_info
      push_method_entry_event_into_thread_method_stack set_info
  entry-told l id resets timers p =
      told-new l.method_info_storage _ id resets (times_of timers) l.method_stack (
        Falling-free l.next_method_info_to_use _ l.method_stack (ground (arith, p.stored))
          p.stacked)

  entry-measures :
      (l : MethodLog) (id : ℕ) (resets : Bool) (timers : Timers)
      → (log_method_entry l id resets timers).measures ≡ l.measures
  unfolding log_method_entry get_next_method_call_info
      push_method_entry_event_into_thread_method_stack
  entry-measures l id resets timers = refl

  -- The account of a log.
  pub record Accounted (ended lost : ℤ) (l : MethodLog) : Type 0 where
    pub placed : Placed l
    pub account :
        exclusive_total m l.measures ≡ ended +ℤ told m l.method_info_storage l.method_stack +ℤ lost

  Logs-Accounted : (ended lost : ℤ) (l : MethodLog) → Logs ended lost l → Accounted ended lost l
  unfolding exclusive_total told new_log on_vex_method_exit
  Logs-Accounted ended lost l starts = record {
    placed = record { stacked = tt; stored = omega arith };
    account = omega int_laws;
  }
  Logs-Accounted ended lost l (enters {l = before} id resets timers logs) =
      let h = Logs-Accounted ended lost before logs in
      record {
        placed = log_method_entry-Placed before id resets timers h.placed;
        account =
            ap (exclusive_total m) (entry-measures before id resets timers)
            ∙ h.account
            ∙ ap (λ z. ended +ℤ z +ℤ lost) (sym (entry-told before id resets timers h.placed));
      }
  Logs-Accounted ended lost l (leaves {ended = e} {lost = d} {l = before} id timers logs) =
      let h = Logs-Accounted e d before logs in
      let exiting = set_info id (times_of timers) in
      let is = before.method_stack in
      record {
        placed = log_method_exit-Placed before exiting is h.placed.stacked h.placed.stored;
        account =
            carried (exclusive_total m before.measures) _ e _ d (outermost m before exiting is) _
              (dropped m before exiting is) h.account
              (log_method_exit-Balanced m before exiting before.next_method_info_to_use is
                h.placed.stacked);
      }

  -- The exclusive times; the calls under way at places of their own; and a free place for the next.
  abbrev pub AddsUp : ℤ → ℤ → MethodLog → Type 0
  AddsUp ended lost l =
      (exclusive_total m l.measures ≡ ended +ℤ told m l.method_info_storage l.method_stack +ℤ lost)
      × Falling l.next_method_info_to_use l.method_stack
      × ((id : ℕ) (times : CallTimes)
          → contains (get_next_method_call_info l id times).1 l.method_stack ≡ false)

  -- The profile of a thread adds up, for each of the four times. After any entries and exits, the
  -- exclusive times of all methods are the inclusive times of the outermost calls that have ended,
  -- and what the calls under way have been told by calls that have ended, and, counted twice, what
  -- the calls that an exit took off the stack without an end of their own had been told. No two
  -- calls under way share an info, and the next call gets a free one.
  pub Logs-AddsUp : (ended lost : ℤ) (l : MethodLog) → Logs ended lost l → AddsUp ended lost l
  Logs-AddsUp ended lost l logs =
      let h = Logs-Accounted ended lost l logs in
      let free =
        Falling-free l.next_method_info_to_use l.next_method_info_to_use l.method_stack
          (omega arith) h.placed.stacked in
      (
        h.account,
        h.placed.stacked,
        λ id times. ap (λ i. contains i l.method_stack) (entry_place l id times h.placed) ∙ free,
      )
