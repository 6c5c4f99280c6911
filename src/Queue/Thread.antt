-- ===== src/Queue/Thread.antt =====
-- ThreadQueue.h and ThreadQueue.cpp: the queue of runnable threads that the managers share.
-- `threads` gives the state behind each pointer, `queue` the heap of pointers. The queue's mutex
-- makes each operation one step. NULL is `none`; a failed `assert` is `none` in place of a result.
pub mod Laws
pub mod Expiry
pub mod Equals
use vexjine.Common.{
  ℕ, zero, suc, ◌==◌, Bool, true, false, not, ◌&&◌, ◌||◌, Option, none, some, List, [], ◌∷◌, length,
  put, ℤ, pos, ◌+ℤ◌, ltb_ℤ, if◌then◌else◌,
}
use vexjine.Threads.Timers.{leap_to, float_one}
use vexjine.Threads.State.{
  VexThreadState, is_running, in_io_prediction_phase, is_simulating_model, is_suspended,
  is_native_waiting, is_waiting_real_code_to_complete_after_model_simulation,
}
use vexjine.Threads.State.Waiting.{is_io_prediction_still_valid, invalidate_io_prediction}
use vexjine.Queue.Heap.{HeapFunctions}
use vexjine.Queue.Priority
use vexjine.Queue.Priority.{top}

pub record ThreadQueue : Type 0 where
  pub threads : ℕ → VexThreadState
  pub queue : List ℕ

-- The timestamps by which the heap is ordered.
abbrev pub key : (ℕ → VexThreadState) → ℕ → ℤ
key threads t = (threads t).timers.estimated_real_time

unfoldable pub empty : ThreadQueue → Bool
empty q = elim (top q.queue) [ none ↦ true | some t ↦ false ]

unfoldable pub size : ThreadQueue → ℕ
size q = length q.queue

unfoldable pub find : ThreadQueue → ℕ → Bool
unfolding Priority.find
find q t = Priority.find q.queue t

-- What `getNext` does with the thread on top: answer NULL, leave it there, or pop it.
pub data Verdict : Type 0 where
  blocks keeps pops : Verdict

same_manager : Option ℕ → ℕ → Bool
same_manager none m = false
same_manager (some n) m = n == m

unfoldable pub verdict : VexThreadState → ℕ → Verdict
unfolding is_running in_io_prediction_phase is_waiting_real_code_to_complete_after_model_simulation
    same_manager
verdict s manager =
    if is_running s
    then blocks
    else if in_io_prediction_phase s
    then keeps
    else if is_waiting_real_code_to_complete_after_model_simulation s
    then if same_manager s.scheduling.thread_currently_controlling_manager manager
      then keeps
      else blocks
    else pops

unfoldable pub is_next_runnable_thread_before : ThreadQueue → ℤ → Bool
is_next_runnable_thread_before q timestamp = elim (top q.queue) [
  | none ↦ false
  | some t ↦ ltb_ℤ (key q.threads t) timestamp
]

raise : ℤ → Bool → ℤ → ℤ
raise ert parked best = if ltb_ℤ best ert && parked then ert else best

-- The loop of `getHighestRunnableTime`.
highest : (ℕ → VexThreadState) → List ℕ → ℤ → ℤ
unfolding raise is_suspended is_native_waiting
highest threads [] best = best
highest threads (t ∷ ts) best =
    let parked = is_suspended (threads t) || is_native_waiting (threads t) in
    highest threads ts (raise (key threads t) parked best)

unfoldable pub get_highest_runnable_time : ThreadQueue → ℕ → ℤ
unfolding highest
get_highest_runnable_time q asking = highest q.threads q.queue (key q.threads asking)

-- From the place behind the thread on, the first thread that simulates no model; where there is
-- none, the last one that was passed.
next_not_simulating : (ℕ → VexThreadState) → ℕ → List ℕ → ℕ
unfolding is_simulating_model is_waiting_real_code_to_complete_after_model_simulation
next_not_simulating threads passed [] = passed
next_not_simulating threads passed (t ∷ ts) =
    let rest = next_not_simulating threads t ts in
    if is_simulating_model (threads t)
      || is_waiting_real_code_to_complete_after_model_simulation (threads t)
    then rest
    else t

-- The thread whose timestamp `setThreadToNextBiggestErt` takes, if the given one is queued.
unfoldable pub next_biggest : (ℕ → VexThreadState) → ℕ → List ℕ → Option ℕ
unfolding next_not_simulating
next_biggest threads t [] = none
next_biggest threads t (u ∷ us) =
    if t == u then some (next_not_simulating threads u us) else next_biggest threads t us

module _ (H : HeapFunctions) where
  -- The two assertions hold for a thread whose time is not scaled: it is not queued yet, and it
  -- is queued afterwards.
  unfoldable pub push : ThreadQueue → ℕ → Option ThreadQueue
  unfolding Priority.push Priority.find
  push q t =
      let scaled = not ((q.threads t).timers.virtual_time_speedup == float_one) in
      let q' = record q { queue = Priority.push H (key q.threads) q.queue t } in
      if scaled || not (Priority.find q.queue t)
      then if scaled || Priority.find q'.queue t then some q' else none
      else none

  take : ThreadQueue → Option ℕ → ThreadQueue × Option ℕ
  unfolding Priority.pop
  take q none = (q, none)
  take q (some t) = (record q { queue = Priority.pop H (key q.threads) q.queue }, some t)

  -- `getNext()`.
  unfoldable pub get_next : ThreadQueue → ThreadQueue × Option ℕ
  unfolding take
  get_next q = take q (top q.queue)

  act : ThreadQueue → ℕ → Verdict → ThreadQueue × Option ℕ
  unfolding Priority.pop
  act q t blocks = (q, none)
  act q t keeps = (q, some t)
  act q t pops = (record q { queue = Priority.pop H (key q.threads) q.queue }, some t)

  act_for : ThreadQueue → ℕ → Option ℕ → ThreadQueue × Option ℕ
  unfolding act verdict
  act_for q manager none = (q, none)
  act_for q manager (some t) = act q t (verdict (q.threads t) manager)

  -- `getNext(requestingManager)`.
  unfoldable pub get_next_for : ThreadQueue → ℕ → ThreadQueue × Option ℕ
  unfolding act_for
  get_next_for q manager = act_for q manager (top q.queue)

  unfoldable pub get_next_if_equals_else_return_top : ThreadQueue → ℕ → ℕ → ThreadQueue × Option ℕ
  unfolding act verdict
  get_next_if_equals_else_return_top q locked manager = elim (top q.queue) [
    | none ↦ (q, none)
    | some t ↦ if t == locked then act q t (verdict (q.threads t) manager) else (q, some t)
  ]

  unfoldable pub update : ThreadQueue → ThreadQueue
  unfolding Priority.update
  update q = record q { queue = Priority.update H (key q.threads) q.queue }

  unfoldable pub erase : ThreadQueue → ℕ → ThreadQueue
  unfolding Priority.erase
  erase q t = record q { queue = Priority.erase H (key q.threads) q.queue t }

  unfoldable pub set_thread_to_next_biggest_ert : ThreadQueue → ℕ → ThreadQueue
  unfolding leap_to update next_biggest
  set_thread_to_next_biggest_ert q t = elim (next_biggest q.threads t q.queue) [
    | none ↦ q
    | some u ↦
        let s = q.threads t in
        let s' = record s { timers = (leap_to s.timers (key q.threads u +ℤ pos 1)).0 } in
        update (record q { threads = put q.threads t s' })
  ]

  invalidate : ThreadQueue → ℕ → ThreadQueue
  unfolding invalidate_io_prediction
  invalidate q t = record q { threads = put q.threads t (invalidate_io_prediction (q.threads t)) }

  expired : VexThreadState → ℤ → Bool
  unfolding in_io_prediction_phase is_io_prediction_still_valid
  expired s now = in_io_prediction_phase s && not (is_io_prediction_still_valid s now)

  -- `none` is the end of the fuel.
  unfoldable pub recursively_update_pending_io_requests :
      ℕ → ThreadQueue → ℕ → ℤ → Option ThreadQueue
  unfolding Priority.push Priority.pop invalidate expired
  recursively_update_pending_io_requests zero q t now = none
  recursively_update_pending_io_requests (suc n) q t now = elim (top q.queue) [
    | none ↦ some (invalidate q t)
    | some u ↦ elim (expired (q.threads u) now) [
      | false ↦ some (invalidate q t)
      | true ↦
          elim (recursively_update_pending_io_requests n
            (record q { queue = Priority.pop H (key q.threads) q.queue }) u now) [
              | none ↦ none
              | some q' ↦
                  some (
                    invalidate (record q' { queue = Priority.push H (key q'.threads) q'.queue u })
                      t)
            ]
    ]
  ]

  unfoldable pub invalidate_expired_io_predictions : ThreadQueue → ℤ → Option ThreadQueue
  unfolding Priority.push Priority.pop recursively_update_pending_io_requests
  invalidate_expired_io_predictions q now = elim (top q.queue) [
    | none ↦ some q
    | some t ↦
        elim (recursively_update_pending_io_requests (suc (length q.queue))
          (record q { queue = Priority.pop H (key q.threads) q.queue }) t now) [
            | none ↦ none
            | some q' ↦ some (record q' { queue = Priority.push H (key q'.threads) q'.queue t })
          ]
  ]
