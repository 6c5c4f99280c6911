-- ===== src/Threads/Code.antt =====
-- The thread state codes of Constants.h.
use vexjine.Common.{ℕ, ◌<◌, ◌==◌, Bool, arith}

pub data Code : Type 0 where
  unknown_state running waiting suspended learning_io in_io timed_waiting in_native in_model : Code
  registering suspended_self native_waiting in_io_stale native_io_waiting in_io_invalidation : Code
  recovered_after_failed_io awaking_from_waiting waiting_internal_socket_read vex_zombie : Code
  custom1 custom2 custom3 in_model_waiting after_model_sim_waiting_for_real_code : Code
  in_system_call : Code

-- The value of the enumerator, by which the statistics are indexed.
unfoldable pub ordinal : Code → ℕ
ordinal unknown_state = 0
ordinal running = 1
ordinal waiting = 2
ordinal suspended = 3
ordinal learning_io = 4
ordinal in_io = 5
ordinal timed_waiting = 6
ordinal in_native = 7
ordinal in_model = 8
ordinal registering = 9
ordinal suspended_self = 10
ordinal native_waiting = 11
ordinal in_io_stale = 12
ordinal native_io_waiting = 13
ordinal in_io_invalidation = 14
ordinal recovered_after_failed_io = 15
ordinal awaking_from_waiting = 16
ordinal waiting_internal_socket_read = 17
ordinal vex_zombie = 18
ordinal custom1 = 19
ordinal custom2 = 20
ordinal custom3 = 21
ordinal in_model_waiting = 22
ordinal after_model_sim_waiting_for_real_code = 23
ordinal in_system_call = 24

-- POSSIBLE_THREADSTATES of Statistics.h.
abbrev pub possible_threadstates : ℕ
possible_threadstates = 25

pub ordinal_lt : (c : Code) → ordinal c < possible_threadstates
unfolding ordinal
ordinal_lt c = ground arith

unfoldable pub eq_code : Code → Code → Bool
unfolding ordinal
eq_code a b = ordinal a == ordinal b
