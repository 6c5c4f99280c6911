-- ===== src/Threads/IoHandler.antt =====
-- IoHandler.h and IoHandler.cpp: what a thread remembers of its I/O operations.
-- `times_io_prediction_was_added` is an `unsigned long` of 64 bits, which wraps round, as do its
-- products with a prediction, which are converted to `long long`.
pub mod Prediction
use vexjine.Common.{
  ℕ, ◌+◌, ◌-◌, ◌*◌, ◌%◌, ◌==◌, Bool, true, false, not, ◌&&◌, ℤ, pos, negsuc, ◌+ℤ◌, ◌-ℤ◌, eqb_ℤ, ltb,
  if◌then◌else◌,
}

pub record IoHandler : Type 0 where
  pub times_io_prediction_was_added : ℕ
  pub stack_depth : ℕ
  pub io_invocation_point_hash_value : ℤ
  pub io_finished_before_logging : Bool
  pub last_io_prediction : ℤ
  pub stack_trace_hash : ℤ
  pub possibly_blocking_io : Bool
  pub ignoring_io : Bool
  pub recognizing_io_as_cached : Bool
  pub io_cpu_time : ℤ

-- The constructor leaves `possiblyBlockingIo` and `ioCpuTime` uninitialised: they are arguments.
unfoldable pub new_io_handler : Bool → ℤ → IoHandler
new_io_handler blocking cpu = record {
  times_io_prediction_was_added = 1;
  stack_depth = 0;
  io_invocation_point_hash_value = pos 0;
  io_finished_before_logging = false;
  last_io_prediction = pos 0;
  stack_trace_hash = pos 0;
  possibly_blocking_io = blocking;
  ignoring_io = false;
  recognizing_io_as_cached = false;
  io_cpu_time = cpu;
}

unfoldable pub invalid_io_invocation_point : IoHandler → ℤ → Bool
invalid_io_invocation_point h hash = h.stack_depth == 0 && not (eqb_ℤ hash (pos 1))

unfoldable pub add_prediction_to_estimated_real_time : IoHandler → IoHandler
add_prediction_to_estimated_real_time h = record h { times_io_prediction_was_added = 1 }

unfoldable pub ignore_next_io : IoHandler → IoHandler
ignore_next_io h = record h { ignoring_io = true }

unfoldable pub recognized_call_as_cached : IoHandler → IoHandler
recognized_call_as_cached h = record h { recognizing_io_as_cached = true }

unfoldable pub reset_io_state_flags : IoHandler → IoHandler
reset_io_state_flags h = record h { recognizing_io_as_cached = false; ignoring_io = false }

-- `stackDepth` is an `unsigned int`: a step below 0 wraps round.
abbrev pub u32_mod : ℕ
u32_mod = 4_294_967_296

unfoldable pub entering_method : IoHandler → ℤ → IoHandler
entering_method h method = record h {
  stack_depth = (h.stack_depth + 1) % u32_mod;
  stack_trace_hash = h.stack_trace_hash +ℤ method;
}

unfoldable pub exiting_method : IoHandler → ℤ → IoHandler
exiting_method h method = record h {
  stack_depth = (h.stack_depth + u32_mod - 1) % u32_mod;
  stack_trace_hash = h.stack_trace_hash -ℤ method;
}

unfoldable pub set_io_prediction_info : IoHandler → ℤ → IoHandler
set_io_prediction_info h prediction = record h { last_io_prediction = prediction }

unfoldable pub notify_about_possibly_blocking_io : IoHandler → Bool → IoHandler
notify_about_possibly_blocking_io h blocking = record h { possibly_blocking_io = blocking }

-- 2^64, and 2^63.
abbrev pub u64_mod : ℕ
u64_mod = 18_446_744_073_709_551_616

abbrev pub i64_limit : ℕ
i64_limit = 9_223_372_036_854_775_808

-- The conversions between `long long` and `unsigned long`.
unfoldable pub to_unsigned : ℤ → ℕ
to_unsigned (pos n) = n % u64_mod
to_unsigned (negsuc n) = u64_mod - 1 - n % u64_mod

unfoldable pub to_signed : ℕ → ℤ
to_signed u = if ltb u i64_limit then pos u else negsuc (u64_mod - 1 - u)

-- An `unsigned long` times a `long long`, as a `long long`.
unfoldable pub times_ℤ : ℕ → ℤ → ℤ
unfolding to_unsigned to_signed
times_ℤ n z = to_signed (n * to_unsigned z % u64_mod)

unfoldable pub extend_prediction_period : IoHandler → IoHandler × ℤ
unfolding times_ℤ
extend_prediction_period h =
    let h' = record h {
      times_io_prediction_was_added = h.times_io_prediction_was_added * 2 % u64_mod;
    } in
    (h', times_ℤ h'.times_io_prediction_was_added h.last_io_prediction)

unfoldable pub get_total_time_predicted : IoHandler → ℤ
unfolding times_ℤ
get_total_time_predicted h =
    times_ℤ ((2 * h.times_io_prediction_was_added + u64_mod - 1) % u64_mod) h.last_io_prediction
