-- ===== src/Threads/State/Accounting.antt =====
-- What the predictions and the transitions of a thread add up to.
use vexjine.Common.{
  ℕ, zero, suc, ◌+◌, ◌-◌, ◌*◌, ◌^◌, ◌≤◌, ◌≡◌, refl, ap, sym, subst, ◌∙◌, ℤ, pos, ◌+ℤ◌, ◌-ℤ◌,
  int_laws, arith,
}
use vexjine.Threads.Timers.{leap_forward_by}
use vexjine.Threads.IoHandler.{
  i64_limit, extend_prediction_period, add_prediction_to_estimated_real_time as restart_prediction,
}
use vexjine.Threads.IoHandler.Prediction.{Fits, grow, total-exact, extend-exact}
use vexjine.Threads.State.{VexThreadState}
use vexjine.Threads.State.Waiting.{
  add_prediction_to_estimated_real_time, invalidate_io_prediction,
  update_estimated_real_time_after_io_prediction,
}

pub invalidate_times : ℕ → VexThreadState → VexThreadState
invalidate_times zero s = s
invalidate_times (suc n) s = invalidate_times n (invalidate_io_prediction s)

-- The thread stands at `base` and the whole prediction.
record Predicts (base : ℤ) (m p : ℕ) (s : VexThreadState) : Type 0 where
  fits : Fits s.io_handler m p
  moved : s.timers.estimated_real_time ≡ base +ℤ pos ((2 * m - 1) * p)

add_pos : (base : ℤ) (a b c : ℕ) → a + b ≡ c → base +ℤ pos a +ℤ pos b ≡ base +ℤ pos c
add_pos base a b c h = grind int_laws

one_more : (m p : ℕ) → 1 ≤ m → (2 * m - 1) * p + m * 2 * p ≡ (2 * (m * 2) - 1) * p
one_more m p h =
    let e : 2 * m - 1 + m * 2 ≡ 2 * (m * 2) - 1 = omega arith in
    omega (arith, ap (λ (k : ℕ). k * p) e)

one_times : (p : ℕ) → p ≡ 1 * p
one_times p = omega arith

cancel : (a b t : ℤ) → a +ℤ t +ℤ (b -ℤ t) ≡ a +ℤ b
cancel a b t = omega int_laws

pow_suc : (n : ℕ) → 2 ^ suc n ≡ 2 * 2 ^ n
pow_suc n = omega arith

pow_pos : (n : ℕ) → 1 ≤ 2 ^ n
pow_pos zero = omega arith
pow_pos (suc n) = omega (arith, pow_suc n, pow_pos n)

add_prediction-Predicts :
    (s : VexThreadState) (p : ℕ)
    → s.io_handler.last_io_prediction ≡ pos p
    → 2 * suc p ≤ i64_limit
    → Predicts s.timers.estimated_real_time 1 p (add_prediction_to_estimated_real_time s)
unfolding add_prediction_to_estimated_real_time restart_prediction
add_prediction-Predicts s p e b = record {
  fits = record { positive = omega arith; times = refl; last = e; bound = omega (arith, b) };
  moved = ap (λ z. s.timers.estimated_real_time +ℤ z) (e ∙ ap pos (one_times p));
}

invalidate-Predicts :
    (base : ℤ) (m p : ℕ) (s : VexThreadState)
    → 2 * (m * 2) * suc p ≤ i64_limit
    → Predicts base m p s
    → Predicts base (m * 2) p (invalidate_io_prediction s)
unfolding invalidate_io_prediction leap_forward_by
invalidate-Predicts base m p s b h =
    let (fits', added) = extend-exact s.io_handler m p h.fits b in
    record {
      fits = fits';
      moved =
          ap (λ z. z +ℤ (extend_prediction_period s.io_handler).1) h.moved
          ∙ ap (λ z. base +ℤ pos ((2 * m - 1) * p) +ℤ z) added
          ∙ add_pos base _ _ _ (one_more m p h.fits.positive);
    }

invalidate_times-Predicts :
    (n : ℕ) (base : ℤ) (m p : ℕ) (s : VexThreadState)
    → 2 * (m * 2 ^ n) * suc p ≤ i64_limit
    → Predicts base m p s
    → Predicts base (m * 2 ^ n) p (invalidate_times n s)
unfolding invalidate_times
invalidate_times-Predicts zero base m p s b h = subst (λ k. Predicts base k p s) (omega arith) h
invalidate_times-Predicts (suc n) base m p s b h =
    let e : m * 2 * 2 ^ n ≡ m * 2 ^ suc n = omega (arith, ap (λ (k : ℕ). m * k) (pow_suc n)) in
    let b' : 2 * (m * 2 * 2 ^ n) * suc p ≤ i64_limit =
      subst (λ k. 2 * k * suc p ≤ i64_limit) (sym e) b in
    subst (λ k. Predicts base k p (invalidate_times n (invalidate_io_prediction s))) e
      (invalidate_times-Predicts n base (m * 2) p (invalidate_io_prediction s) b'
        (invalidate-Predicts base m p s (grow (m * 2) (2 ^ n) p i64_limit (pow_pos n) b') h))

-- When the prediction of an I/O operation, `p`, is invalidated and extended `n` times, the
-- correction at its end leaves the thread at the time of its start plus the actual duration, as
-- long as 2 ^ (n + 1) * (p + 1) is at most 2 ^ 63. Beyond, the products of 64 bits wrap round.
pub io_prediction_corrected :
    (s : VexThreadState) (n p : ℕ) (actual : ℤ)
    → s.io_handler.last_io_prediction ≡ pos p
    → 2 * 2 ^ n * suc p ≤ i64_limit
    → let s' = invalidate_times n (add_prediction_to_estimated_real_time s) in
      (update_estimated_real_time_after_io_prediction s' actual).timers.estimated_real_time
      ≡ s.timers.estimated_real_time +ℤ actual
unfolding update_estimated_real_time_after_io_prediction leap_forward_by
io_prediction_corrected s n p actual e b =
    let base = s.timers.estimated_real_time in
    let s' = invalidate_times n (add_prediction_to_estimated_real_time s) in
    let b' : 2 * (1 * 2 ^ n) * suc p ≤ i64_limit = omega (arith, b) in
    let start = grow 1 (2 ^ n) p i64_limit (pow_pos n) b' in
    let h =
      invalidate_times-Predicts n base 1 p _ b'
        (add_prediction-Predicts s p e (omega (arith, start))) in
    let total = pos ((2 * (1 * 2 ^ n) - 1) * p) in
    ap (λ z. s'.timers.estimated_real_time +ℤ (actual -ℤ z))
      (total-exact s'.io_handler (1 * 2 ^ n) p h.fits)
    ∙ ap (λ z. z +ℤ (actual -ℤ total)) h.moved
    ∙ cancel base actual total
