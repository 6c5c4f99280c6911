-- ===== src/Threads/IoHandler/Prediction.antt =====
-- The prediction period of an I/O operation, and the total that has been predicted, while the
-- products stay below 2^63.
use vexjine.Common.{
  ℕ, zero, suc, ◌*◌, ◌+◌, ◌-◌, ◌%◌, ◌≤◌, ◌<◌, ◌≡◌, ap, sym, subst, ◌∙◌, pos, arith,
}
use vexjine.Threads.IoHandler.{
  IoHandler, extend_prediction_period, get_total_time_predicted, times_ℤ, to_signed, to_unsigned,
  u64_mod, i64_limit,
}

to_signed-small : (u : ℕ) → u < i64_limit → to_signed (u % u64_mod) ≡ pos u
unfolding to_signed
to_signed-small u h = ground arith

pub times_ℤ-exact : (n p : ℕ) → p < i64_limit → n * p < i64_limit → times_ℤ n (pos p) ≡ pos (n * p)
unfolding times_ℤ to_unsigned
times_ℤ-exact n p small h =
    let e : p % u64_mod ≡ p = omega arith in
    ap (λ k. to_signed (n * k % u64_mod)) e ∙ to_signed-small (n * p) h

-- No factor of 1 or more makes a bound hold that did not.
pub grow : (m k p l : ℕ) → 1 ≤ k → 2 * (m * k) * suc p ≤ l → 2 * m * suc p ≤ l
grow m zero p l h b = absurd (omega arith)
grow m (suc j) p l h b = omega arith

prediction-small : (m p : ℕ) → 1 ≤ m → 2 * m * suc p ≤ i64_limit → p < i64_limit
prediction-small zero p h b = absurd (omega arith)
prediction-small (suc j) p h b = omega arith

times-small : (m p : ℕ) → 1 ≤ m → 2 * m * suc p ≤ i64_limit → 2 * m ≤ i64_limit
times-small zero p h b = absurd (omega arith)
times-small (suc j) p h b = omega arith

product-small : (m p : ℕ) → 1 ≤ m → 2 * m * suc p ≤ i64_limit → m * p < i64_limit
product-small zero p h b = absurd (omega arith)
product-small (suc j) p h b = omega arith

odd : (j : ℕ) → 2 * suc j - 1 ≡ 2 * j + 1
odd j = omega arith

total-small : (m p : ℕ) → 1 ≤ m → 2 * m * suc p ≤ i64_limit → (2 * m - 1) * p < i64_limit
total-small zero p h b = absurd (omega arith)
total-small (suc j) p h b = subst (λ k. k * p < i64_limit) (sym (odd j)) (omega arith)

-- The handler has added the prediction `p` `m` times, with room for one more.
pub record Fits (h : IoHandler) (m p : ℕ) : Type 0 where
  pub positive : 1 ≤ m
  pub times : h.times_io_prediction_was_added ≡ m
  pub last : h.last_io_prediction ≡ pos p
  pub bound : 2 * m * suc p ≤ i64_limit

pub total-exact :
    (h : IoHandler) (m p : ℕ) → Fits h m p → get_total_time_predicted h ≡ pos ((2 * m - 1) * p)
unfolding get_total_time_predicted
total-exact h m p f =
    let small : (2 * h.times_io_prediction_was_added + u64_mod - 1) % u64_mod ≡ 2 * m - 1 =
      omega (arith, times-small m p f.positive f.bound, f.times, f.positive) in
    ap (λ k. times_ℤ k h.last_io_prediction) small
    ∙ ap (times_ℤ (2 * m - 1)) f.last
    ∙ times_ℤ-exact (2 * m - 1) p (prediction-small m p f.positive f.bound)
        (total-small m p f.positive f.bound)

-- An extension doubles the times, and answers what it adds.
pub extend-exact :
    (h : IoHandler) (m p : ℕ)
    → Fits h m p
    → 2 * (m * 2) * suc p ≤ i64_limit
    → Fits (extend_prediction_period h).0 (m * 2) p
      × ((extend_prediction_period h).1 ≡ pos (m * 2 * p))
unfolding extend_prediction_period
extend-exact h m p f b =
    let doubled : h.times_io_prediction_was_added * 2 % u64_mod ≡ m * 2 =
      omega (arith, times-small (m * 2) p (omega (arith, f.positive)) b, f.times) in
    let positive : 1 ≤ m * 2 = omega (arith, f.positive) in
    (
      record { positive = positive; times = doubled; last = f.last; bound = b },
      ap (λ k. times_ℤ k h.last_io_prediction) doubled
          ∙ ap (times_ℤ (m * 2)) f.last
          ∙ times_ℤ-exact (m * 2) p (prediction-small (m * 2) p positive b)
              (product-small (m * 2) p positive b),
    )
