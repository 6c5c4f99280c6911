-- ===== src/Common/Lists.antt =====
-- Lists measured by native numbers, and the vectors of the C++ code: `push_back`, `back`, `pop_back`.
use Prim.Native.Nat.{ℕ, zero, suc, ◌+◌, ◌<◌}
use mathlib.Core.Path.{◌≡◌, refl, ap}
use mathlib.Core.List.{List, [], ◌∷◌, ◌++◌}
use mathlib.Core.Option.{Option, none, some}
use mathlib.Core.Logic.{inl, inr}
use native.Mathlib.Omega.{arith}
use vexjine.Common.Tests.{Option-cases}

module _ {ℓ} {A : Type ℓ} where
  abbrev pub length : List A → ℕ
  length [] = 0
  length (x ∷ xs) = suc (length xs)

  abbrev pub get_elem? : List A → ℕ → Option A
  get_elem? [] i = none
  get_elem? (x ∷ xs) zero = some x
  get_elem? (x ∷ xs) (suc i) = get_elem? xs i

  -- A write out of bounds changes nothing.
  abbrev pub set : List A → ℕ → A → List A
  set [] i v = []
  set (x ∷ xs) zero v = v ∷ xs
  set (x ∷ xs) (suc i) v = x ∷ set xs i v

  pub length-set : (xs : List A) (i : ℕ) (v : A) → length (set xs i v) ≡ length xs
  length-set [] i v = refl
  length-set (x ∷ xs) zero v = refl
  length-set (x ∷ xs) (suc i) v = ap suc (length-set xs i v)

  pub get_elem?-set_self :
      (xs : List A) (i : ℕ) (v : A) → i < length xs → get_elem? (set xs i v) i ≡ some v
  get_elem?-set_self [] i v h = elim h [ ]
  get_elem?-set_self (x ∷ xs) zero v h = refl
  get_elem?-set_self (x ∷ xs) (suc i) v h = get_elem?-set_self xs i v (omega arith)

  pub length-append : (xs ys : List A) → length (xs ++ ys) ≡ length xs + length ys
  length-append [] ys = omega arith
  length-append (x ∷ xs) ys = omega (arith, length-append xs ys)

  -- `push_back`: the new element goes to the end.
  abbrev pub push_back : List A → A → List A
  push_back xs a = xs ++ a ∷ []

  -- The last element with the list before it; `none` on an empty vector.
  abbrev pub unsnoc : List A → Option (List A × A)
  unsnoc [] = none
  unsnoc (x ∷ xs) = elim (unsnoc xs) [ none ↦ some ([], x) | some (ys, y) ↦ some (x ∷ ys, y) ]

  pub unsnoc-eq-none : (xs : List A) → unsnoc xs ≡ none → xs ≡ []
  unsnoc-eq-none [] h = refl
  unsnoc-eq-none (x ∷ xs) h = absurd (ground arith)

  pub unsnoc-push_back : (xs : List A) (a : A) → unsnoc (push_back xs a) ≡ some (xs, a)
  unsnoc-push_back [] a = refl
  unsnoc-push_back (x ∷ xs) a = ground (arith, unsnoc-push_back xs a)

  pub unsnoc-eq-some :
      (xs : List A) {ys : List A} {y : A} → unsnoc xs ≡ some (ys, y) → xs ≡ push_back ys y
  unsnoc-eq-some [] h = absurd (cc)
  unsnoc-eq-some (x ∷ xs) h = elim (Option-cases (unsnoc xs)) [
    | inl e ↦ ground (arith, unsnoc-eq-none xs e)
    | inr (p, e) ↦ ground (arith, unsnoc-eq-some xs e)
  ]
