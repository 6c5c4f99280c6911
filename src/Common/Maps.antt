-- ===== src/Common/Maps.antt =====
-- A `std::map` or `unordered_map` as a function from keys.
use Prim.Native.Nat.{ℕ}
use mathlib.Core.Path.{◌≡◌}
use mathlib.Core.Logic.{◌≢◌}
use mathlib.Core.Option.{Option, none}
use native.Mathlib.Omega.{arith}
use vexjine.Common.Tests.{◌==◌, if◌then◌else◌}

abbrev pub Map {ℓ} : Type ℓ → Type ℓ
Map V = ℕ → Option V

module _ {ℓ} {A : Type ℓ} where
  abbrev pub put : (ℕ → A) → ℕ → A → ℕ → A
  put m k v j = if k == j then v else m j

  pub put_self : (m : ℕ → A) (k : ℕ) (v : A) → put m k v k ≡ v
  put_self m k v = ground arith

  pub put_other : (m : ℕ → A) (k j : ℕ) (v : A) → k ≢ j → put m k v j ≡ m j
  put_other m k j v h = ground arith

abbrev pub empty_map {ℓ} : {V : Type ℓ} → Map V
empty_map k = none
