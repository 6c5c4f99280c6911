-- ===== src/Common/Counts.antt =====
-- How often an id stands in a list: the contents of a container without their order.
use Prim.Native.Nat.{ℕ, suc, ◌+◌, ◌-◌, ◌≤◌}
use mathlib.Core.Path.{◌≡◌}
use mathlib.Core.Bool.{Bool, true, false}
use mathlib.Core.List.{List, [], ◌∷◌, ◌++◌}
use native.Mathlib.Omega.{arith}
use vexjine.Common.Tests.{◌==◌, ==_iff, if◌then◌else◌}
use vexjine.Common.Lists.{push_back}

unfoldable pub count : ℕ → List ℕ → ℕ
count u [] = 0
count u (t ∷ ts) = let rest = count u ts in if t == u then suc rest else rest

pub count-append : (u : ℕ) (xs ys : List ℕ) → count u (xs ++ ys) ≡ count u xs + count u ys
unfolding count
count-append u [] ys = omega arith
count-append u (v ∷ vs) ys = ground (arith, count-append u vs ys)

pub count-push_back :
    (u t : ℕ) (ts : List ℕ) → count u (push_back ts t) ≡ count u ts + (if t == u then 1 else 0)
unfolding count
count-push_back u t [] = ground arith
count-push_back u t (v ∷ vs) = ground (arith, count-push_back u t vs)

-- `std::vector::erase` at the first place where the value is found.
unfoldable pub erase_first : ℕ → List ℕ → List ℕ
erase_first t [] = []
erase_first t (u ∷ us) = if t == u then us else u ∷ erase_first t us

pub count-erase_first :
    (t u : ℕ) (ts : List ℕ)
    → count u (erase_first t ts) ≡ (if t == u then count u ts - 1 else count u ts)
unfolding count erase_first
count-erase_first t u [] = ground arith
count-erase_first t u (v ∷ vs) =
    ground (arith, ==_iff t u, ==_iff t v, ==_iff v u, count-erase_first t u vs)

-- Is the value in the list?
unfoldable pub contains : ℕ → List ℕ → Bool
contains t [] = false
contains t (u ∷ us) = if u == t then true else contains t us

pub contains-count : (t : ℕ) (us : List ℕ) → contains t us ≡ true → 1 ≤ count t us
unfolding contains count
contains-count t [] h = ground arith
contains-count t (u ∷ us) h = ground (arith, contains-count t us)

pub count-contains : (t : ℕ) (us : List ℕ) → contains t us ≡ false → count t us ≡ 0
unfolding contains count
count-contains t [] h = ground arith
count-contains t (u ∷ us) h = ground (arith, count-contains t us)
