-- ===== src/Simulator/Lists/Walk.antt =====
-- Where an iterator stands: between two parts of its list.
use vexjine.Common.{
  ℕ, zero, suc, ◌≡◌, refl, ◌<◌, Bool, true, false, ◌==◌, Bool-cases, some, [], ◌∷◌, ◌++◌, length,
  arith, if◌then◌else◌, inl, inr,
}
use mathlib.Core.List.{append_assoc, append-nil}
use vexjine.Simulator.Lists.{
  ObjectList, ListIterator, null, load, can_advance, get_value, advance, advance_while,
}
use vexjine.Simulator.Lists.Cells.{Cells, node, first_of, last_of, Chain-split, Placed-append}
use vexjine.Simulator.Lists.Memory.{Represents}

abbrev pub between : ObjectList → Cells → Cells → ListIterator
between l xs ys = record { list = l; p = last_of null xs; q = first_of ys null }

-- The cells that the loop passes, and those that it leaves.
abbrev pub passed : (ℕ → Bool) → Cells → Cells
passed passes [] = []
passed passes ((a, o) ∷ cs) =
    let further = passed passes cs in if passes o then (a, o) ∷ further else []

abbrev pub left : (ℕ → Bool) → Cells → Cells
left passes [] = []
left passes ((a, o) ∷ cs) =
    let further = left passes cs in if passes o then further else (a, o) ∷ cs

pub passed-left : (passes : ℕ → Bool) (cs : Cells) → passed passes cs ++ left passes cs ≡ cs
passed-left passes [] = refl
passed-left passes ((a, o) ∷ cs) = ground (arith, passed-left passes cs)

pub last_of-append : (d : ℕ) (xs : Cells) (a o : ℕ) → last_of d (xs ++ ((a, o) ∷ [])) ≡ a
last_of-append d [] a o = refl
last_of-append d ((b, o') ∷ xs) a o = last_of-append b xs a o

module _ (l : ObjectList) (xs : Cells) (a o : ℕ) (ys : Cells)
    (r : Represents l (xs ++ ((a, o) ∷ ys))) where
  pub not_null : (a == null) ≡ false
  not_null = let p = (Placed-append l.fresh xs ((a, o) ∷ ys) r.placed).1 in ground (arith, p.0)

  pub load-cell : load l a ≡ some (node o (first_of ys null))
  load-cell = rw not_null (Chain-split l.nodes xs ((a, o) ∷ ys) null r.chained).1.0

  pub get_value-cell : get_value (between l xs ((a, o) ∷ ys)) ≡ some o
  unfolding get_value
  get_value-cell = rw load-cell refl

  pub can_advance-cell : can_advance (between l xs ((a, o) ∷ ys)) ≡ true
  unfolding can_advance
  can_advance-cell = rw not_null refl

  pub advance-cell :
      advance (between l xs ((a, o) ∷ ys)) ≡ some (between l (xs ++ ((a, o) ∷ [])) ys)
  unfolding advance
  advance-cell = rw (load-cell, last_of-append null xs a o) refl

advance_while-end :
    (passes : ℕ → Bool) (fuel : ℕ) (l : ObjectList) (xs : Cells)
    → advance_while passes (suc fuel) (between l xs []) ≡ some (between l xs [])
unfolding advance_while can_advance
advance_while-end passes fuel l xs = refl

pub advance_while-passed :
    (passes : ℕ → Bool) (fuel : ℕ) (l : ObjectList) (xs ys : Cells)
    → Represents l (xs ++ ys)
    → length ys < fuel
    → advance_while passes fuel (between l xs ys)
      ≡ some (between l (xs ++ passed passes ys) (left passes ys))
unfolding advance_while
advance_while-passed passes zero l xs ys r h = absurd (omega arith)
advance_while-passed passes (suc fuel) l xs [] r h =
    rw (append-nil xs) (advance_while-end passes fuel l xs)
advance_while-passed passes (suc fuel) l xs ((a, o) ∷ ys) r h =
    let xs' = xs ++ ((a, o) ∷ []) in
    let r' : Represents l (xs' ++ ys) = rw (append_assoc xs ((a, o) ∷ []) ys) r in
    let further = advance_while-passed passes fuel l xs' ys r' (omega arith) in
    rw
      (
        can_advance-cell l xs a o ys r,
        get_value-cell l xs a o ys r,
        advance-cell l xs a o ys r,
        further,
      )
      (elim (Bool-cases (passes o)) [
        | inl goes ↦ rw (goes, append_assoc xs ((a, o) ∷ []) (passed passes ys)) refl
        | inr stays ↦ rw (stays, append-nil xs) refl
      ])
