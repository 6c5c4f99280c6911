-- ===== src/Simulator/Lists/Refinement.antt =====
-- What the linked lists promise: they are sequences of objects, whatever is done to them.
use vexjine.Common.{
  ℕ, ◌≡◌, refl, sym, ◌∙◌, ap, Bool, true, false, not, ◌==◌, ==_refl, ==_iff, Bool-cases, Option,
  none, some, ◌>>=◌, List, [], ◌∷◌, ◌++◌, push_back, unsnoc, unsnoc-push_back, unsnoc-eq-none,
  unsnoc-eq-some, Option-cases, contains, erase_first, arith, if◌then◌else◌, inl, inr,
}
use vexjine.Simulator.Lists.{
  ObjectList, null, new_list, insert_at_front, insert_at_back, remove_from_front, remove_from_back,
  remove, insert_in_order, get_iterator, get_value, advance_while,
}
use vexjine.Simulator.Lists.Cells.{Cells, objects}
use vexjine.Simulator.Lists.Memory.{Represents}
use vexjine.Simulator.Lists.Walk.{
  between, passed, left, passed-left, advance_while-passed, get_value-cell,
}
use vexjine.Simulator.Lists.Ends.{
  insert_at_front-Represents, insert_at_back-Represents, remove_from_front-Represents,
  remove_from_back-Represents, remove_from_front-empty, remove_from_back-empty,
}
use vexjine.Simulator.Lists.Changes.{add-Represents, remove_value-Represents}

abbrev pub Implements : ObjectList → List ℕ → Type 0
Implements l xs = (cs : Cells) × (Represents l cs × (objects cs ≡ xs))

-- The operations of a list, with the order that an ordered one is given.
pub data ListOperation : Type 0 where
  at_front : ℕ → ListOperation
  at_back : ℕ → ListOperation
  off_front : ListOperation
  off_back : ListOperation
  without : ℕ → ListOperation
  in_order : ℕ → ListOperation

-- Before the first object that does not come before it.
abbrev pub insert_ordered : (ℕ → ℕ → Bool) → ℕ → List ℕ → List ℕ
insert_ordered before o [] = o ∷ []
insert_ordered before o (x ∷ xs) =
    let further = x ∷ insert_ordered before o xs in if before x o then further else o ∷ (x ∷ xs)

module _ (before : ℕ → ℕ → Bool) where
  -- The list after an operation, with the object that it returns.
  abbrev pub operate : ListOperation → ObjectList → Option (ObjectList × Option ℕ)
  operate (at_front o) l = some (insert_at_front l o, none)
  operate (at_back o) l = do l' ← insert_at_back l o; some (l', none)
  operate off_front l = do (l', o) ← remove_from_front l; some (l', some o)
  operate off_back l = do (l', o) ← remove_from_back l; some (l', some o)
  operate (without o) l = do l' ← remove l o; some (l', none)
  operate (in_order o) l = do l' ← insert_in_order before l o; some (l', none)

  abbrev pub specified : ListOperation → List ℕ → Option (List ℕ × Option ℕ)
  specified (at_front o) xs = some (o ∷ xs, none)
  specified (at_back o) xs = some (push_back xs o, none)
  specified off_front [] = none
  specified off_front (x ∷ xs) = some (xs, some x)
  specified off_back xs = do (ys, o) ← unsnoc xs; some (ys, some o)
  specified (without o) xs = if contains o xs then some (erase_first o xs, none) else none
  specified (in_order o) xs = some (insert_ordered before o xs, none)

-- The code fails where the sequences do, and else stands for their result and returns the same.
abbrev pub Refines : Option (ObjectList × Option ℕ) → Option (List ℕ × Option ℕ) → Type 0
Refines none none = Unit {0}
Refines (some (l, o)) (some (xs, o')) = Implements l xs × (o ≡ o')
Refines none (some r) = ⊥
Refines (some r) none = ⊥

pub objects-append : (cs ds : Cells) → objects (cs ++ ds) ≡ objects cs ++ objects ds
objects-append [] ds = refl
objects-append (c ∷ cs) ds = ap (◌∷◌ c.1) (objects-append cs ds)

abbrev pub returned : {A : Type 0} → Option (A × List (Option ℕ)) → Option (List (Option ℕ))
returned r = do (a, os) ← r; some os

abbrev comes_before : (ℕ → ℕ → Bool) → ℕ → ℕ → Bool
comes_before before o v = before v o

abbrev differs : ℕ → ℕ → Bool
differs o v = not (v == o)

flip : (a b : ℕ) → (a == b) ≡ false → (b == a) ≡ false
flip a b h = ground arith

-- Where the loop of `remove` ends: past all cells, or at the first with the object.
data Found (o : ℕ) (cs : Cells) : Type 0 where
  missing : left (differs o) cs ≡ [] → contains o (objects cs) ≡ false → Found o cs
  here :
      (a : ℕ) (ys : Cells)
      → left (differs o) cs ≡ (a, o) ∷ ys
      → contains o (objects cs) ≡ true
      → erase_first o (objects cs) ≡ objects (passed (differs o) cs ++ ys)
      → Found o cs

find : (o : ℕ) (cs : Cells) → Found o cs
unfolding contains erase_first
find o [] = missing refl refl
find o ((a, x) ∷ cs) = elim (Bool-cases (x == o)) [
  | inl same ↦
      let e = (==_iff x o).0 same in
      here a cs (rw (e, ==_refl o) refl) (rw (same) refl) (rw (e, ==_refl o) refl)
  | inr other ↦ elim (find o cs) [
    | missing none_left out ↦ missing (rw other none_left) (rw other out)
    | here b ys at_it inside erased ↦
        here b ys (rw other at_it) (rw other inside)
          (rw (other, flip x o other) (ap (◌∷◌ x) erased))
  ]
]

pub objects-insert :
    (before : ℕ → ℕ → Bool) (o n : ℕ) (cs : Cells)
    → objects (passed (λ v. before v o) cs ++ ((n, o) ∷ left (λ v. before v o) cs))
      ≡ insert_ordered before o (objects cs)
objects-insert before o n [] = refl
objects-insert before o n ((a, x) ∷ cs) = ground (arith, objects-insert before o n cs)

-- The iterator of a list, moved on as far as the test holds.
walked :
    (passes : ℕ → Bool) (l : ObjectList) (cs : Cells)
    → Represents l cs
    → advance_while passes l.fresh (get_iterator l)
      ≡ some (between l (passed passes cs) (left passes cs))
unfolding get_iterator
walked passes l cs r =
    ap (λ q. advance_while passes l.fresh (record { list = l; p = null; q = q })) r.starts
    ∙ advance_while-passed passes l.fresh l [] cs r r.counted

module _ (l : ObjectList) (cs : Cells) (o : ℕ) (r : Represents l cs) where
  pub insert_in_order-Represents :
      (before : ℕ → ℕ → Bool)
      → (l' : ObjectList) × ((insert_in_order before l o ≡ some l')
          × Represents l'
              (passed (λ v. before v o) cs ++ ((l.fresh, o) ∷ left (λ v. before v o) cs)))
  unfolding insert_in_order
  insert_in_order-Represents before =
      let passes = comes_before before o in
      let split : Represents l (passed passes cs ++ left passes cs) =
        rw (passed-left passes cs) r in
      let (it, (added, r')) = add-Represents l (passed passes cs) (left passes cs) o split in
      (it.list, (rw (walked passes l cs r, added) refl, r'))

  remove-missing : left (differs o) cs ≡ [] → remove l o ≡ none
  unfolding remove get_value
  remove-missing none_left = rw (walked (differs o) l cs r, none_left) refl

  remove-here :
      (a : ℕ) (ys : Cells)
      → left (differs o) cs ≡ (a, o) ∷ ys
      → (l' : ObjectList) × ((remove l o ≡ some l') × Represents l' (passed (differs o) cs ++ ys))
  unfolding remove
  remove-here a ys at_it =
      let before = passed (differs o) cs in
      let split : Represents l (before ++ ((a, o) ∷ ys)) =
        rw⁻¹ at_it (rw (passed-left (differs o) cs) r) in
      let (it, (removed, r')) = remove_value-Represents l before ys a o split in
      (
        it.list,
        (
          rw
              (
                walked (differs o) l cs r,
                at_it,
                get_value-cell l before a o ys split,
                removed,
                ==_refl o,
              )
              refl,
          r',
        ),
      )

module _ (before : ℕ → ℕ → Bool) where
  operate-last :
      (l : ObjectList) (cs : Cells) (c o : ℕ)
      → Represents l (push_back cs (c, o))
      → Refines
          (operate before off_back l)
          (specified before off_back (objects (push_back cs (c, o))))
  operate-last l cs c o r =
      let (l', (removed, r')) = remove_from_back-Represents l cs c o r in
      rw (objects-append cs ((c, o) ∷ []), unsnoc-push_back (objects cs) o, removed)
        ((cs, (r', refl)), refl)

  operate-off_back :
      (l : ObjectList) (cs : Cells)
      → Represents l cs
      → Refines (operate before off_back l) (specified before off_back (objects cs))
  operate-off_back l cs r = elim (Option-cases (unsnoc cs)) [
    | inl nothing ↦
        let r' : Represents l [] = rw⁻¹ (unsnoc-eq-none cs nothing) r in
        rw (unsnoc-eq-none cs nothing, remove_from_back-empty l r') tt
    | inr ((ds, (c, o)), e) ↦
        rw (unsnoc-eq-some cs e) (operate-last l ds c o (rw⁻¹ (unsnoc-eq-some cs e) r))
  ]

  operate-without :
      (l : ObjectList) (cs : Cells) (o : ℕ)
      → Represents l cs
      → Found o cs
      → Refines (operate before (without o) l) (specified before (without o) (objects cs))
  operate-without l cs o r (missing none_left out) = rw (out, remove-missing l cs o r none_left) tt
  operate-without l cs o r (here a ys at_it inside erased) =
      let (l', (removed, r')) = remove-here l cs o r a ys at_it in
      rw (inside, removed) ((passed (differs o) cs ++ ys, (r', sym erased)), refl)

  operate-Refines :
      (op : ListOperation) (l : ObjectList) (cs : Cells)
      → Represents l cs
      → Refines (operate before op l) (specified before op (objects cs))
  operate-Refines (at_front o) l cs r =
      (((l.fresh, o) ∷ cs, (insert_at_front-Represents l cs o r, refl)), refl)
  operate-Refines (at_back o) l cs r =
      let (l', (inserted, r')) = insert_at_back-Represents l cs o r in
      rw inserted ((cs ++ ((l.fresh, o) ∷ []), (r', objects-append cs ((l.fresh, o) ∷ []))), refl)
  operate-Refines off_front l [] r = rw (remove_from_front-empty l r) tt
  operate-Refines off_front l ((a, x) ∷ cs) r =
      let (l', (removed, r')) = remove_from_front-Represents l a x cs r in
      rw removed ((cs, (r', refl)), refl)
  operate-Refines off_back l cs r = operate-off_back l cs r
  operate-Refines (without o) l cs r = operate-without l cs o r (find o cs)
  operate-Refines (in_order o) l cs r =
      let (l', (inserted, r')) = insert_in_order-Represents l cs o r before in
      rw inserted ((_, (r', objects-insert before o l.fresh cs)), refl)

  -- A sequence of operations, with all that they return.
  abbrev pub operate_all : List ListOperation → ObjectList → Option (ObjectList × List (Option ℕ))
  operate_all [] l = some (l, [])
  operate_all (op ∷ ops) l = do
    (l', o) ← operate before op l
    (l'', os) ← operate_all ops l'
    some (l'', o ∷ os)

  abbrev pub specified_all : List ListOperation → List ℕ → Option (List ℕ × List (Option ℕ))
  specified_all [] xs = some (xs, [])
  specified_all (op ∷ ops) xs = do
    (xs', o) ← specified before op xs
    (xs'', os) ← specified_all ops xs'
    some (xs'', o ∷ os)

  -- The later results follow the first one.
  returned-then :
      {A : Type 0} (r : Option (A × List (Option ℕ))) (o : Option ℕ)
      → returned (do (a, os) ← r; some (a, o ∷ os)) ≡ (do os ← returned r; some (o ∷ os))
  returned-then none o = refl
  returned-then (some (a, os)) o = refl

  returned-Refines :
      (ops : List ListOperation)
      (later : (l : ObjectList) (cs : Cells)
        → Represents l cs
        → returned (operate_all ops l) ≡ returned (specified_all ops (objects cs)))
      (code : Option (ObjectList × Option ℕ)) (spec : Option (List ℕ × Option ℕ))
      → Refines code spec
      → returned (do (l, o) ← code; (l', os) ← operate_all ops l; some (l', o ∷ os))
        ≡ returned (do (xs, o) ← spec; (xs', os) ← specified_all ops xs; some (xs', o ∷ os))
  returned-Refines ops later none none fits = refl
  returned-Refines ops later none (some result) fits = absurd fits
  returned-Refines ops later (some result) none fits = absurd fits
  returned-Refines ops later (some (l, o)) (some (xs, o')) ((cs, (r, same)), e) =
      returned-then (operate_all ops l) o
      ∙ rw (later l cs r, same, e) (sym (returned-then (specified_all ops xs) o'))

  operate_all-returned :
      (ops : List ListOperation) (l : ObjectList) (cs : Cells)
      → Represents l cs
      → returned (operate_all ops l) ≡ returned (specified_all ops (objects cs))
  operate_all-returned [] l cs r = refl
  operate_all-returned (op ∷ ops) l cs r =
      returned-Refines ops (operate_all-returned ops) (operate before op l)
        (specified before op (objects cs)) (operate-Refines op l cs r)

  -- Linked lists are sequences: from an empty list, any operations on its ends, its iterators and
  -- its order return the objects that the same operations on a sequence return, and one of them
  -- fails where the sequence has no such object; all loops end.
  pub new_list-refined :
      (ops : List ListOperation)
      → returned (operate_all ops new_list) ≡ returned (specified_all ops [])
  unfolding new_list
  new_list-refined ops =
      operate_all-returned ops new_list []
        (record { starts = refl; ends = refl; chained = tt; placed = tt; counted = omega arith })
