-- ===== src/Simulator/Lists/Changes.antt =====
-- What an iterator puts into a list, and takes out of it.
use vexjine.Common.{ℕ, ◌≡◌, refl, sym, ◌∙◌, ap, false, ◌==◌, some, [], ◌∷◌, ◌++◌, put, arith}
use mathlib.Core.List.{append_assoc, append-nil}
use vexjine.Simulator.Lists.{
  ObjectList, ListIterator, null, allocate, add, remove_value, set_first_and_last_equal_to,
}
use vexjine.Simulator.Lists.Cells.{
  Cells, node, first_of, last_of, last_object, Chain-split, Placed-last, last-node,
}
use vexjine.Simulator.Lists.Memory.{
  Represents, found, Represents-insert, Represents-front, Represents-tail, Represents-unlink,
}
use vexjine.Simulator.Lists.Walk.{between, not_null, load-cell}

last_of-insert :
    (d : ℕ) (xs ys : Cells) (n o b o' : ℕ)
    → last_of d (xs ++ ((n, o) ∷ ((b, o') ∷ ys))) ≡ last_of d (xs ++ ((b, o') ∷ ys))
last_of-insert d [] ys n o b o' = refl
last_of-insert d ((c, o'') ∷ xs) ys n o b o' = last_of-insert c xs ys n o b o'

pub last_of-cons : (d e : ℕ) (xs : Cells) (c : ℕ × ℕ) → last_of d (xs ++ (c ∷ [])) ≡ c.0
last_of-cons d e [] c = refl
last_of-cons d e (x ∷ xs) c = last_of-cons x.0 e xs c

last_of-remove :
    (d : ℕ) (xs ys : Cells) (c b : ℕ × ℕ)
    → last_of d (xs ++ (c ∷ (b ∷ ys))) ≡ last_of d (xs ++ (b ∷ ys))
last_of-remove d [] ys c b = refl
last_of-remove d (x ∷ xs) ys c b = last_of-remove x.0 xs ys c b

-- The list in which the node before the place leads to the new one.
abbrev linked : ObjectList → ℕ → ℕ → Cells → Cells → ℕ → ObjectList
linked l a x xs ys o =
    let l' = allocate l o (first_of ys null) in
    record l' { nodes = put l'.nodes (last_of a xs) (some (node (last_object x xs) l.fresh)) }

module _ (l : ObjectList) (a x : ℕ) (xs ys : Cells) where
  pub last-not_null : Represents l (((a, x) ∷ xs) ++ ys) → (last_of a xs == null) ≡ false
  last-not_null r = let p = Placed-last l.fresh a x xs ys r.placed in ground (arith, p.0)

-- The iterator's `add` puts the object where the iterator stands.
pub add-Represents :
    (l : ObjectList) (xs ys : Cells) (o : ℕ)
    → Represents l (xs ++ ys)
    → (it : ListIterator) × ((add (between l xs ys) o ≡ some it)
        × Represents it.list (xs ++ ((l.fresh, o) ∷ ys)))
unfolding add set_first_and_last_equal_to
add-Represents l [] [] o r = (_, (refl, Represents-front l [] o l.fresh r refl))
add-Represents l [] ((b, o') ∷ ys) o r =
    let eq : (b == null) ≡ false = not_null l [] b o' ys r in
    let l' = record (allocate l o b) { first_node = l.fresh } in
    (
      record { list = l'; p = l.fresh; q = b },
      (rw eq refl, Represents-front l ((b, o') ∷ ys) o l.last_node r r.ends),
    )
add-Represents l ((a, x) ∷ xs) [] o r =
    let it : ListIterator = record {
      list = record (linked l a x xs [] o) { last_node = l.fresh };
      p = l.fresh;
      q = null;
    } in
    (
      it,
      (
        rw (last-not_null l a x xs [] r, found l a x xs [] o r) refl,
        Represents-insert l a x xs [] o r l.fresh (sym (last_of-cons a null xs (l.fresh, o))),
      ),
    )
add-Represents l ((a, x) ∷ xs) ((b, o') ∷ ys) o r =
    let it : ListIterator = record {
      list = linked l a x xs ((b, o') ∷ ys) o;
      p = l.fresh;
      q = b;
    } in
    (
      it,
      (
        rw
            (
              last-not_null l a x xs ((b, o') ∷ ys) r,
              not_null l ((a, x) ∷ xs) b o' ys r,
              found l a x xs ((b, o') ∷ ys) o r,
            )
            refl,
        Represents-insert l a x xs ((b, o') ∷ ys) o r l.last_node
            (r.ends ∙ sym (last_of-insert a xs ys l.fresh o b o')),
      ),
    )

-- The list in which the node before leads past one.
abbrev unlinked : ObjectList → ℕ → ℕ → Cells → Cells → ObjectList
unlinked l a x xs ys = record l {
  nodes = put l.nodes (last_of a xs) (some (node (last_object x xs) (first_of ys null)));
}

pub node-before :
    (l : ObjectList) (a x : ℕ) (xs ys : Cells) (c o : ℕ)
    → Represents l (((a, x) ∷ xs) ++ ((c, o) ∷ ys))
    → l.nodes (last_of a xs) ≡ some (node (last_object x xs) c)
node-before l a x xs ys c o r =
    last-node l.nodes a x xs _ (Chain-split l.nodes ((a, x) ∷ xs) ((c, o) ∷ ys) null r.chained).0

c-not_null :
    (l : ObjectList) (xs : Cells) (a o c o' : ℕ) (ys : Cells)
    → Represents l (xs ++ ((a, o) ∷ ((c, o') ∷ ys)))
    → (c == null) ≡ false
c-not_null l xs a o c o' ys r =
    not_null l (xs ++ ((a, o) ∷ [])) c o' ys (rw (append_assoc xs ((a, o) ∷ []) ((c, o') ∷ ys)) r)

-- Its `remove` takes out the object at which the iterator stands.
pub remove_value-Represents :
    (l : ObjectList) (xs ys : Cells) (a o : ℕ)
    → Represents l (xs ++ ((a, o) ∷ ys))
    → (it : ListIterator) × ((remove_value (between l xs ((a, o) ∷ ys)) ≡ some it)
        × Represents it.list (xs ++ ys))
unfolding remove_value
remove_value-Represents l [] [] a o r =
    let it : ListIterator = record {
      list = record l { first_node = null; last_node = null };
      p = null;
      q = null;
    } in
    (it, (rw (load-cell l [] a o [] r) refl, Represents-tail l a o null [] r refl))
remove_value-Represents l [] ((b, o') ∷ ys) a o r =
    let it : ListIterator = record { list = record l { first_node = b }; p = null; q = b } in
    (
      it,
      (
        rw (load-cell l [] a o ((b, o') ∷ ys) r, not_null l ((a, o) ∷ []) b o' ys r) refl,
        Represents-tail l a o l.last_node ((b, o') ∷ ys) r r.ends,
      ),
    )
remove_value-Represents l ((b, x) ∷ xs) [] a o r =
    let it : ListIterator = record {
      list = record (unlinked l b x xs []) { last_node = last_of b xs };
      p = last_of b xs;
      q = null;
    } in
    (
      it,
      (
        rw
            (
              load-cell l ((b, x) ∷ xs) a o [] r,
              last-not_null l b x xs ((a, o) ∷ []) r,
              node-before l b x xs [] a o r,
            )
            refl,
        Represents-unlink l b x xs [] (a, o) (last_of b xs) r
            (sym (ap (last_of b) (append-nil xs))),
      ),
    )
remove_value-Represents l ((b, x) ∷ xs) ((c, o') ∷ ys) a o r =
    let rest = ((c, o') ∷ ys) in
    let it : ListIterator = record { list = unlinked l b x xs rest; p = last_of b xs; q = c } in
    (
      it,
      (
        rw
            (
              load-cell l ((b, x) ∷ xs) a o rest r,
              last-not_null l b x xs ((a, o) ∷ rest) r,
              node-before l b x xs rest a o r,
              c-not_null l ((b, x) ∷ xs) a o c o' ys r,
            )
            refl,
        Represents-unlink l b x xs rest (a, o) l.last_node r
            (r.ends ∙ last_of-remove b xs ys (a, o) (c, o')),
      ),
    )
