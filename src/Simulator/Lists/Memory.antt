-- ===== src/Simulator/Lists/Memory.antt =====
-- What a list's memory holds, and how a node is put in or taken out.
use vexjine.Common.{
  ℕ, suc, ◌≡◌, refl, ◌∙◌, ◌<◌, false, Option, some, [], ◌∷◌, ◌++◌, length, put, put_other, put_self,
  arith,
}
use vexjine.Simulator.Lists.{ListNode, ObjectList, null}
use vexjine.Simulator.Lists.Cells.{
  Cells, node, first_of, last_of, last_object, has, Chain, Placed, Chain-append, Chain-split,
  Chain-put, Placed-append, Placed-Bounds, Placed-insert, Placed-remove, Placed-last, last-node,
  Chain-relink,
}

-- The list's memory holds the cells.
pub record Represents (l : ObjectList) (cs : Cells) : Type 0 where
  pub starts : l.first_node ≡ first_of cs null
  pub ends : l.last_node ≡ last_of null cs
  pub chained : Chain l.nodes cs null
  pub placed : Placed l.fresh cs
  pub counted : length cs < l.fresh

pub length-insert : (xs ys : Cells) (c : ℕ × ℕ) → length (xs ++ (c ∷ ys)) ≡ suc (length (xs ++ ys))
length-insert [] ys c = refl
length-insert (x ∷ xs) ys c = omega (arith, length-insert xs ys c)

-- A node between two parts of a list, of which the first is not empty.
module _ (l : ObjectList) (a x : ℕ) (xs ys : Cells) (o : ℕ) where
  abbrev before : Cells
  before = (a, x) ∷ xs

  abbrev allocated : ℕ → Option ListNode
  allocated = put l.nodes l.fresh (some (node o (first_of ys null)))

  abbrev linked : ℕ → Option ListNode
  linked = put allocated (last_of a xs) (some (node (last_object x xs) l.fresh))

  module _ (r : Represents l (before ++ ys)) where
    pub found : allocated (last_of a xs) ≡ some (node (last_object x xs) (first_of ys null))
    found =
        let (p, c) = Chain-split l.nodes before ys null r.chained in
        let (low, high, out) = Placed-last l.fresh a x xs ys r.placed in
        put_other l.nodes l.fresh (last_of a xs) _ (omega arith) ∙ last-node l.nodes a x xs _ p

    Chain-linked : Chain linked (before ++ ((l.fresh, o) ∷ ys)) null
    Chain-linked =
        let (p, c) = Chain-split l.nodes before ys null r.chained in
        let (low, high, out) = Placed-last l.fresh a x xs ys r.placed in
        let (placed, placed') = Placed-append l.fresh before ys r.placed in
        let p' =
          Chain-put l.nodes before _ l.fresh (some (node o (first_of ys null)))
            (Placed-Bounds l.fresh before l.fresh placed (omega arith)) p in
        let c' =
          Chain-put l.nodes ys null l.fresh (some (node o (first_of ys null)))
            (Placed-Bounds l.fresh ys l.fresh placed' (omega arith)) c in
        Chain-append linked before ((l.fresh, o) ∷ ys) null
          (Chain-relink allocated l.fresh a x xs _ l.fresh placed p')
          (
            put_other allocated (last_of a xs) l.fresh _ (omega arith) ∙ put_self l.nodes l.fresh _,
            Chain-put allocated ys null (last_of a xs) _ out c',
          )

    pub Represents-insert :
        (last : ℕ)
        → last ≡ last_of null (before ++ ((l.fresh, o) ∷ ys))
        → Represents
            (record {
              nodes = linked;
              fresh = suc l.fresh;
              first_node = l.first_node;
              last_node = last;
            })
            (before ++ ((l.fresh, o) ∷ ys))
    Represents-insert last e = record {
      starts = r.starts;
      ends = e;
      chained = Chain-linked;
      placed = Placed-insert l.fresh before ys o (omega (arith, r.counted)) r.placed;
      counted = omega (arith, length-insert before ys (l.fresh, o), r.counted);
    }

pub Represents-front :
    (l : ObjectList) (cs : Cells) (o last : ℕ)
    → Represents l cs
    → last ≡ last_of l.fresh cs
    → Represents
        (record {
          nodes = put l.nodes l.fresh (some (node o (first_of cs null)));
          fresh = suc l.fresh;
          first_node = l.fresh;
          last_node = last;
        })
        ((l.fresh, o) ∷ cs)
Represents-front l cs o last r e = record {
  starts = refl;
  ends = e;
  chained = (
    put_self l.nodes l.fresh _,
    Chain-put l.nodes cs null l.fresh _ (Placed-Bounds l.fresh cs l.fresh r.placed (omega arith))
        r.chained,
  );
  placed = Placed-insert l.fresh [] cs o (omega (arith, r.counted)) r.placed;
  counted = omega (arith, r.counted);
}

pub length-remove :
    (xs ys : Cells) (c : ℕ × ℕ) (n : ℕ) → length (xs ++ (c ∷ ys)) < n → length (xs ++ ys) < n
length-remove xs ys c n h = omega (arith, length-insert xs ys c)

-- The list without its first node.
pub Represents-tail :
    (l : ObjectList) (a x last : ℕ) (cs : Cells)
    → Represents l ((a, x) ∷ cs)
    → last ≡ last_of null cs
    → Represents (record l { first_node = first_of cs null; last_node = last }) cs
Represents-tail l a x last cs r e = record {
  starts = refl;
  ends = e;
  chained = r.chained.1;
  placed = r.placed.3;
  counted = length-remove [] cs (a, x) l.fresh r.counted;
}

-- A change at an address that is no cell's.
pub Represents-put :
    (l : ObjectList) (cs : Cells) (a : ℕ) (v : Option ListNode)
    → has a cs ≡ false
    → Represents l cs
    → Represents (record l { nodes = put l.nodes a v }) cs
Represents-put l cs a v out r = record {
  starts = r.starts;
  ends = r.ends;
  chained = Chain-put l.nodes cs null a v out r.chained;
  placed = r.placed;
  counted = r.counted;
}

-- The node before is made to lead past a node.
pub Represents-unlink :
    (l : ObjectList) (a x : ℕ) (xs ys : Cells) (c : ℕ × ℕ) (last : ℕ)
    → Represents l (((a, x) ∷ xs) ++ (c ∷ ys))
    → last ≡ last_of null (((a, x) ∷ xs) ++ ys)
    → Represents
        (record l {
          nodes = put l.nodes (last_of a xs) (some (node (last_object x xs) (first_of ys null)));
          last_node = last;
        })
        (((a, x) ∷ xs) ++ ys)
Represents-unlink l a x xs ys c last r e =
    let before = (a, x) ∷ xs in
    let (front, back) = Chain-split l.nodes before (c ∷ ys) null r.chained in
    let placed = Placed-remove l.fresh before ys c r.placed in
    let (low, high, out) = Placed-last l.fresh a x xs ys placed in
    record {
      starts = r.starts;
      ends = e;
      chained =
          Chain-append _ before ys null
            (Chain-relink l.nodes l.fresh a x xs _ (first_of ys null)
              (Placed-append l.fresh before ys placed).0 front)
            (Chain-put l.nodes ys null (last_of a xs) _ out back.1);
      placed = placed;
      counted = length-remove before ys c l.fresh r.counted;
    }
