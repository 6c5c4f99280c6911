-- ===== src/Simulator/Lists/Ends.antt =====
-- The operations on the two ends of a list.
use vexjine.Common.{
  ℕ, zero, suc, ◌≡◌, refl, sym, ◌∙◌, ap, ◌<◌, true, false, ◌==◌, ==_refl, ==_false, none, some, [],
  ◌∷◌, ◌++◌, put, arith, length,
}
use mathlib.Core.List.{append_assoc, append-nil}
use vexjine.Simulator.Lists.{
  ObjectList, null, is_empty, set_first_and_last_equal_to, insert_at_front, insert_at_back,
  remove_from_front, remove_from_back, find_before_last,
}
use vexjine.Simulator.Lists.Cells.{
  Cells, node, last_of, has, Placed, Chain-split, Chain-put, Chain-relink, Placed-append,
  last_of-has, apart, has-append,
}
use vexjine.Simulator.Lists.Memory.{
  Represents, found, Represents-insert, Represents-front, Represents-tail, Represents-put,
  length-insert,
}
use vexjine.Simulator.Lists.Walk.{not_null, load-cell}
use vexjine.Simulator.Lists.Changes.{last-not_null, last_of-cons, node-before}

pub insert_at_front-Represents :
    (l : ObjectList) (cs : Cells) (o : ℕ)
    → Represents l cs
    → Represents (insert_at_front l o) ((l.fresh, o) ∷ cs)
unfolding insert_at_front is_empty set_first_and_last_equal_to
insert_at_front-Represents l [] o r = rw r.starts (Represents-front l [] o l.fresh r refl)
insert_at_front-Represents l ((a, x) ∷ cs) o r =
    rw (r.starts, not_null l [] a x cs r) (Represents-front l ((a, x) ∷ cs) o l.last_node r r.ends)

pub insert_at_back-Represents :
    (l : ObjectList) (cs : Cells) (o : ℕ)
    → Represents l cs
    → (l' : ObjectList) × ((insert_at_back l o ≡ some l')
        × Represents l' (cs ++ ((l.fresh, o) ∷ [])))
unfolding insert_at_back is_empty set_first_and_last_equal_to
insert_at_back-Represents l [] o r = (_, (rw r.starts refl, Represents-front l [] o l.fresh r refl))
insert_at_back-Represents l ((a, x) ∷ cs) o r =
    let r' : Represents l (((a, x) ∷ cs) ++ []) = rw (append-nil cs) r in
    (
      _,
      (
        rw
            (
              r.starts,
              not_null l [] a x cs r,
              r.ends,
              last-not_null l a x cs [] r',
              found l a x cs [] o r',
            )
            refl,
        Represents-insert l a x cs [] o r' l.fresh (sym (last_of-cons a null cs (l.fresh, o))),
      ),
    )

pub remove_from_front-Represents :
    (l : ObjectList) (a x : ℕ) (cs : Cells)
    → Represents l ((a, x) ∷ cs)
    → (l' : ObjectList) × ((remove_from_front l ≡ some (l', x)) × Represents l' cs)
unfolding remove_from_front is_empty set_first_and_last_equal_to
remove_from_front-Represents l a x [] r = (
  _,
  (
    rw (r.starts, not_null l [] a x [] r, r.chained.0, r.ends, ==_refl a) refl,
    Represents-put (record l { first_node = null; last_node = null }) [] a none refl
        (Represents-tail l a x null [] r refl),
  ),
)
remove_from_front-Represents l a x ((b, y) ∷ ys) r =
    let elsewhere = apart (last_of b ys) a ((b, y) ∷ ys) (last_of-has b y ys) r.placed.2 in
    let other = ==_false a (last_of b ys) (λ e. elsewhere (sym e)) in
    (
      _,
      (
        rw (r.starts, not_null l [] a x ((b, y) ∷ ys) r, r.chained.0, r.ends, other) refl,
        Represents-put (record l { first_node = b; last_node = last_of b ys }) ((b, y) ∷ ys) a none
            r.placed.2 (Represents-tail l a x (last_of b ys) ((b, y) ∷ ys) r refl),
      ),
    )

Placed-out : (n : ℕ) (xs ys : Cells) (c o : ℕ) → Placed n (xs ++ ((c, o) ∷ ys)) → has c xs ≡ false
Placed-out n [] ys c o p = refl
Placed-out n ((a, x) ∷ xs) ys c o (low, high, out, p) =
    ground (arith, has-append a xs ((c, o) ∷ ys), Placed-out n xs ys c o p)

-- The loop of `removeFromBack` finds the node before the last.
find_before_last-found :
    (fuel : ℕ) (l : ObjectList) (xs ys : Cells) (b y c o : ℕ)
    → Represents l (xs ++ ((b, y) ∷ (ys ++ ((c, o) ∷ []))))
    → l.last_node ≡ c
    → length ys < fuel
    → find_before_last fuel l b ≡ some (last_of b ys)
unfolding find_before_last
find_before_last-found zero l xs ys b y c o r e h = absurd (omega arith)
find_before_last-found (suc fuel) l xs [] b y c o r e h =
    rw (load-cell l xs b y ((c, o) ∷ []) r, ap (λ p. c == p) e, ==_refl c) refl
find_before_last-found (suc fuel) l xs ((d, z) ∷ ys) b y c o r e h =
    let rest = ys ++ ((c, o) ∷ []) in
    let r' : Represents l ((xs ++ ((b, y) ∷ [])) ++ ((d, z) ∷ rest)) =
      rw (append_assoc xs ((b, y) ∷ []) ((d, z) ∷ rest)) r in
    let placed = (Placed-append l.fresh (xs ++ ((b, y) ∷ [])) ((d, z) ∷ rest) r'.placed).1 in
    let different : (d == c) ≡ false = ground (arith, placed.2, has-append d ys ((c, o) ∷ [])) in
    let different' : (d == l.last_node) ≡ false = rw e different in
    rw (load-cell l xs b y ((d, z) ∷ rest) r, different')
      (find_before_last-found fuel l (xs ++ ((b, y) ∷ [])) ys d z c o r' e (omega arith))

pub remove_from_back-Represents :
    (l : ObjectList) (cs : Cells) (c o : ℕ)
    → Represents l (cs ++ ((c, o) ∷ []))
    → (l' : ObjectList) × ((remove_from_back l ≡ some (l', o)) × Represents l' cs)
unfolding remove_from_back is_empty set_first_and_last_equal_to
remove_from_back-Represents l [] c o r = (
  _,
  (
    rw (r.starts, r.ends, not_null l [] c o [] r, r.chained.0, ==_refl c) refl,
    Represents-put (record l { first_node = null; last_node = null }) [] c none refl
        (Represents-tail l c o null [] r refl),
  ),
)
remove_from_back-Represents l ((a, x) ∷ cs) c o r =
    let before = (a, x) ∷ cs in
    let last : l.last_node ≡ c = r.ends ∙ last_of-cons a null cs (c, o) in
    let out = Placed-out l.fresh before [] c o r.placed in
    let current = last_of a cs in
    let enough : length cs < l.fresh =
      omega (arith, r.counted, length-insert cs [] (c, o), ap length (append-nil cs)) in
    let found : find_before_last l.fresh l l.first_node ≡ some current =
      ap (find_before_last l.fresh l) r.starts
      ∙ find_before_last-found l.fresh l [] cs a x c o r last enough in
    let first_has : has a before ≡ true = ground (arith, ==_refl a) in
    let not_first : (l.first_node == l.last_node) ≡ false =
      ==_false _ _ (λ e. apart a c before first_has out (sym r.starts ∙ e ∙ last)) in
    let not_current : (l.last_node == current) ≡ false =
      ==_false _ _ (λ e. apart current c before (last_of-has a x cs) out (sym e ∙ last)) in
    let starts : (l.first_node == null) ≡ false =
      rw r.starts (not_null l [] a x (cs ++ ((c, o) ∷ [])) r) in
    let ends : (l.last_node == null) ≡ false = rw last (not_null l before c o [] r) in
    let loaded : l.nodes l.last_node ≡ some (node o null) =
      rw last (Chain-split l.nodes before ((c, o) ∷ []) null r.chained).1.0 in
    let placed = (Placed-append l.fresh before ((c, o) ∷ []) r.placed).0 in
    (
      _,
      (
        rw
            (
              starts,
              ends,
              loaded,
              not_first,
              found,
              last-not_null l a x cs ((c, o) ∷ []) r,
              not_current,
              node-before l a x cs [] c o r,
            )
            refl,
        record {
          starts = r.starts;
          ends = refl;
          chained = Chain-relink (put l.nodes l.last_node none) l.fresh a x cs c null placed (
              Chain-put l.nodes before c l.last_node none (ap (λ p. has p before) last ∙ out)
                (Chain-split l.nodes before ((c, o) ∷ []) null r.chained).0);
          placed = placed;
          counted = omega (arith, r.counted, length-insert cs [] (c, o), ap length (append-nil cs));
        },
      ),
    )

pub remove_from_front-empty : (l : ObjectList) → Represents l [] → remove_from_front l ≡ none
unfolding remove_from_front is_empty
remove_from_front-empty l r = rw r.starts refl

pub remove_from_back-empty : (l : ObjectList) → Represents l [] → remove_from_back l ≡ none
unfolding remove_from_back is_empty
remove_from_back-empty l r = rw r.starts refl
