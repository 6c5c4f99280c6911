-- ===== src/Simulator/Lists/Cells.antt =====
-- Cells in memory: the nodes of a list as addresses with their objects.
use vexjine.Common.{
  ℕ, suc, ◌≡◌, ◌≢◌, refl, ◌∙◌, ◌<◌, ◌≤◌, Bool, true, false, ◌||◌, ◌==◌, ==_refl, Option, some, List,
  [], ◌∷◌, ◌++◌, map, put, put_other, arith,
}
use mathlib.Core.Bool.{or_assoc}
use vexjine.Simulator.Lists.{ListNode}

abbrev pub Cells : Type 0
Cells = List (ℕ × ℕ)

abbrev pub objects : Cells → List ℕ
objects cs = map (λ c. c.1) cs

abbrev pub node : ℕ → ℕ → ListNode
node o q = record { object = o; next = q }

-- The address of the first cell, and of the last.
abbrev pub first_of : Cells → ℕ → ℕ
first_of [] e = e
first_of ((a, o) ∷ cs) e = a

abbrev pub last_of : ℕ → Cells → ℕ
last_of a [] = a
last_of a ((b, o) ∷ cs) = last_of b cs

abbrev pub last_object : ℕ → Cells → ℕ
last_object o [] = o
last_object o ((b, o') ∷ cs) = last_object o' cs

abbrev pub has : ℕ → Cells → Bool
has a [] = false
has a ((b, o) ∷ cs) = (a == b) || has a cs

-- The nodes lead through the cells to `e`.
abbrev pub Chain : (ℕ → Option ListNode) → Cells → ℕ → Type 0
Chain h [] e = Unit {0}
Chain h ((a, o) ∷ cs) e = (h a ≡ some (node o (first_of cs e))) × Chain h cs e

-- The addresses are different ones, not NULL, and given out before.
abbrev pub Placed : ℕ → Cells → Type 0
Placed n [] = Unit {0}
Placed n ((a, o) ∷ cs) = (0 < a) × (a < n) × (has a cs ≡ false) × Placed n cs

pub has-append : (a : ℕ) (xs ys : Cells) → has a (xs ++ ys) ≡ (has a xs || has a ys)
has-append a [] ys = refl
has-append a ((b, o) ∷ xs) ys = rw (has-append a xs ys, or_assoc)

pub first_of-append : (xs ys : Cells) (e : ℕ) → first_of (xs ++ ys) e ≡ first_of xs (first_of ys e)
first_of-append [] ys e = refl
first_of-append ((a, o) ∷ xs) ys e = refl

pub Chain-append :
    (h : ℕ → Option ListNode) (xs ys : Cells) (e : ℕ)
    → Chain h xs (first_of ys e)
    → Chain h ys e
    → Chain h (xs ++ ys) e
Chain-append h [] ys e c d = d
Chain-append h ((a, o) ∷ xs) ys e c d =
    (rw (first_of-append xs ys e) c.0, Chain-append h xs ys e c.1 d)

pub Chain-split :
    (h : ℕ → Option ListNode) (xs ys : Cells) (e : ℕ)
    → Chain h (xs ++ ys) e
    → Chain h xs (first_of ys e) × Chain h ys e
Chain-split h [] ys e c = (tt, c)
Chain-split h ((a, o) ∷ xs) ys e c =
    let (c', d) = Chain-split h xs ys e c.1 in ((rw (first_of-append xs ys e) at c.0, c'), d)

pub Chain-put :
    (h : ℕ → Option ListNode) (xs : Cells) (e a : ℕ) (v : Option ListNode)
    → has a xs ≡ false
    → Chain h xs e
    → Chain (put h a v) xs e
Chain-put h [] e a v out c = tt
Chain-put h ((b, o) ∷ xs) e a v out c =
    (ground (arith, c.0), Chain-put h xs e a v (ground arith) c.1)

pub Placed-append : (n : ℕ) (xs ys : Cells) → Placed n (xs ++ ys) → Placed n xs × Placed n ys
Placed-append n [] ys p = (tt, p)
Placed-append n ((a, o) ∷ xs) ys (low, high, out, p) =
    let (p', q) = Placed-append n xs ys p in
    ((low, high, ground (arith, has-append a xs ys), p'), q)

pub Placed-Bounds : (n : ℕ) (xs : Cells) (a : ℕ) → Placed n xs → n ≤ a → has a xs ≡ false
Placed-Bounds n [] a p le = refl
Placed-Bounds n ((b, o) ∷ xs) a p le = ground (arith, Placed-Bounds n xs a p.3 le)

pub Placed-suc : (n : ℕ) (xs : Cells) → Placed n xs → Placed (suc n) xs
Placed-suc n [] p = tt
Placed-suc n ((a, o) ∷ xs) (low, high, out, p) = (low, omega arith, out, Placed-suc n xs p)

-- A new cell between two parts of a list.
pub Placed-insert :
    (n : ℕ) (xs ys : Cells) (o : ℕ)
    → 0 < n
    → Placed n (xs ++ ys)
    → Placed (suc n) (xs ++ ((n, o) ∷ ys))
Placed-insert n [] ys o pos p =
    (pos, omega arith, Placed-Bounds n ys n p (omega arith), Placed-suc n ys p)
Placed-insert n ((a, o') ∷ xs) ys o pos (low, high, out, p) = (
  low,
  omega arith,
  ground (arith, has-append a xs ys, has-append a xs ((n, o) ∷ ys)),
  Placed-insert n xs ys o pos p,
)

pub Placed-remove :
    (n : ℕ) (xs ys : Cells) (c : ℕ × ℕ) → Placed n (xs ++ (c ∷ ys)) → Placed n (xs ++ ys)
Placed-remove n [] ys c p = p.3
Placed-remove n ((a, o') ∷ xs) ys c (low, high, out, p) = (
  low,
  high,
  ground (arith, has-append a xs ys, has-append a xs (c ∷ ys)),
  Placed-remove n xs ys c p,
)

pub Placed-last :
    (n a o : ℕ) (xs ys : Cells)
    → Placed n (((a, o) ∷ xs) ++ ys)
    → (0 < last_of a xs) × (last_of a xs < n) × (has (last_of a xs) ys ≡ false)
Placed-last n a o [] ys (low, high, out, p) = (low, high, out)
Placed-last n a o ((b, o') ∷ xs) ys (low, high, out, p) = Placed-last n b o' xs ys p

-- The last cell leads out of the chain.
pub last-node :
    (h : ℕ → Option ListNode) (a o : ℕ) (xs : Cells) (e : ℕ)
    → Chain h ((a, o) ∷ xs) e
    → h (last_of a xs) ≡ some (node (last_object o xs) e)
last-node h a o [] e c = c.0
last-node h a o ((b, o') ∷ xs) e c = last-node h b o' xs e c.1

pub last_of-has : (a o : ℕ) (xs : Cells) → has (last_of a xs) ((a, o) ∷ xs) ≡ true
last_of-has a o [] = ground (arith, ==_refl a)
last_of-has a o ((b, o') ∷ xs) = ground (arith, last_of-has b o' xs)

-- Two addresses differ when one is a cell's and the other is not.
pub apart : (a b : ℕ) (xs : Cells) → has a xs ≡ true → has b xs ≡ false → a ≢ b
apart a b xs h out e = ground (arith, rw e at h)

-- The last cell is made to lead elsewhere.
pub Chain-relink :
    (h : ℕ → Option ListNode) (n a o : ℕ) (xs : Cells) (e e' : ℕ)
    → Placed n ((a, o) ∷ xs)
    → Chain h ((a, o) ∷ xs) e
    → Chain (put h (last_of a xs) (some (node (last_object o xs) e'))) ((a, o) ∷ xs) e'
Chain-relink h n a o [] e e' p c = (ground arith, tt)
Chain-relink h n a o ((b, o') ∷ xs) e e' (low, high, out, p) c =
    let elsewhere = apart (last_of b xs) a ((b, o') ∷ xs) (last_of-has b o' xs) out in
    (put_other h (last_of b xs) a _ elsewhere ∙ c.0, Chain-relink h n b o' xs e e' p c.1)
