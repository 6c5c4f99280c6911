-- ===== src/Registries/Object/Laws.antt =====
-- What the object registry keeps: a stack of waiting threads for each object.
use vexjine.Common.{
  count, count-erase_first, erase_first, ◌&&◌, ◌-◌, ℕ, zero, suc, ◌≡◌, ◌≢◌, inl, inr, refl, ap,
  none, some, List, [], ◌∷◌, ◌++◌, ◌∙◌, sym, length, length-append, push_back, unsnoc-push_back,
  ◌==◌, ==_iff, ==_refl, Bool-cases, if◌then◌else◌, arith,
}
use mathlib.Core.List.{reverse, reverse-cons, append_assoc, append-nil, reverse-reverse}
use mathlib.Core.Path.{ap₂}
use vexjine.Registries.Object.{ObjectRegistry, get_next, erase, insert, last_or_zero, but_last}

-- The threads that wait on an object, in the order of their arrival.
abbrev pub waiting : ObjectRegistry → ℕ → List ℕ
waiting r object = elim (r object) [ some i ↦ i.threads_waiting | none ↦ [] ]

-- Every operation in terms of `waiting`, for the object at hand and for all others.
pub waiting-insert :
    (r : ObjectRegistry) (object t j : ℕ)
    → waiting (insert r object t) j
      ≡ (if object == j then push_back (waiting r object) t else waiting r j)
unfolding insert
waiting-insert r object t j = ground (arith, ==_iff object j)

pub waiting-get_next :
    (r : ObjectRegistry) (object j : ℕ)
    → waiting (get_next r object).0 j
      ≡ (if object == j then but_last (waiting r object) else waiting r j)
unfolding get_next
waiting-get_next r object j = ground (arith, ==_iff object j)

pub get_next-waiting :
    (r : ObjectRegistry) (object : ℕ) → (get_next r object).1 ≡ last_or_zero (waiting r object)
unfolding get_next
get_next-waiting r object = ground arith

-- `insert` for each thread of a list, and a number of calls of `getNext`.
unfoldable pub insert_all : ObjectRegistry → ℕ → List ℕ → ObjectRegistry
insert_all r object [] = r
insert_all r object (t ∷ ts) = insert_all (insert r object t) object ts

unfoldable pub drain : ℕ → ObjectRegistry → ℕ → ObjectRegistry × List ℕ
drain zero r object = (r, [])
drain (suc n) r object =
    let (r', t) = get_next r object in let (r'', ts) = drain n r' object in (r'', t ∷ ts)

waiting-insert_all :
    (r : ObjectRegistry) (object : ℕ) (ts : List ℕ) (j : ℕ)
    → waiting (insert_all r object ts) j
      ≡ (if object == j then waiting r object ++ ts else waiting r j)
unfolding insert_all
waiting-insert_all r object [] j = ground (arith, ==_iff object j, append-nil (waiting r object))
waiting-insert_all r object (t ∷ ts) j = ground (
  arith,
  ==_iff object j,
  ==_refl object,
  waiting-insert_all (insert r object t) object ts j,
  waiting-insert r object t j,
  waiting-insert r object t object,
  append_assoc (waiting r object) (t ∷ []) ts,
)

last_or_zero-push_back : (ts : List ℕ) (t : ℕ) → last_or_zero (push_back ts t) ≡ t
unfolding last_or_zero
last_or_zero-push_back ts t = ground (arith, unsnoc-push_back ts t)

but_last-push_back : (ts : List ℕ) (t : ℕ) → but_last (push_back ts t) ≡ ts
unfolding but_last
but_last-push_back ts t = ground (arith, unsnoc-push_back ts t)

abbrev Drains : ObjectRegistry → ℕ → List ℕ → List ℕ → ObjectRegistry × List ℕ → Type 0
Drains r object base us (r', got) =
    (got ≡ us) × (waiting r' object ≡ base) × ((j : ℕ) → object ≢ j → waiting r' j ≡ waiting r j)

drain-Drains :
    (us : List ℕ) (r : ObjectRegistry) (object : ℕ) (base : List ℕ)
    → waiting r object ≡ base ++ reverse us
    → Drains r object base us (drain (length us) r object)
unfolding drain
drain-Drains [] r object base e = (refl, e ∙ append-nil base, λ j h. refl)
drain-Drains (u ∷ us) r object base e =
    let snoc : waiting r object ≡ push_back (base ++ reverse us) u =
      e ∙ ap (◌++◌ base) (reverse-cons u us) ∙ sym (append_assoc base (reverse us) (u ∷ [])) in
    let rest : waiting (get_next r object).0 object ≡ base ++ reverse us =
      rw (waiting-get_next r object object, ==_refl object, snoc)
        (but_last-push_back (base ++ reverse us) u) in
    let taken : (get_next r object).1 ≡ u =
      rw (get_next-waiting r object, snoc) (last_or_zero-push_back (base ++ reverse us) u) in
    let (got, left, others) = drain-Drains us (get_next r object).0 object base rest in
    (
      ap₂ ◌∷◌ taken got,
      left,
      λ j h. others j h ∙ ground (arith, waiting-get_next r object j, ==_iff object j),
    )

length-reverse : (ts : List ℕ) → length (reverse ts) ≡ length ts
length-reverse [] = refl
length-reverse (t ∷ ts) =
    omega
      (arith, ap length (reverse-cons t ts), length-append (reverse ts) (t ∷ []), length-reverse ts)

-- The waiting threads of an object are a stack: after any insertions, as many calls of `getNext`
-- return the inserted threads in reverse order, and leave this object and every other as before.
pub drain-insert_all :
    (r : ObjectRegistry) (object : ℕ) (ts : List ℕ)
    → let (r', got) = drain (length ts) (insert_all r object ts) object in
      (got ≡ reverse ts) × ((j : ℕ) → waiting r' j ≡ waiting r j)
drain-insert_all r object ts =
    let r1 = insert_all r object ts in
    let start : waiting r1 object ≡ waiting r object ++ reverse (reverse ts) =
      rw (waiting-insert_all r object ts object, ==_refl object, reverse-reverse ts) in
    let d = drain-Drains (reverse ts) r1 object (waiting r object) start in
    let (got, here, others) = rw (length-reverse ts) at d in
    (
      got,
      λ j. elim (Bool-cases (object == j)) [
        | inl same ↦ rw (← (==_iff object j).0 same) here
        | inr other ↦
            others j (λ e. ground (arith, ==_iff object j))
            ∙ rw (waiting-insert_all r object ts j, other)
      ],
    )

erase_first-push_back : (t : ℕ) (ts : List ℕ) → count t ts ≡ 0 → erase_first t (push_back ts t) ≡ ts
unfolding count erase_first
erase_first-push_back t [] h = ground (arith, ==_refl t)
erase_first-push_back t (v ∷ vs) h =
    ground (arith, ==_iff t v, ==_iff v t, erase_first-push_back t vs)

-- `erase` takes one record of the thread from the object, if it has one, and leaves every other
-- record of every object alone.
pub count-erase :
    (r : ObjectRegistry) (object t j u : ℕ)
    → count u (waiting (erase r object t) j)
      ≡ (if (object == j) && (t == u) then count u (waiting r j) - 1 else count u (waiting r j))
unfolding erase
count-erase r object t j u =
    ground (arith, ==_iff object j, ==_iff t u, count-erase_first t u (waiting r j))

-- A thread that starts to wait on an object and is then erased from it leaves the order of the
-- other waiting threads as it was, if it did not wait there before.
pub erase-insert :
    (r : ObjectRegistry) (object t : ℕ)
    → count t (waiting r object) ≡ 0
    → (j : ℕ) → waiting (erase (insert r object t) object t) j ≡ waiting r j
unfolding erase insert
erase-insert r object t h j =
    ground (arith, ==_iff object j, ==_refl object, erase_first-push_back t (waiting r object))
