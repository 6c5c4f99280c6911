-- ===== src/Simulator/Nodes/Events.antt =====
-- The events of a node in the diary: each has a number of its own.
use vexjine.Common.{
  ℕ, suc, ◌≡◌, refl, sym, ap, ◌<◌, ◌≤◌, ==_refl, ==_false, some, List, [], ◌∷◌, map, length, count,
  arith, ◌⊎◌, inl, inr,
}
use vexjine.Simulator.Nodes.{EndServiceEvent, without_event}

module _ {Time : Type 0} where
  -- The customers in service.
  abbrev pub served : List (EndServiceEvent Time) → List ℕ
  served es = map (λ e. e.customer) es

  -- Later events come first and have greater numbers.
  abbrev pub Numbered : ℕ → List (EndServiceEvent Time) → Type 0
  Numbered n [] = Unit {0}
  Numbered n (e ∷ es) = (e.event_id < n) × Numbered (e.event_id) es

  abbrev pub Has : EndServiceEvent Time → List (EndServiceEvent Time) → Type 0
  Has e [] = ⊥
  Has e (e' ∷ es) = (e ≡ e') ⊎ Has e es

  Numbered-le : (n m : ℕ) (es : List (EndServiceEvent Time)) → n ≤ m → Numbered n es → Numbered m es
  Numbered-le n m [] h p = tt
  Numbered-le n m (e ∷ es) h (low, p) = (omega arith, p)

  Has-Bounds :
      (n : ℕ) (e : EndServiceEvent Time) (es : List (EndServiceEvent Time))
      → Numbered n es
      → Has e es
      → e.event_id < n
  Has-Bounds n e [] p h = absurd h
  Has-Bounds n e (e' ∷ es) (low, p) (inl same) = rw same low
  Has-Bounds n e (e' ∷ es) (low, p) (inr later) = omega (arith, Has-Bounds e'.event_id e es p later)

  -- The event that leaves the diary.
  pub record Left (n : ℕ) (e : EndServiceEvent Time) (es rest : List (EndServiceEvent Time))
      : Type 0 where
    pub numbered : Numbered n rest
    pub counts : (u : ℕ) → count u (served es) ≡ count u (e.customer ∷ served rest)
    pub longer : length es ≡ suc (length rest)

  pub without_event-Left :
      (n : ℕ) (e : EndServiceEvent Time) (es : List (EndServiceEvent Time))
      → Numbered n es
      → Has e es
      → (rest : List (EndServiceEvent Time)) × ((without_event e.event_id es ≡ some rest)
          × Left n e es rest)
  unfolding without_event count
  without_event-Left n e [] p h = absurd h
  without_event-Left n e (e' ∷ es) (low, p) (inl same) = (
    es,
    (
      rw (same, ==_refl e'.event_id) refl,
      record {
        numbered = Numbered-le _ _ es (omega arith) p;
        counts = λ u. ap (λ x. count u (x.customer ∷ served es)) (sym same);
        longer = refl;
      },
    ),
  )
  without_event-Left n e (e' ∷ es) (low, p) (inr later) =
      let (rest, (found, left)) = without_event-Left e'.event_id e es p later in
      let bound = Has-Bounds e'.event_id e es p later in
      let other = ==_false e'.event_id e.event_id (λ same. omega (arith, same)) in
      (
        e' ∷ rest,
        (
          rw (other, found) refl,
          record {
            numbered = (low, left.numbered);
            counts = λ u. ground (arith, left.counts u);
            longer = omega (arith, left.longer);
          },
        ),
      )
