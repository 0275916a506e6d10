-- ===== src/Config/Walk.antt =====
-- The loop of config_weight_list::get_next_size finds the item at its place in the circle of sizes.
use memtier_skewsyn.Prelude.{
  ℕ, zero, suc, ◌+◌, ◌≤◌, ◌<◌, ◌≡◌, refl, ap, ◌⊎◌, inl, inr, ==_iff, List, Option, some, arith, ltb,
  ◌==◌, if◌then◌else◌, length, get_elem?, Bool-cases,
}
use mathlib.Core.Path.{subst}
use memtier_skewsyn.Config.{WeightItem, next_from}
use memtier_skewsyn.Config.Circle.{
  total, before, before-suc, before-length, get_elem?-lt, get_elem?_below, lt-of_before,
}

module _ (f : ℕ) (items : List WeightItem) (i k : ℕ) (w : WeightItem)
    (at : get_elem? items i ≡ some w) where
  next_from_live : k < w.weight → next_from (suc f) items i k ≡ some (w, i, k)
  unfolding next_from
  next_from_live h = ground arith

  next_from_used :
      w.weight ≤ k
      → next_from (suc f) items i k
        ≡ next_from f items (if suc i == length items then 0 else suc i) 0
  unfolding next_from
  next_from_used h = ground arith

-- The walk found an item at index j, with a counter k that its weight exceeds, at position `p`.
abbrev pub At : List WeightItem → ℕ → Option (WeightItem × ℕ × ℕ) → Type 0
At items p r =
    (w : WeightItem) × (j : ℕ) × (k : ℕ) × (r ≡ some (w, j, k))
    × (get_elem? items j ≡ some w)
    × (k < w.weight)
    × (before items j + k ≡ p)

-- From the start of item i, when weights are left at or behind it, the walk does not wrap around.
ahead_step :
    (f : ℕ) (items : List WeightItem) (i p : ℕ) (w : WeightItem)
    → get_elem? items i ≡ some w
    → before items i ≡ p
    → p < total items
    → (before items (suc i) ≡ p → suc i < length items → At items p (next_from f items (suc i) 0))
    → At items p (next_from (suc f) items i 0)
ahead_step f items i p w at e lt later = elim (Bool-cases (ltb 0 w.weight)) [
  | inl live ↦
      (w, i, 0, next_from_live f items i 0 w at (ground arith), at, ground arith, omega arith)
  | inr used ↦
      let still : before items (suc i) ≡ p = ground (arith, before-suc items i at) in
      let inside : suc i < length items = lt-of_before items (suc i) (omega arith) in
      rw (next_from_used f items i 0 w at (ground arith)) (
        subst (λ j. At items p (next_from f items j 0))
          (let z : suc i ≡ (if suc i == length items then 0 else suc i) = ground arith in z)
          (later still inside))
]

next_from_ahead :
    (f : ℕ) (items : List WeightItem) (i p : ℕ)
    → length items < f + i
    → before items i ≡ p
    → p < total items
    → At items p (next_from f items i 0)
next_from_ahead zero items i p h e lt = absurd (omega (arith, lt-of_before items i (omega arith)))
next_from_ahead (suc f) items i p h e lt =
    let found = get_elem?_below items i (lt-of_before items i (omega arith)) in
    ahead_step f items i p found.0 found.1 e lt
      (λ still inside. next_from_ahead f items (suc i) p (omega arith) still lt)

-- From anywhere, it stays at its position, or goes on from the end of the circle to its start.
abbrev pub Finds : List WeightItem → ℕ → Option (WeightItem × ℕ × ℕ) → Type 0
Finds items p r = At items p r ⊎ ((p ≡ total items) × At items 0 r)

module _ (items : List WeightItem) (positive : 0 < total items) where
  walk_step :
      (f i k p : ℕ) (w : WeightItem)
      → get_elem? items i ≡ some w
      → k ≤ w.weight
      → before items i + k ≡ p
      → length items < f
      → (before items (suc i) ≡ p
          → suc i < length items
          → Finds items p (next_from f items (suc i) 0))
      → Finds items p (next_from (suc f) items i k)
  walk_step f i k p w at le e enough later = elim (Bool-cases (ltb k w.weight)) [
    | inl live ↦ inl (w, i, k, next_from_live f items i k w at (ground arith), at, ground arith, e)
    | inr used ↦
        let still : before items (suc i) ≡ p = ground (arith, before-suc items i at) in
        rw (next_from_used f items i k w at (ground arith))
          (elim (Bool-cases (suc i == length items)) [
            | inl end ↦ rw end (
                inr (
                  ground (arith, before-length items, ap (before items) ((==_iff _ _).0 end)),
                  next_from_ahead f items 0 0 (omega arith) refl positive,
                ))
            | inr inside ↦ rw inside (later still (ground (arith, get_elem?-lt items i at)))
          ])
  ]

  pub next_from_walk :
      (f i k p : ℕ) (w : WeightItem)
      → get_elem? items i ≡ some w
      → k ≤ w.weight
      → before items i + k ≡ p
      → length items + length items < f + i
      → Finds items p (next_from f items i k)
  next_from_walk zero i k p w at le e enough = absurd (omega (arith, get_elem?-lt items i at))
  next_from_walk (suc f) i k p w at le e enough =
      walk_step f i k p w at le e (omega (arith, get_elem?-lt items i at)) λ still inside.
        let found = get_elem?_below items (suc i) inside in
        next_from_walk f (suc i) 0 p found.0 found.1 (omega arith) (omega arith) (omega arith)
