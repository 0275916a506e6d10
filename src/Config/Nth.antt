-- ===== src/Config/Nth.antt =====
-- The n-th call of config_weight_list::get_next_size on a fresh list.
use memtier_skewsyn.Prelude.{
  ℕ, zero, suc, ◌%◌, ◌<◌, ◌≡◌, refl, ◌∙◌, Option, none, some, arith, get_elem?, turn_mod,
}
use mathlib.Core.Path.{subst}
use memtier_skewsyn.Config.{WeightList, get_next_size, copy}
use memtier_skewsyn.Config.Circle.{total, expand, get_elem?_below, lt-of_before}
use memtier_skewsyn.Config.Draws.{IsCursor, position, turn, rounds, get_next_size-Draws}

-- The list after n calls of get_next_size.
pub drawn : ℕ → WeightList → Option WeightList
drawn zero l = some l
drawn (suc n) l = elim (drawn n l) [
  | none ↦ none
  | some l' ↦ elim (get_next_size (rounds l') l') [ none ↦ none | some (s, l'') ↦ some l'' ]
]

record DrawnBy (l : WeightList) (n : ℕ) (l' : WeightList) : Type 0 where
  reached : drawn n l ≡ some l'
  kept : l'.item_list ≡ l.item_list
  cursor : IsCursor l'
  due : turn l' ≡ n % total l.item_list

drawn_step :
    (l : WeightList) (n : ℕ) (l' : WeightList)
    → 0 < total l.item_list
    → DrawnBy l n l'
    → (l'' : WeightList) × DrawnBy l (suc n) l''
unfolding drawn
drawn_step l n l' positive d =
    let r = get_next_size-Draws l' d.cursor (rw d.kept positive) in
    (
      r.after,
      record {
        reached = rw (d.reached, drawn) (rw r.returned);
        kept = r.kept ∙ d.kept;
        cursor = r.cursor;
        due = rw (r.moved, d.due, r.kept, d.kept) (turn_mod n (total l.item_list) positive);
      },
    )

drawn_total :
    (l : WeightList) (n : ℕ)
    → IsCursor l
    → position l ≡ 0
    → 0 < total l.item_list
    → (l' : WeightList) × DrawnBy l n l'
unfolding drawn
drawn_total l zero c p positive =
    (l, record { reached = refl; kept = refl; cursor = c; due = rw p (grind arith) })
drawn_total l (suc n) c p positive =
    let (l', d) = drawn_total l n c p positive in drawn_step l n l' positive d

-- The n-th call (counted from 0) on a fresh copy of a list returns the size at index n of the circle in
-- which each size is repeated by its weight.
nth_size_from :
    (l : WeightList) (n : ℕ) (l' : WeightList)
    → 0 < total l.item_list
    → DrawnBy l n l'
    → (s : ℕ) × (l'' : WeightList) × (get_next_size (rounds l') l' ≡ some (s, l''))
      × (get_elem? (expand l.item_list) (n % total l.item_list) ≡ some s)
nth_size_from l n l' positive d =
    let r = get_next_size-Draws l' d.cursor (rw d.kept positive) in
    (
      r.size,
      r.after,
      r.returned,
      subst (λ p. get_elem? (expand l.item_list) p ≡ some r.size) d.due
          (subst (λ xs. get_elem? (expand xs) (turn l') ≡ some r.size) d.kept r.drawn),
    )

-- Of a list whose weights are not all zero, no call of get_next_size on a fresh copy fails, and call n, counted from
-- 0, gives size n of the circle in which every size stands as often as its weight says.
pub nth_size :
    (l : WeightList) (n : ℕ)
    → 0 < total l.item_list
    → (l' : WeightList) × (s : ℕ) × (l'' : WeightList) × (drawn n (copy l) ≡ some l')
      × (get_next_size (rounds l') l' ≡ some (s, l''))
      × (get_elem? (expand l.item_list) (n % total l.item_list) ≡ some s)
unfolding copy
nth_size l n positive =
    let (w, at) = get_elem?_below l.item_list 0 (lt-of_before l.item_list 0 positive) in
    let (l', d) = drawn_total (copy l) n (0, w, refl, at, omega arith) (omega arith) positive in
    let (s, l'', step, found) = nth_size_from (copy l) n l' positive d in
    (l', s, l'', d.reached, step, found)
