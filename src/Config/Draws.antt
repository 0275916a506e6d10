-- ===== src/Config/Draws.antt =====
-- One call of config_weight_list::get_next_size.
use memtier_skewsyn.Prelude.{
  ℕ, suc, ◌+◌, ◌≤◌, ◌<◌, ◌≡◌, refl, sym, ap, inl, inr, List, Option, none, some, arith, ◌==◌,
  if◌then◌else◌, length, get_elem?,
}
use mathlib.Core.Path.{subst}
use memtier_skewsyn.Config.{WeightItem, WeightList, next_at, get_next_size, advanced}
use memtier_skewsyn.Config.Circle.{total, before, expand, get_elem?-expand, before-suc, before-le}
use memtier_skewsyn.Config.Walk.{At, Finds, next_from_walk}

-- The iterator stands on an item, with a counter up to its weight.
abbrev pub IsCursor : WeightList → Type 0
IsCursor l =
    (i : ℕ) × (w : WeightItem) × (l.next_size_iter ≡ some i)
    × (get_elem? l.item_list i ≡ some w)
    × (l.next_size_weight ≤ w.weight)

abbrev pub position_at : WeightList → Option ℕ → ℕ
position_at l none = 0
position_at l (some i) = before l.item_list i + l.next_size_weight

-- How many sizes of the circle have been handed out in this turn.
abbrev pub position : WeightList → ℕ
position l = position_at l l.next_size_iter

abbrev pub rounds : WeightList → ℕ
rounds l = suc (length l.item_list + length l.item_list)

-- The next size of the circle is handed out, and the position moves on by one.
pub record Draws (l : WeightList) (p : ℕ) (r : Option (ℕ × WeightList)) : Type 0 where
  pub size : ℕ
  pub after : WeightList
  pub returned : r ≡ some (size, after)
  pub drawn : get_elem? (expand l.item_list) p ≡ some size
  pub moved : position after ≡ suc p
  pub kept : after.item_list ≡ l.item_list
  pub cursor : IsCursor after

At-Draws :
    (l : WeightList) (p : ℕ) (r : Option (WeightItem × ℕ × ℕ))
    → At l.item_list p r
    → Draws l p (advanced l r)
At-Draws l p r (w, j, k, e, at, lt, here) = rw e (record {
  size = w.size;
  after = record l { next_size_iter = some j; next_size_weight = suc k };
  returned = refl;
  drawn = rw (← here) (get_elem?-expand l.item_list j k at lt);
  moved = omega arith;
  kept = refl;
  cursor = (j, w, refl, at, omega arith);
})

At-lt :
    (items : List WeightItem) (p : ℕ) (r : Option (WeightItem × ℕ × ℕ))
    → At items p r
    → p < total items
At-lt items p r (w, j, k, e, at, lt, here) =
    omega (arith, before-suc items j at, before-le items (suc j))

-- The position of the next draw.
abbrev pub turn : WeightList → ℕ
turn l = if position l == total l.item_list then 0 else position l

Finds-Draws :
    (l : WeightList) (r : Option (WeightItem × ℕ × ℕ))
    → Finds l.item_list (position l) r
    → Draws l (turn l) (advanced l r)
Finds-Draws l r (inl at) =
    let z : position l ≡ turn l = ground (arith, At-lt l.item_list (position l) r at) in
    At-Draws l (turn l) r (subst (λ p. At l.item_list p r) z at)
Finds-Draws l r (inr (end, at)) =
    let z : 0 ≡ turn l = ground arith in
    At-Draws l (turn l) r (subst (λ p. At l.item_list p r) z at)

-- get_next_size ends within `rounds l` rounds when some weight is positive, and hands out the size at
-- the position of the list in its circle of sizes, starting over at the end; the position moves on by
-- one, and the items stay.
pub get_next_size-Draws :
    (l : WeightList)
    → IsCursor l
    → 0 < total l.item_list
    → Draws l (turn l) (get_next_size (rounds l) l)
unfolding get_next_size
get_next_size-Draws l (i, w, it, at, le) positive =
    subst (λ o. Draws l (turn l) (next_at (rounds l) l o)) (sym it)
      (Finds-Draws l _ (
        next_from_walk l.item_list positive (rounds l) i l.next_size_weight (position l) w at le
          (sym (ap (position_at l) it)) (omega arith)))
