-- ===== src/Config/Largest.antt =====
-- config_weight_list::largest bounds what get_next_size hands out.
use memtier_skewsyn.Prelude.{
  ℕ, zero, suc, ◌≤◌, ◌≡◌, refl, List, [], ◌∷◌, Option, none, some, arith, ltb, ◌==◌, if◌then◌else◌,
  length, get_elem?,
}
use memtier_skewsyn.Config.{
  WeightItem, WeightList, next_from, next_at, get_next_size, advanced, largest, largest_from,
}

largest_from-le : (acc : ℕ) (items : List WeightItem) → acc ≤ largest_from acc items
unfolding largest_from
largest_from-le acc [] = omega arith
largest_from-le acc (w ∷ items) =
    ground (arith, largest_from-le (if ltb acc w.size then w.size else acc) items)

get_elem?-largest :
    (acc : ℕ) (items : List WeightItem) (i : ℕ) {w : WeightItem}
    → get_elem? items i ≡ some w
    → w.size ≤ largest_from acc items
unfolding largest_from
get_elem?-largest acc [] i e = cc
get_elem?-largest acc (x ∷ items) zero e =
    ground (arith, largest_from-le (if ltb acc x.size then x.size else acc) items)
get_elem?-largest acc (x ∷ items) (suc i) e =
    get_elem?-largest (if ltb acc x.size then x.size else acc) items i e

next_from-mem :
    (f : ℕ) (items : List WeightItem) (i k : ℕ) {w : WeightItem} {j m : ℕ}
    → next_from f items i k ≡ some (w, j, m)
    → get_elem? items j ≡ some w
unfolding next_from
next_from-mem zero items i k e = cc
next_from-mem (suc f) items i k {w} {j} {m} e = ground (
  arith,
  next_from-mem f items (if suc i == length items then 0 else suc i) 0 {w = w} {j = j} {m = m},
)

next_at-le-largest :
    (fuel : ℕ) (l : WeightList) (o : Option ℕ) {s : ℕ} {l' : WeightList}
    → next_at fuel l o ≡ some (s, l')
    → s ≤ largest l
unfolding next_at largest
next_at-le-largest fuel l none e = cc
next_at-le-largest fuel l (some i) {s} {l'} e =
    found (next_from fuel l.item_list i l.next_size_weight) refl e
  where
    found :
        (r : Option (WeightItem × ℕ × ℕ))
        → next_from fuel l.item_list i l.next_size_weight ≡ r
        → advanced l r ≡ some (s, l')
        → s ≤ largest_from 0 l.item_list
    found none q e = cc
    found (some (w, j, k)) q e = ground (
      arith,
      get_elem?-largest 0 l.item_list j
          (next_from-mem fuel l.item_list i l.next_size_weight {w = w} {j = j} {m = k} q),
    )

-- No size that get_next_size hands out exceeds the largest size of the list, by which the value buffer
-- is allocated.
pub get_next_size-le-largest :
    (fuel : ℕ) (l : WeightList) {s : ℕ} {l' : WeightList}
    → get_next_size fuel l ≡ some (s, l')
    → s ≤ largest l
unfolding get_next_size
get_next_size-le-largest fuel l = next_at-le-largest fuel l l.next_size_iter
