-- ===== src/Tests/Config.antt =====
-- The option parsers at concrete options.
use memtier_skewsyn.Prelude.{ℕ, ◌≡◌, refl, [], ◌∷◌, ◌%◌, some, arith, codes, get_elem?}
use memtier_skewsyn.CLib.{print_u, strtoul}
use memtier_skewsyn.Config.{
  WeightItem, WeightList, weight_list, copy, print, overrun, get_next_size,
}
use memtier_skewsyn.Config.Circle.{total, expand}
use memtier_skewsyn.Config.Draws.{rounds}
use memtier_skewsyn.Config.Nth.{drawn, nth_size}

abbrev item : ℕ → ℕ → WeightItem
item s w = record { size = s; weight = w }

-- --data-size-list=10:2,20:0,30:1
abbrev sizes : WeightList
sizes = record {
  item_list = item 10 2 ∷ item 20 0 ∷ item 30 1 ∷ [];
  next_size_iter = some 0;
  next_size_weight = 2;
}

parsed : weight_list (codes "10:2,20:0,30:1") ≡ copy sizes
unfolding weight_list copy strtoul
parsed = refl

refused : (weight_list (codes "10:2,20")).item_list ≡ []
unfolding weight_list strtoul
refused = refl

-- A buffer of 8 bytes holds "10:2" and is overrun by the item behind it.
print_overrun : print 8 sizes ≡ overrun
unfolding print print_u
print_overrun = refl

nth_size_example :
    (l' : WeightList) × (s : ℕ) × (l'' : WeightList) × (drawn 5 (copy sizes) ≡ some l')
    × (get_next_size (rounds l') l' ≡ some (s, l''))
    × (get_elem? (expand sizes.item_list) (5 % total sizes.item_list) ≡ some s)
nth_size_example = nth_size sizes 5 (omega arith)
