-- ===== src/Config/Assign.antt =====
-- config_weight_list::operator=.
use memtier_skewsyn.Prelude.{◌≢◌, ap, List, [], ◌∷◌, ◌++◌, arith, length, length-append}
use memtier_skewsyn.Config.{WeightItem, WeightList, assign, copy}

-- The operator keeps the items that the left side has, so that its list is not that of the right side, and not
-- what the copy constructor makes of the right side, unless it was empty.
pub assign-ne :
    (l rhs : WeightList)
    → l.item_list ≢ []
    → ((assign l rhs).item_list ≢ rhs.item_list) × (assign l rhs ≢ copy rhs)
unfolding assign copy
assign-ne l rhs ne = (other l.item_list ne, λ e. other l.item_list ne (ap (λ r. r.item_list) e))
  where
    other : (xs : List WeightItem) → xs ≢ [] → (xs ++ rhs.item_list) ≢ rhs.item_list
    other [] h e = absurd (h (λ i. []))
    other (x ∷ xs) h e = absurd (omega (arith, ap length e, length-append xs rhs.item_list))
