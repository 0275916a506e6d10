-- ===== src/Config.antt =====
-- config_types.cpp and config_types.h: the ranges, ratios and weighted size lists that options are
-- parsed into. An int or unsigned int is its 32-bit pattern.
pub mod Assign
pub mod Circle
pub mod Walk
pub mod Draws
pub mod Nth
pub mod Largest
pub mod RoundTrip
use memtier_skewsyn.Prelude.{
  ℕ, zero, suc, ◌+◌, ◌-◌, Bool, true, false, ◌&&◌, ◌||◌, not, List, [], ◌∷◌, ◌++◌, Option, none,
  some, Bytes, ltb, leb, ◌==◌, if◌then◌else◌, length, get_elem?, take,
}
use memtier_skewsyn.CLib.{strtoul, first, rest_of, to_u32, int_lt, print_u}

pub record ConfigRange : Type 0 where
  pub min : ℕ
  pub max : ℕ

abbrev no_range : ConfigRange
no_range = record { min = 0; max = 0 }

abbrev ordered : ℕ → ℕ → ConfigRange
ordered a b = if int_lt b a then record { min = b; max = a } else record { min = a; max = b }

-- config_range::config_range(const char *)
unfoldable pub config_range : Bytes → ConfigRange
config_range range_str =
    let (a, p) = strtoul range_str in
    let (b, q) = strtoul (rest_of p) in
    if not (first p == b'-')
    then no_range
    else if not (first q == 0)
    then no_range
    else ordered (to_u32 a) (to_u32 b)

unfoldable pub range_is_defined : ConfigRange → Bool
range_is_defined r = int_lt 0 r.max

pub record ConfigRatio : Type 0 where
  pub a : ℕ
  pub b : ℕ

abbrev no_ratio : ConfigRatio
no_ratio = record { a = 0; b = 0 }

-- config_ratio::config_ratio(const char *)
unfoldable pub config_ratio : Bytes → ConfigRatio
config_ratio ratio_str =
    let (x, p) = strtoul ratio_str in
    let (y, q) = strtoul (rest_of p) in
    if not (first p == b':')
    then no_ratio
    else if not (first q == 0)
    then no_ratio
    else record { a = to_u32 x; b = to_u32 y }

unfoldable pub ratio_is_defined : ConfigRatio → Bool
ratio_is_defined r = ltb 0 r.a || ltb 0 r.b

pub record WeightItem : Type 0 where
  pub size : ℕ
  pub weight : ℕ

-- An iterator that was never set, or stands in a list that has changed, is `none`; otherwise it is the
-- index of its item.
pub record WeightList : Type 0 where
  pub item_list : List WeightItem
  pub next_size_iter : Option ℕ
  pub next_size_weight : ℕ

abbrev pub empty_list : WeightList
empty_list = record { item_list = []; next_size_iter = none; next_size_weight = 0 }

-- One round of the parse loop: an item and what stands behind its separator, or a refusal.
pub parse_item : Bytes → Option (WeightItem × Bytes)
parse_item str =
    let (s, p) = strtoul str in
    let (w, q) = strtoul (rest_of p) in
    if not (first p == b':')
    then none
    else if not (first q == b',') && not (first q == 0)
    then none
    else some
        (record { size = to_u32 s; weight = to_u32 w }, if first q == 0 then [] else rest_of q)

parse_items : ℕ → List WeightItem → Bytes → Option (List WeightItem)
parse_items zero items str = none
parse_items (suc f) items str = elim (parse_item str) [
  | none ↦ some []
  | some (w, more) ↦ elim (first more == 0) [
    | true ↦ some (items ++ (w ∷ []))
    | false ↦ parse_items f (items ++ (w ∷ [])) more
  ]
]

abbrev start_of : Option (List WeightItem) → WeightList
start_of none = empty_list
start_of (some []) = empty_list
start_of (some (w ∷ items)) = record {
  item_list = w ∷ items;
  next_size_iter = some 0;
  next_size_weight = 0;
}

-- config_weight_list::config_weight_list(const char *). Each round takes a byte at least.
unfoldable pub weight_list : Bytes → WeightList
unfolding parse_items parse_item
weight_list str = start_of (parse_items (suc (length str)) [] str)

-- config_weight_list::config_weight_list(const config_weight_list&)
unfoldable pub copy : WeightList → WeightList
copy l = record { item_list = l.item_list; next_size_iter = some 0; next_size_weight = 0 }

-- config_weight_list::operator= for another object
unfoldable pub assign : WeightList → WeightList → WeightList
assign l rhs = record {
  item_list = l.item_list ++ rhs.item_list;
  next_size_iter = some 0;
  next_size_weight = rhs.next_size_weight;
}

unfoldable pub list_is_defined : WeightList → Bool
list_is_defined l = ltb 0 (length l.item_list)

pub largest_from : ℕ → List WeightItem → ℕ
largest_from acc [] = acc
largest_from acc (w ∷ items) = largest_from (if ltb acc w.size then w.size else acc) items

unfoldable pub largest : WeightList → ℕ
unfolding largest_from
largest l = largest_from 0 l.item_list

-- The rounds of the loop in get_next_size from index `i`, with weight counter `k`. `none` is a read
-- past the end, or that the fuel ran out.
unfoldable pub next_from : ℕ → List WeightItem → ℕ → ℕ → Option (WeightItem × ℕ × ℕ)
next_from zero items i k = none
next_from (suc f) items i k = elim (get_elem? items i) [
  | none ↦ none
  | some w ↦ elim (leb w.weight k) [
    | true ↦ next_from f items (if suc i == length items then 0 else suc i) 0
    | false ↦ some (w, i, k)
  ]
]

abbrev advanced : WeightList → Option (WeightItem × ℕ × ℕ) → Option (ℕ × WeightList)
advanced l none = none
advanced l (some (w, i, k)) =
    some (w.size, record l { next_size_iter = some i; next_size_weight = suc k })

next_at : ℕ → WeightList → Option ℕ → Option (ℕ × WeightList)
next_at fuel l none = none
next_at fuel l (some i) = advanced l (next_from fuel l.item_list i l.next_size_weight)

-- config_weight_list::get_next_size, for `fuel` rounds of its loop at most.
unfoldable pub get_next_size : ℕ → WeightList → Option (ℕ × WeightList)
unfolding next_at
get_next_size fuel l = next_at fuel l l.next_size_iter

-- What print leaves: the text, NULL when the buffer is exactly full, or a write behind the buffer.
pub data Printed : Type 0 where
  printed : Bytes → Printed
  null : Printed
  overrun : Printed

abbrev pub print_item : Bool → WeightItem → Bytes
print_item is_first w =
    (if is_first then [] else b',' ∷ []) ++ (print_u w.size ++ (b':' ∷ print_u w.weight))

print_from : Bytes → ℕ → Bool → List WeightItem → Printed
print_from out room is_first [] = printed out
print_from out room is_first (w ∷ items) =
    let piece = print_item is_first w in
    if ltb (length piece) room
    then print_from (out ++ piece) (room - length piece) false items
    else if length piece == room
    then null
    else elim items [ [] ↦ printed (out ++ take (room - 1) piece) | _ ∷ _ ↦ overrun ]

-- config_weight_list::print. snprintf cuts the text of an item that does not fit, and returns its whole
-- length: the space left is then zero, or negative and taken for a huge number in the next round.
unfoldable pub print : ℕ → WeightList → Printed
unfolding print_from
print buf_len l = print_from [] buf_len true l.item_list
