-- ===== src/Config/RoundTrip.antt =====
-- What the option parsers of config_types.cpp read back from printed options.
use memtier_skewsyn.Prelude.{
  ℕ, zero, suc, ◌+◌, ◌-◌, ◌^◌, ◌≤◌, ◌<◌, ◌≡◌, refl, ap, ◌∙◌, true, false, List, [], ◌∷◌, ◌++◌, some,
  append-nil, append_assoc, arith, Bytes, ltb, leb, ◌==◌, if◌then◌else◌, length, length-append, All,
}
use memtier_skewsyn.CLib.{first, u32_mod, print_u}
use memtier_skewsyn.CLib.Decimal.{strtoul-print_u, strtoul-print_u_end, first-print_u}
use memtier_skewsyn.Config.{
  config_range, config_ratio, WeightItem, WeightList, parse_item, parse_items, weight_list, copy,
  print_item, printed, print_from, print,
}

abbrev least : ℕ → ℕ → ℕ
least a b = if leb a b then a else b

abbrev greatest : ℕ → ℕ → ℕ
greatest a b = if leb a b then b else a

-- A range "A-B" of two ints that are not negative is read in either order: the smaller number becomes
-- the minimum.
pub config_range_ordered :
    (a b : ℕ)
    → a < 2 ^ 31
    → b < 2 ^ 31
    → config_range (print_u a ++ (b'-' ∷ print_u b))
      ≡ record { min = least a b; max = greatest a b }
unfolding config_range
config_range_ordered a b ha hb = ground (
  arith,
  strtoul-print_u a (b'-' ∷ print_u b) (omega arith) refl,
  strtoul-print_u_end b (omega arith),
)

-- A ratio "A:B" is read back.
pub config_ratio-print_u :
    (a b : ℕ)
    → a < u32_mod
    → b < u32_mod
    → config_ratio (print_u a ++ (b':' ∷ print_u b)) ≡ record { a = a; b = b }
unfolding config_ratio
config_ratio-print_u a b ha hb = ground (
  arith,
  strtoul-print_u a (b':' ∷ print_u b) (omega arith) refl,
  strtoul-print_u_end b (omega arith),
)

abbrev pub Fits : WeightItem → Type 0
Fits w = (w.size < u32_mod) × (w.weight < u32_mod)

abbrev item_text : WeightItem → Bytes
item_text w = print_u w.size ++ (b':' ∷ print_u w.weight)

abbrev commas : List WeightItem → Bytes
commas [] = []
commas (w ∷ items) = b',' ∷ (item_text w ++ commas items)

-- "S1:W1,S2:W2,…"
abbrev pub list_text : WeightItem → List WeightItem → Bytes
list_text w items = item_text w ++ commas items

parse_item_last : (w : WeightItem) → Fits w → parse_item (item_text w) ≡ some (w, [])
unfolding parse_item
parse_item_last w (hs, hw) = ground (
  arith,
  strtoul-print_u w.size (b':' ∷ print_u w.weight) (omega arith) refl,
  strtoul-print_u_end w.weight (omega arith),
)

parse_item_next :
    (w : WeightItem) (rest : Bytes)
    → Fits w
    → parse_item (item_text w ++ (b',' ∷ rest)) ≡ some (w, rest)
unfolding parse_item
parse_item_next w rest (hs, hw) = rw append_assoc (
    ground (
      arith,
      strtoul-print_u w.size (b':' ∷ (print_u w.weight ++ (b',' ∷ rest))) (omega arith) refl,
      strtoul-print_u w.weight (b',' ∷ rest) (omega arith) refl,
    ))

first-list_text :
    (w : WeightItem) (items : List WeightItem) → (first (list_text w items) == 0) ≡ false
first-list_text w items =
    let (c, cs, e, d) = first-print_u w.size (b':' ∷ (print_u w.weight ++ commas items)) in
    rw (append_assoc, e) (ground arith)

append-list_text :
    (w v : WeightItem) (items : List WeightItem)
    → list_text w (v ∷ items) ≡ item_text w ++ (b',' ∷ list_text v items)
append-list_text w v items = refl

parse_items-list_text :
    (f : ℕ) (acc : List WeightItem) (w : WeightItem) (items : List WeightItem)
    → length items < f
    → Fits w
    → All Fits items
    → parse_items f acc (list_text w items) ≡ some (acc ++ (w ∷ items))
unfolding parse_items
parse_items-list_text zero acc w items h fit fits = elim h [ ]
parse_items-list_text (suc f) acc w [] h fit fits =
    rw append-nil (rw (parse_item_last w fit, parse_items))
parse_items-list_text (suc f) acc w (v ∷ items) h fit (fv, fits) = rw (append-list_text w v items) (
    rw (parse_item_next w (list_text v items) fit, parse_items)
      (rw (first-list_text v items, parse_items)
        (parse_items-list_text f (acc ++ (w ∷ [])) v items (omega arith) fv fits
          ∙ ap some (append_assoc acc (w ∷ []) (v ∷ items)))))

print_from-commas :
    (items : List WeightItem) (out : Bytes) (room : ℕ)
    → length (commas items) < room
    → print_from out room false items ≡ printed (out ++ commas items)
unfolding print_from
print_from-commas [] out room h = rw append-nil
print_from-commas (w ∷ items) out room h =
    let piece = print_item false w in
    let whole : length (commas (w ∷ items)) ≡ length piece + length (commas items) =
      length-append piece (commas items) in
    rw (let fits : ltb (length piece) room ≡ true = ground arith in fits) (
      print_from-commas items (out ++ piece) (room - length piece) (omega (arith, whole))
      ∙ ap printed (append_assoc out piece (commas items)))

length-commas : (items : List WeightItem) → length items ≤ length (commas items)
length-commas [] = omega arith
length-commas (w ∷ items) =
    omega (arith, length-append (item_text w) (commas items), length-commas items)

print-list_text :
    (w : WeightItem) (items : List WeightItem) (l : WeightList) (n : ℕ)
    → l.item_list ≡ w ∷ items
    → length (list_text w items) < n
    → print n l ≡ printed (list_text w items)
unfolding print print_from
print-list_text w items l n e h =
    let whole = length-append (item_text w) (commas items) in
    rw (e, print)
      (rw (let fits : ltb (length (item_text w)) n ≡ true = ground arith in fits)
        (print_from-commas items (item_text w) (n - length (item_text w)) (omega (arith, whole))))

-- A weight list whose text is shorter than the buffer is printed in full, and the printed text is parsed
-- into a list of the same items that starts at its first item, as a copy does.
pub weight_list-print :
    (w : WeightItem) (items : List WeightItem) (l : WeightList) (n : ℕ)
    → l.item_list ≡ w ∷ items
    → Fits w
    → All Fits items
    → length (list_text w items) < n
    → (s : Bytes) × (print n l ≡ printed s) × (weight_list s ≡ copy l)
unfolding weight_list copy
weight_list-print w items l n e fit fits h =
    let s = list_text w items in
    let enough = length-append (item_text w) (commas items) in
    let read =
      parse_items-list_text (suc (length s)) [] w items (omega (arith, enough, length-commas items))
        fit fits in
    (s, print-list_text w items l n e h, rw (e, weight_list) (rw read))
