-- ===== src/Tests/Files.antt =====
-- Two items of a data file, one with quotes in its key and its data.
use memtier_skewsyn.Prelude.{
  suc, ◌≡◌, refl, true, false, List, [], ◌∷◌, ◌++◌, arith, Bytes, codes, map, length,
}
use memtier_skewsyn.FileIo.{Item, item_some, write_item, read_item, file_header}
use memtier_skewsyn.FileIo.RoundTrip.{Numbers, Fit, item_of, write_item-read_item}
use memtier_skewsyn.ObjGen.Import.{imported, import_fuel, key_of, read_keys, read_keys_loop}
use memtier_skewsyn.ObjGen.Imported.{IsStorable, written, read_keys-written, read_keys-malformed}

abbrev numbers : Numbers
numbers = record {
  dumpflags = 0;
  time = 1700000000;
  exptime = 3600;
  nsuffix = 10;
  flags = 2;
  clsid = 1;
}

numbers-Fit : Fit numbers
numbers-Fit = record {
  dumpflags = omega arith;
  time = omega arith;
  exptime = omega arith;
  nsuffix = omega arith;
  flags = omega arith;
  clsid = omega arith;
}

-- The key is k"1, the data are v, "2".
abbrev key_tail : Bytes
key_tail = b'"' ∷ b'1' ∷ []

abbrev data_tail : Bytes
data_tail = b',' ∷ b' ' ∷ b'"' ∷ b'2' ∷ b'"' ∷ []

abbrev quoted_item : Item
quoted_item = item_of numbers (b'k' ∷ key_tail) (b'v' ∷ data_tail)

write_item-read_item_example :
    ((write_item quoted_item).0 ≡ true)
    × (read_item (record { left = (write_item quoted_item).1 ++ codes "0, 1"; at_eof = false })
        ≡ item_some quoted_item (record { left = codes "0, 1"; at_eof = false }))
write_item-read_item_example =
    write_item-read_item numbers numbers-Fit b'k' key_tail b'v' data_tail (refl, (refl, (refl, tt)))
      (omega arith) (omega arith) (codes "0, 1")

quoted-IsStorable : IsStorable quoted_item
quoted-IsStorable = record {
  numbers = numbers;
  fit = numbers-Fit;
  key_head = b'k';
  key_tail = key_tail;
  data_head = b'v';
  data_tail = data_tail;
  no_zero = (refl, (refl, (refl, tt)));
  key_small = omega arith;
  data_small = omega arith;
  is_item = refl;
}

abbrev items : List Item
items = quoted_item ∷ quoted_item ∷ []

read_keys-written_example :
    read_keys (suc (suc (length items))) (file_header ++ written items)
    ≡ imported (map key_of items)
read_keys-written_example = read_keys-written items (quoted-IsStorable, (quoted-IsStorable, tt))

read_keys-malformed_example :
    read_keys_loop 1000 (record { left = codes "# a comment"; at_eof = false }) [] ≡ import_fuel
read_keys-malformed_example = read_keys-malformed 1000 b'#' (codes " a comment") [] refl
