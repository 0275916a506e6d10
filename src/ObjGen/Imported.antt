-- ===== src/ObjGen/Imported.antt =====
-- imported_keylist::read_keys on a file that the file writer has written.
use memtier_skewsyn.Prelude.{
  ℕ, zero, suc, ◌+◌, ◌<◌, ◌≡◌, refl, sym, ap, ◌∙◌, true, false, List, [], ◌∷◌, ◌++◌, Bytes, length,
  map, ◌||◌, ◌==◌, arith, append-nil, append_assoc, All,
}
use memtier_skewsyn.CLib.{u32_mod, scan_u, strtoul, skip_space, is_space, is_digit}
use memtier_skewsyn.FileIo.{
  Item, item_some, item_null, read_item, write_item, file_header, scan_values,
}
use memtier_skewsyn.FileIo.RoundTrip.{Numbers, Fit, NoZero, item_of, write_item-read_item}
use memtier_skewsyn.ObjGen.Import.{imported, import_fuel, key_of, read_keys_loop, read_keys}

-- An item that the writer can store
pub record IsStorable (i : Item) : Type 0 where
  pub numbers : Numbers
  pub fit : Fit numbers
  pub key_head : ℕ
  pub key_tail : Bytes
  pub data_head : ℕ
  pub data_tail : Bytes
  pub no_zero : NoZero (key_head ∷ key_tail)
  pub key_small : length (key_head ∷ key_tail) + 1 < u32_mod
  pub data_small : length (data_head ∷ data_tail) + 2 < u32_mod
  pub is_item : i ≡ item_of numbers (key_head ∷ key_tail) (data_head ∷ data_tail)

-- The content of a file with the items
abbrev pub written : List Item → Bytes
written [] = []
written (i ∷ is) = (write_item i).1 ++ written is

read_one :
    (i : Item) (rest : Bytes)
    → IsStorable i
    → read_item (record { left = (write_item i).1 ++ rest; at_eof = false })
      ≡ item_some i (record { left = rest; at_eof = false })
read_one i rest s = rw s.is_item (
    (write_item-read_item s.numbers s.fit s.key_head s.key_tail s.data_head s.data_tail s.no_zero
      s.key_small s.data_small rest).1)

read_end :
    read_item (record { left = []; at_eof = false })
    ≡ item_null (record { left = []; at_eof = true })
unfolding read_item scan_values scan_u strtoul skip_space
read_end = refl

loop_lem :
    (items : List Item) (keys : List Bytes)
    → All IsStorable items
    → read_keys_loop
        (suc (suc (length items)))
        (record { left = written items; at_eof = false })
        keys
      ≡ imported (keys ++ map key_of items)
unfolding read_keys_loop
loop_lem [] keys h = rw (read_end, read_keys_loop) (ap imported (sym (append-nil keys)))
loop_lem (i ∷ is) keys (h, hs) =
    rw (read_one i (written is) h, read_keys_loop)
      (loop_lem is (keys ++ (key_of i ∷ [])) hs
        ∙ ap imported (append_assoc keys (key_of i ∷ []) (map key_of is)))

-- Of a file with the header and items that the writer can store, all of them written, read_keys gives the keys in
-- order, in two rounds more than there are items.
pub read_keys-written :
    (items : List Item)
    → All IsStorable items
    → read_keys (suc (suc (length items))) (file_header ++ written items)
      ≡ imported (map key_of items)
unfolding read_keys
read_keys-written items h = loop_lem items [] h

-- A line that does not start with a number
abbrev pub IsMalformed : ℕ → Type 0
IsMalformed c = (is_space c || is_digit c || c == b'+' || c == b'-') ≡ false

scan_stuck : (c : ℕ) (cs : Bytes) → IsMalformed c → scan_values 8 (c ∷ cs) ≡ ([], c ∷ cs)
unfolding scan_values scan_u skip_space
scan_stuck c cs h = ground arith

read_stuck :
    (c : ℕ) (cs : Bytes)
    → IsMalformed c
    → read_item (record { left = c ∷ cs; at_eof = false })
      ≡ item_null (record { left = c ∷ cs; at_eof = false })
unfolding read_item
read_stuck c cs h = rw (scan_stuck c cs h) refl

-- At a line that does not start with a number, a space or a sign, read_keys does not return: read_item leaves the line
-- in the file and gives NULL, which the loop passes over for ever.
pub read_keys-malformed :
    (fuel c : ℕ) (cs : Bytes) (keys : List Bytes)
    → IsMalformed c
    → read_keys_loop fuel (record { left = c ∷ cs; at_eof = false }) keys ≡ import_fuel
unfolding read_keys_loop
read_keys-malformed zero c cs keys h = refl
read_keys-malformed (suc fuel) c cs keys h =
    rw (read_stuck c cs h, read_keys_loop) (read_keys-malformed fuel c cs keys h)
