-- ===== src/ObjGen/Import.antt =====
-- imported_keylist::read_keys and import_object_generator of obj_gen.cpp, over the file reader.
use memtier_skewsyn.Prelude.{
  ℕ, zero, suc, ◌+◌, ◌-◌, Bool, true, false, List, [], ◌∷◌, ◌++◌, Option, none, some, Bytes, ltb,
  if◌then◌else◌, length, take,
}
use memtier_skewsyn.CLib.{u32_mod, to_u32}
use memtier_skewsyn.FileIo.{
  Item, Stream, item_some, item_null, item_crash, read_item, open_reader, data_len,
}
use memtier_skewsyn.ObjGen.{
  Outside, Generator, DataObject, Iter, get_key_index, get_key, random_range, imported_key,
}

-- How read_keys ends: with the keys; with false, where the file does not open; or it fails in read_item, or for want
-- of fuel in the model.
pub data Import : Type 0 where
  imported : List Bytes → Import
  not_opened import_crash import_fuel : Import

-- The copy of the key of an item
abbrev pub key_of : Item → Bytes
key_of i = take i.m_nkey i.m_key

-- The loop of imported_keylist::read_keys, for `fuel` items at most
unfoldable pub read_keys_loop : ℕ → Stream → List Bytes → Import
read_keys_loop zero f keys = import_fuel
read_keys_loop (suc fuel) f keys = elim f.at_eof [
  | true ↦ imported keys
  | false ↦ elim (read_item f) [
    | item_some i f' ↦ read_keys_loop fuel f' (keys ++ (key_of i ∷ []))
    | item_null f' ↦ read_keys_loop fuel f' keys
    | item_crash ↦ import_crash
  ]
]

-- imported_keylist::read_keys of the content of a file
unfoldable pub read_keys : ℕ → Bytes → Import
unfolding read_keys_loop open_reader
read_keys fuel content = elim (open_reader content) [
  | none ↦ not_opened
  | some f ↦ read_keys_loop fuel f []
]

module _ (out : Outside) where
  -- class import_object_generator, with the content of its file
  pub record ImportGenerator : Type 0 where
    pub base : Generator out
    pub m_keys : Option (List Bytes)
    pub m_content : Bytes
    pub m_reader : Stream
    pub m_no_expiry : Bool

  abbrev with_list : Option (List Bytes) → Generator out → Generator out
  with_list none g = g
  with_list (some keys) g = record g { m_key_min = 1; m_key_max = to_u32 (length keys) }

  -- import_object_generator::import_object_generator and open_file, if the file opens
  unfoldable pub new_import :
      Generator out → Option (List Bytes) → Bytes → Bool → Option ImportGenerator
  new_import g keys content no_expiry = elim (open_reader content) [
    | none ↦ none
    | some f ↦ some (record {
      base = with_list keys g;
      m_keys = keys;
      m_content = content;
      m_reader = f;
      m_no_expiry = no_expiry;
    })
  ]

  abbrev listed_key :
      List Bytes
      → ImportGenerator
      → Option (ℕ × Generator out)
      → Option (Option Bytes × ImportGenerator)
  listed_key keys g none = none
  listed_key keys g (some (k, b)) =
      some (imported_key keys (to_u32 (k + u32_mod - 1)), record g { base = b })

  abbrev based_key :
      ImportGenerator → Option (Bytes × ℕ × Generator out) → Option (Option Bytes × ImportGenerator)
  based_key g none = none
  based_key g (some (key, _, b)) = some (some key, record g { base = b })

  -- import_object_generator::get_key; an index outside of the list gives NULL.
  unfoldable pub import_key : Iter → ImportGenerator → Option (Option Bytes × ImportGenerator)
  import_key iter g = elim g.m_keys [
    | none ↦ based_key g (get_key out iter g.base)
    | some keys ↦ listed_key keys g (get_key_index out iter g.base)
  ]

  -- The next item, from the start of the file again behind its end; no item fails the assertion.
  unfoldable pub first_item : Bytes → Option (Item × Stream)
  first_item content = elim (open_reader content) [
    | none ↦ none
    | some f ↦ elim (read_item f) [
      | item_some i f' ↦ some (i, f')
      | item_null f' ↦ none
      | item_crash ↦ none
    ]
  ]

  unfoldable pub next_item : ImportGenerator → Option (Item × Stream)
  next_item g = elim (read_item g.m_reader) [
    | item_some i f ↦ some (i, f)
    | item_null f ↦ elim f.at_eof [ true ↦ first_item g.m_content | false ↦ none ]
    | item_crash ↦ none
  ]

  -- The key of an object
  abbrev keyed : Iter → Item → ImportGenerator → Option (DataObject × ImportGenerator)
  keyed iter i g = elim g.m_keys [
    | some keys ↦ some (record g.base.m_object { m_key = i.m_key; m_key_len = i.m_nkey }, g)
    | none ↦ elim (get_key out iter g.base) [
      | none ↦ none
      | some (key, len, b) ↦
          some (record b.m_object { m_key = key; m_key_len = len }, record g { base = b })
    ]
  ]

  -- The expiry of an object
  abbrev expiring : Item → DataObject × ImportGenerator → Option (DataObject × ImportGenerator)
  expiring i (obj, g) =
      if g.m_no_expiry
      then some (obj, g)
      else if ltb 0 g.base.m_expiry_max
      then elim (random_range out g.base.m_expiry_min g.base.m_expiry_max g.base) [
        | none ↦ none
        | some (n, b) ↦ some (record obj { m_expiry = to_u32 n }, record g { base = b })
      ]
      else some (record obj { m_expiry = to_u32 i.m_exptime }, g)

  abbrev remembered : Option (DataObject × ImportGenerator) → Option (DataObject × ImportGenerator)
  remembered none = none
  remembered (some (obj, g)) = some (obj, record g { base = record g.base { m_object = obj } })

  abbrev expired :
      Item → Option (DataObject × ImportGenerator) → Option (DataObject × ImportGenerator)
  expired i none = none
  expired i (some (obj, g)) = expiring i (
    record obj { m_value = take (data_len i.m_nbytes) i.m_data; m_value_len = data_len i.m_nbytes },
    g,
  )

  -- import_object_generator::get_object
  unfoldable pub import_object : Iter → ImportGenerator → Option (DataObject × ImportGenerator)
  unfolding next_item first_item
  import_object iter g = elim (next_item g) [
    | none ↦ none
    | some (i, f) ↦ remembered (expired i (keyed iter i (record g { m_reader = f })))
  ]
