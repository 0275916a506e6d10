-- ===== src/ObjGen/Values.antt =====
-- The sizes, values and objects that object_generator makes.
use memtier_skewsyn.Prelude.{
  ℕ, suc, ◌+◌, ◌%◌, Bool, false, Option, none, some, Bytes, ltb, leb, ◌==◌, if◌then◌else◌, length,
  get_or, set,
}
use memtier_skewsyn.CLib.{to_u32, c_str, first}
use memtier_skewsyn.Config.{WeightList, get_next_size}
use memtier_skewsyn.ObjGen.{
  Outside, Generator, DataSize, size_unknown, size_fixed, size_range, size_list, DataObject, Iter,
  random_range, get_key,
}

module _ (out : Outside) where
  -- m_data_size_pattern && *m_data_size_pattern == 'S'
  abbrev pub is_sloped : Option Bytes → Bool
  is_sloped none = false
  is_sloped (some pattern) = first pattern == b'S'

  abbrev as_unsigned : Option (ℕ × Generator out) → Option (ℕ × Generator out)
  as_unsigned none = none
  as_unsigned (some (n, g)) = some (to_u32 n, g)

  abbrev pub ranged_size : ℕ → ℕ → ℕ → Generator out → Option (ℕ × Generator out)
  ranged_size k size_min size_max g =
      if is_sloped g.m_data_size_pattern
      then some (out.sloped_size k g.m_key_min g.m_key_max size_min size_max, g)
      else as_unsigned (random_range out (if ltb 0 size_min then size_min else 1) size_max g)

  abbrev pub listed_size : Generator out → Option (ℕ × WeightList) → Option (ℕ × Generator out)
  listed_size g none = none
  listed_size g (some (n, l)) = some (n, record g { m_data_size = size_list l })

  -- The part of get_object and get_value that computes the size for the key of index k.
  unfoldable pub size_of : DataSize → ℕ → Generator out → Option (ℕ × Generator out)
  unfolding random_range get_next_size
  size_of size_unknown k g = none
  size_of (size_fixed n) k g = some (n, g)
  size_of (size_range size_min size_max) k g = ranged_size k size_min size_max g
  size_of (size_list l) k g =
      listed_size g (get_next_size (suc (length l.item_list + length l.item_list)) l)

  unfoldable pub new_size : ℕ → Generator out → Option (ℕ × Generator out)
  unfolding size_of
  new_size k g = size_of g.m_data_size k g

  -- object_generator::get_expiry
  unfoldable pub get_expiry : Generator out → Option (ℕ × Generator out)
  unfolding random_range
  get_expiry g =
      if ltb 0 g.m_expiry_max then random_range out g.m_expiry_min g.m_expiry_max g else some (0, g)

  -- m_value_buffer[m_value_buffer_mutation_pos++]++, and the place goes back to 0 behind the buffer
  -- `none` is a place that is not in the buffer.
  unfoldable pub mutate : Generator out → Option (Generator out)
  mutate g =
      let p = g.m_value_buffer_mutation_pos in
      if g.m_random_data
      then (if ltb p (length g.m_value_buffer)
          then some (record g {
            m_value_buffer = set g.m_value_buffer p ((get_or g.m_value_buffer p 0 + 1) % 256);
            m_value_buffer_mutation_pos =
                if leb (length g.m_value_buffer) (p + 1) then 0 else p + 1;
          })
          else none)
      else some g

  abbrev set_object : ℕ → Option (ℕ × Generator out) → Option (DataObject × Generator out)
  set_object size none = none
  set_object size (some (expiry, g)) =
      let object : DataObject = record {
        m_key = g.m_key_buffer;
        m_key_len = length (c_str g.m_key_buffer);
        m_value = g.m_value_buffer;
        m_value_len = size;
        m_expiry = to_u32 expiry;
      } in
      some (object, record g { m_object = object })

  abbrev mutated : Option (ℕ × Generator out) → Option (ℕ × Generator out)
  mutated none = none
  mutated (some (expiry, g)) = elim (mutate g) [ none ↦ none | some g' ↦ some (expiry, g') ]

  abbrev sized_object : Option (ℕ × Generator out) → Option (DataObject × Generator out)
  sized_object none = none
  sized_object (some (size, g)) = set_object size (mutated (get_expiry g))

  abbrev keyed_object : Option (Bytes × ℕ × Generator out) → Option (DataObject × Generator out)
  keyed_object none = none
  keyed_object (some (_, _, g)) = sized_object (new_size g.m_key_index g)

  -- object_generator::get_object
  unfoldable pub get_object : Iter → Generator out → Option (DataObject × Generator out)
  unfolding get_key new_size get_expiry mutate
  get_object iter g = keyed_object (get_key out iter g)

  abbrev pub sized_value : Option (ℕ × Generator out) → Option (Bytes × ℕ × Generator out)
  sized_value none = none
  sized_value (some (size, g)) = elim (mutate g) [
    | none ↦ none
    | some g' ↦ some (g'.m_value_buffer, size, g')
  ]

  -- object_generator::get_value: the buffer and the length.
  unfoldable pub get_value : ℕ → Generator out → Option (Bytes × ℕ × Generator out)
  unfolding new_size mutate
  get_value key_index g = sized_value (new_size key_index g)
