-- ===== src/ObjGen.antt =====
-- obj_gen.h and obj_gen.cpp: random_generator, object_generator and imported_keylist.
pub mod Cycle
pub mod Keys
pub mod KeyText
pub mod Draw
pub mod Import
pub mod Imported
pub mod Values
pub mod Sizes
pub mod Fill
use memtier_skewsyn.Prelude.{
  ℕ, zero, suc, ◌+◌, ◌-◌, ◌*◌, ◌%◌, ◌^◌, Bool, true, false, not, ◌&&◌, ◌||◌, List, [], ◌∷◌, ◌++◌,
  Option, none, some, Bytes, ltb, leb, ◌==◌, if◌then◌else◌, length, get_elem?, get_or, set, take,
  replicate,
}
use memtier_skewsyn.CLib.{u32_mod, u64_mod, to_u32, print_u, c_str, first}
use memtier_skewsyn.Config.{WeightList, copy, largest, get_next_size}

-- What the generator takes from outside: random_r and initstate_r of the C library, the floating point loop of
-- gaussian_noise::gaussian_distribution_range (standard deviation, median, least and greatest key), and the
-- one floating point expression for a size that grows with the key (index, least and greatest key, least
-- and greatest size).
pub record Outside : Type 1 where
  pub State : Type 0
  pub initstate_r : ℕ → State
  pub random_r : State → ℕ × State
  pub gaussian : ℕ → ℕ → ℕ → ℕ → State → ℕ × State
  pub sloped_size : ℕ → ℕ → ℕ → ℕ → ℕ → ℕ

-- enum data_size_type and the union that it selects from
pub data DataSize : Type 0 where
  size_unknown : DataSize
  size_fixed : ℕ → DataSize
  size_range : ℕ → ℕ → DataSize
  size_list : WeightList → DataSize

-- class data_object
pub record DataObject : Type 0 where
  pub m_key : Bytes
  pub m_key_len : ℕ
  pub m_value : Bytes
  pub m_value_len : ℕ
  pub m_expiry : ℕ

abbrev pub no_object : DataObject
no_object = record { m_key = []; m_key_len = 0; m_value = []; m_value_len = 0; m_expiry = 0 }

-- The argument iter of get_key: OBJECT_GENERATOR_KEY_RANDOM, _GAUSSIAN, or the number of an iterator.
pub data Iter : Type 0 where
  key_random key_gaussian : Iter
  key_iter : ℕ → Iter

-- OBJECT_GENERATOR_KEY_ITERATORS
abbrev pub key_iterators : ℕ
key_iterators = 2

-- The size of the value buffer; m_value_buffer_size is the length of m_value_buffer.
abbrev pub buffer_size : DataSize → ℕ
buffer_size size_unknown = 0
buffer_size (size_fixed n) = n
buffer_size (size_range size_min size_max) = size_max
buffer_size (size_list l) = largest l

-- One round of the loop that fills the value buffer with random data, by its three counters: the places of
-- buf1 and buf2 that the byte is made of, whether random bytes were read for them, and the counters.
pub record Filling : Type 0 where
  pub buf1_idx : ℕ
  pub buf2_idx : ℕ
  pub iter : ℕ
  pub reads : ℕ

abbrev pub start_filling : Filling
start_filling = record { buf1_idx = 64; buf2_idx = 64; iter = 0; reads = 0 }

unfoldable pub refill : Filling → Filling
refill f =
    if f.buf1_idx == 64
    then (if f.buf2_idx + 1 == 64
        then (if f.iter + 1 == 20
            then record { buf1_idx = 0; buf2_idx = 0; iter = 0; reads = f.reads + 1 }
            else record f { buf1_idx = 0; buf2_idx = f.buf2_idx + 1; iter = f.iter + 1 })
        else record f { buf1_idx = 0; buf2_idx = f.buf2_idx + 1 })
    else f

-- The counters before byte n, and those with which byte n is made.
unfoldable pub filling : ℕ → Filling
filling zero = start_filling
filling (suc n) = let f = refill (filling n) in record f { buf1_idx = f.buf1_idx + 1 }

abbrev pub byte_places : ℕ → Filling
byte_places n = refill (filling n)

-- snprintf of "%s%llu"
unfoldable pub key_text : Bytes → ℕ → Bytes
key_text prefix index = c_str prefix ++ print_u index

module _ (out : Outside) where
  -- class object_generator; the members of random_generator are m_random.
  pub record Generator : Type 0 where
    pub m_data_size : DataSize
    pub m_data_size_pattern : Option Bytes
    pub m_random_data : Bool
    pub m_expiry_min : ℕ
    pub m_expiry_max : ℕ
    pub m_key_prefix : Bytes
    pub m_key_min : ℕ
    pub m_key_max : ℕ
    pub m_key_stddev : ℕ
    pub m_key_median : ℕ
    pub m_object : DataObject
    pub m_next_key : List ℕ
    pub m_key_index : ℕ
    pub m_key_buffer : Bytes
    pub m_value_buffer : Bytes
    pub m_value_buffer_mutation_pos : ℕ
    pub m_random : out.State

  -- random_generator::set_seed
  unfoldable pub set_seed : ℕ → out.State
  set_seed seed = out.initstate_r ((seed + 1) % u32_mod)

  -- random_generator::get_random; random_r gives 31 bits, so that the two numbers share no bit.
  unfoldable pub get_random : out.State → ℕ × out.State
  get_random s =
      let (high, s1) = out.random_r s in
      let (low, s2) = out.random_r s1 in ((high * 2 ^ 32 + low) % u64_mod, s2)

  -- object_generator::object_generator
  unfoldable pub new_generator : Generator
  unfolding set_seed
  new_generator = record {
    m_data_size = size_unknown;
    m_data_size_pattern = none;
    m_random_data = false;
    m_expiry_min = 0;
    m_expiry_max = 0;
    m_key_prefix = [];
    m_key_min = 0;
    m_key_max = 0;
    m_key_stddev = 0;
    m_key_median = 0;
    m_object = no_object;
    m_next_key = replicate key_iterators 0;
    m_key_index = 0;
    m_key_buffer = [];
    m_value_buffer = [];
    m_value_buffer_mutation_pos = 0;
    m_random = set_seed 0;
  }

  -- object_generator::alloc_value_buffer; `bytes` stands for the random data, of which there is enough.
  unfoldable pub alloc_value_buffer : Bytes → Generator → Generator
  alloc_value_buffer bytes g =
      let size = buffer_size g.m_data_size in
      record g { m_value_buffer = if g.m_random_data then take size bytes else replicate size b'x' }

  abbrev copied_size : DataSize → DataSize
  copied_size size_unknown = size_unknown
  copied_size (size_fixed n) = size_fixed n
  copied_size (size_range a b) = size_range a b
  copied_size (size_list l) = size_list (copy l)

  -- object_generator::object_generator(const object_generator&), with the random numbers of seed 0 and
  -- the key iterators at 0
  unfoldable pub copy_generator : Generator → Generator
  unfolding set_seed
  copy_generator g = record g {
    m_data_size = copied_size g.m_data_size;
    m_object = no_object;
    m_next_key = replicate key_iterators 0;
    m_key_index = 0;
    m_key_buffer = [];
    m_value_buffer = take (buffer_size g.m_data_size) g.m_value_buffer;
    m_value_buffer_mutation_pos = 0;
    m_random = set_seed 0;
  }

  unfoldable pub set_data_size : Bytes → DataSize → Generator → Generator
  unfolding alloc_value_buffer
  set_data_size bytes size g =
      alloc_value_buffer bytes (record g { m_data_size = copied_size size })

  -- object_generator::set_key_range
  unfoldable pub set_key_range : ℕ → ℕ → Generator → Generator
  set_key_range key_min key_max g = record g { m_key_min = key_min; m_key_max = key_max }

  -- object_generator::set_key_distribution, for doubles that are whole numbers
  unfoldable pub set_key_distribution : ℕ → ℕ → Generator → Generator
  set_key_distribution key_stddev key_median g = record g {
    m_key_stddev = key_stddev;
    m_key_median = key_median;
  }

  -- object_generator::set_expiry_range
  unfoldable pub set_expiry_range : ℕ → ℕ → Generator → Generator
  set_expiry_range expiry_min expiry_max g = record g {
    m_expiry_min = expiry_min;
    m_expiry_max = expiry_max;
  }

  -- object_generator::random_range; a range of 2^64 numbers, or one that is a number short of empty,
  -- divides by zero.
  unfoldable pub random_range : ℕ → ℕ → Generator → Option (ℕ × Generator)
  unfolding get_random
  random_range r_min r_max g =
      let (rn, s) = get_random g.m_random in
      let span = (r_max + u64_mod - r_min + 1) % u64_mod in
      if span == 0 then none else some ((rn % span + r_min) % u64_mod, record g { m_random = s })

  -- Twice the median, which is a whole number also for the median of the range that 0 stands for
  abbrev pub twice_median : ℕ → ℕ → ℕ → ℕ
  twice_median median key_min key_max =
      if median == 0 then (key_max + u64_mod - key_min) % u64_mod + 2 * key_min + 1 else 2 * median

  -- gaussian_noise::gaussian_distribution_range, with the arithmetic of the assertion exact and doubled; a
  -- refused assertion is `none`.
  unfoldable pub gaussian_distribution_range : ℕ → ℕ → ℕ → ℕ → out.State → Option (ℕ × out.State)
  gaussian_distribution_range stddev median key_min key_max s =
      let twice = twice_median median key_min key_max in
      if key_min == key_max
      then some (key_min, s)
      else if ltb (2 * key_min) twice && ltb twice (2 * key_max)
      then some (out.gaussian stddev median key_min key_max s)
      else none

  abbrev pub with_random : Generator → Option (ℕ × out.State) → Option (ℕ × Generator)
  with_random g none = none
  with_random g (some (k, s)) = some (k, record g { m_random = s })

  abbrev next_key : ℕ → Generator → ℕ
  next_key i g = let k = get_or g.m_next_key i 0 in if ltb k g.m_key_min then g.m_key_min else k

  abbrev key_after : ℕ → Generator → ℕ
  key_after k g = let next = (k + 1) % u64_mod in if ltb g.m_key_max next then g.m_key_min else next

  -- object_generator::get_key_index; a refused assertion is `none`.
  unfoldable pub get_key_index : Iter → Generator → Option (ℕ × Generator)
  unfolding random_range gaussian_distribution_range
  get_key_index key_random g = random_range g.m_key_min g.m_key_max g
  get_key_index key_gaussian g =
      with_random g (
        gaussian_distribution_range g.m_key_stddev g.m_key_median g.m_key_min g.m_key_max
          g.m_random)
  get_key_index (key_iter i) g =
      let k = next_key i g in
      if leb key_iterators i
      then none
      else some (k, record g { m_next_key = set g.m_next_key i (key_after k g) })

  abbrev with_key : Option (ℕ × Generator) → Option (Bytes × ℕ × Generator)
  with_key none = none
  with_key (some (k, g)) =
      let text = key_text g.m_key_prefix k in
      let buffer = take 248 text in
      some (buffer, to_u32 (length text), record g { m_key_index = k; m_key_buffer = buffer })

  -- object_generator::get_key: the text in the buffer of 250 bytes, and the length, which is that of
  -- the text before it is cut.
  unfoldable pub get_key : Iter → Generator → Option (Bytes × ℕ × Generator)
  unfolding get_key_index
  get_key iter g = with_key (get_key_index iter g)

-- imported_keylist::get
unfoldable pub imported_key : List Bytes → ℕ → Option Bytes
imported_key keys pos = get_elem? keys pos
