-- ===== src/Tests/ObjGen.antt =====
-- The object generator with concrete parameters.
use memtier_skewsyn.Prelude.{
  ℕ, inl, inr, ◌+◌, ◌≤◌, ◌≡◌, refl, [], ◌∷◌, some, none, true, arith, Bytes, codes, length,
  replicate,
}
use memtier_skewsyn.CLib.{print_u}
use memtier_skewsyn.ObjGen.{
  Outside, Generator, size_range, no_object, key_random, key_gaussian, key_iter, get_key_index,
  get_key, key_text,
}
use memtier_skewsyn.ObjGen.Values.{get_value}
use memtier_skewsyn.ObjGen.Keys.{key_calls, get_key_index-cycles}
use memtier_skewsyn.ObjGen.Sizes.{IsReady, get_value-IsReady}

-- Random numbers that count up.
abbrev pub counting : Outside
counting = record {
  State = ℕ;
  initstate_r = λ seed. seed;
  random_r = λ s. (s, s + 1);
  gaussian = λ stddev median a b s. (a, s);
  sloped_size = λ k a b c d. c;
}

-- Keys from 5 to 7, and values of 3 to 9 bytes.
abbrev pub generator : Generator counting
generator = record {
  m_data_size = size_range 3 9;
  m_data_size_pattern = none;
  m_random_data = true;
  m_expiry_min = 0;
  m_expiry_max = 0;
  m_key_prefix = codes "memtier-";
  m_key_min = 5;
  m_key_max = 7;
  m_key_stddev = 0;
  m_key_median = 0;
  m_object = no_object;
  m_next_key = 0 ∷ 0 ∷ [];
  m_key_index = 0;
  m_key_buffer = [];
  m_value_buffer = replicate 9 b'x';
  m_value_buffer_mutation_pos = 8;
  m_random = 4;
}

get_key_index-cycles_example :
    (h h' : Generator counting) × (key_calls counting
        (key_iter 0 ∷ key_gaussian ∷ key_random ∷ key_iter 1 ∷ key_iter 0 ∷ [])
        generator
      ≡ some h)
    × (get_key_index counting (key_iter 0) h ≡ some (7, h'))
get_key_index-cycles_example =
    get_key_index-cycles counting generator
      (key_iter 0 ∷ key_gaussian ∷ key_random ∷ key_iter 1 ∷ key_iter 0 ∷ []) 0
      (record { ordered = omega arith; bounded = omega arith }) (omega arith) refl
      (omega arith, (inr (inl (refl, omega arith)), (tt, (omega arith, (omega arith, tt)))))
      (omega arith)

-- What iterator 0 hands out first, and iterator 1.
abbrev first_key : Bytes
first_key = codes "memtier-5"

abbrev after_first : Generator counting
after_first = record generator {
  m_next_key = 6 ∷ 0 ∷ [];
  m_key_index = 5;
  m_key_buffer = first_key;
}

first_drawn : get_key counting (key_iter 0) generator ≡ some (first_key, 9, after_first)
unfolding get_key get_key_index print_u key_text
first_drawn = refl

generator-IsReady : IsReady counting generator
generator-IsReady = record {
  allocated = refl;
  usable = (omega arith, omega arith, omega arith);
  no_slope = refl;
  in_buffer = λ _. omega arith;
}

get_value-IsReady_example :
    (buffer : Bytes) × (n : ℕ) × (h : Generator counting) × (get_value counting 6 generator
      ≡ some (buffer, n, h))
    × (n ≤ length buffer)
    × (buffer ≡ h.m_value_buffer)
    × IsReady counting h
get_value-IsReady_example = get_value-IsReady counting 6 generator generator-IsReady
