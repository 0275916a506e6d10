-- ===== src/Protocol/Keylist/Reads.antt =====
-- A keylist gives back the keys that were added to it.
use memtier_skewsyn.Prelude.{
  ℕ, zero, suc, ◌+◌, ◌*◌, ◌<◌, ◌≤◌, ◌≡◌, ◌≢◌, refl, sym, ap, ◌∙◌, inl, inr, true, false, List, [],
  ◌∷◌, ◌++◌, Option, none, some, arith, Bytes, ltb, leb, Bool-cases, length, get_elem?, set, take,
  drop, length-append, length-take, length-drop, length-set, length-replicate, get_elem?-set_self,
  get_elem?-set_ne, take_append, append_assoc, append-nil, All,
}
use memtier_skewsyn.CLib.{u32_mod}
use memtier_skewsyn.Protocol.Keylist.{
  KeyEntry, Keylist, new_keylist, write_at, read_at, Added, added, full, stale, add_key, get_key,
  clear,
}

drop_written : (place : ℕ) (b s : Bytes) → place ≤ length b → drop place (take place b ++ s) ≡ s
drop_written zero b s h = refl
drop_written (suc place) [] s h = elim h [ ]
drop_written (suc place) (c ∷ b) s h = drop_written place b s (omega arith)

take_before : (n q : ℕ) (b s : Bytes) → n ≤ q → q ≤ length b → take n (take q b ++ s) ≡ take n b
take_before zero q b s h k = refl
take_before (suc n) zero b s h k = elim h [ ]
take_before (suc n) (suc q) [] s h k = elim k [ ]
take_before (suc n) (suc q) (c ∷ b) s h k =
    ap (◌∷◌ c) (take_before n q b s (omega arith) (omega arith))

read_before :
    (p n q : ℕ) (b s : Bytes)
    → p + n ≤ q
    → q ≤ length b
    → take n (drop p (take q b ++ s)) ≡ take n (drop p b)
read_before zero n q b s h k = take_before n q b s (omega arith) k
read_before (suc p) n zero b s h k = absurd (let z : ¬ (suc p + n ≤ 0) = omega arith in z h)
read_before (suc p) n (suc q) [] s h k = elim k [ ]
read_before (suc p) n (suc q) (c ∷ b) s h k = read_before p n q b s (omega arith) (omega arith)

get_elem?-front :
    (keys : List Bytes) (key : Bytes) (i : ℕ)
    → i < length keys
    → get_elem? (keys ++ (key ∷ [])) i ≡ get_elem? keys i
get_elem?-front [] key i h = elim h [ ]
get_elem?-front (k ∷ keys) key zero h = refl
get_elem?-front (k ∷ keys) key (suc i) h = get_elem?-front keys key i (omega arith)

get_elem?-back :
    (keys : List Bytes) (key : Bytes) → get_elem? (keys ++ (key ∷ [])) (length keys) ≡ some key
get_elem?-back [] key = refl
get_elem?-back (k ∷ keys) key = get_elem?-back keys key

get_elem?-beyond : (keys : List Bytes) (i : ℕ) → length keys ≤ i → get_elem? keys i ≡ none
get_elem?-beyond [] i h = refl
get_elem?-beyond (k ∷ keys) zero h = elim h [ ]
get_elem?-beyond (k ∷ keys) (suc i) h = get_elem?-beyond keys i (omega arith)

-- The buffer holds the key of an entry, before the place where the next key goes.
record Stands (k : Keylist) (i : ℕ) (key : Option Bytes) : Type 0 where
  entry : KeyEntry
  found : get_elem? k.m_keys i ≡ some entry
  before : entry.key_ptr + entry.key_len ≤ k.m_buffer_ptr
  reads : some (read_at entry.key_ptr entry.key_len k.m_buffer) ≡ key

-- The keylist that was made for max_keys keys and holds these.
pub record IsBuilt (max_keys : ℕ) (keys : List Bytes) (k : Keylist) : Type 0 where
  pub size : k.m_keys_size ≡ max_keys
  pub entries : length k.m_keys ≡ max_keys
  pub count : k.m_keys_count ≡ length keys
  pub buffer_size : k.m_buffer_size ≡ 256 * max_keys
  pub buffer : length k.m_buffer ≡ 256 * max_keys
  pub room : k.m_buffer_ptr ≤ 256 * length keys
  pub fits : length keys ≤ max_keys
  stands : (i : ℕ) → i < length keys → Stands k i (get_elem? keys i)

pub new_keylist-IsBuilt :
    (max_keys : ℕ) → 256 * max_keys < u32_mod → IsBuilt max_keys [] (new_keylist max_keys)
unfolding new_keylist
new_keylist-IsBuilt max_keys h = record {
  size = refl;
  entries = length-replicate max_keys _;
  count = refl;
  buffer_size = omega arith;
  buffer = length-replicate _ 0 ∙ (omega arith);
  room = omega arith;
  fits = omega arith;
  stands = λ i lt. elim lt [ ];
}

clear-IsBuilt :
    (max_keys : ℕ) (keys : List Bytes) (k : Keylist)
    → IsBuilt max_keys keys k
    → IsBuilt max_keys [] (clear k)
unfolding clear
clear-IsBuilt max_keys keys k b = record {
  size = b.size;
  entries = b.entries;
  count = refl;
  buffer_size = b.buffer_size;
  buffer = b.buffer;
  room = omega arith;
  fits = omega arith;
  stands = λ i lt. elim lt [ ];
}

-- What add_key makes of a keylist with room.
grown : Bytes → Keylist → Keylist
grown key k = record k {
  m_buffer = write_at k.m_buffer_ptr (key ++ (0 ∷ [])) k.m_buffer;
  m_buffer_ptr = k.m_buffer_ptr + length key + 1;
  m_keys = set k.m_keys k.m_keys_count (record { key_ptr = k.m_buffer_ptr; key_len = length key });
  m_keys_count = k.m_keys_count + 1;
}

module _ (max_keys : ℕ) (keys : List Bytes) (key : Bytes) (k : Keylist)
    (b : IsBuilt max_keys keys k) (few : length keys < max_keys) (short : length key < 256) where
  add_key-added : add_key key k ≡ added (grown key k)
  unfolding add_key grown
  add_key-added =
      rw
        (
          let z : leb k.m_keys_size k.m_keys_count ≡ false = ground (arith, b.size, b.count) in z,
          let y : leb k.m_buffer_size (k.m_buffer_ptr + length key) ≡ false =
                ground (arith, b.buffer_size, b.room) in
              y,
        )
        refl

  buffer_room : k.m_buffer_ptr + (length key + 1) ≤ length k.m_buffer
  buffer_room = omega (arith, b.room, b.buffer)

  grown-length : length (grown key k).m_buffer ≡ length k.m_buffer
  unfolding grown
  grown-length = omega (
    arith,
    buffer_room,
    length-append (take k.m_buffer_ptr k.m_buffer)
        ((key ++ (0 ∷ [])) ++ drop (k.m_buffer_ptr + length (key ++ (0 ∷ []))) k.m_buffer),
    length-append (key ++ (0 ∷ [])) (drop (k.m_buffer_ptr + length (key ++ (0 ∷ []))) k.m_buffer),
    length-append key (0 ∷ []),
    length-take k.m_buffer_ptr k.m_buffer,
    length-drop (k.m_buffer_ptr + length (key ++ (0 ∷ []))) k.m_buffer,
  )

  Stands-before :
      (i : ℕ) → i < length keys → Stands (grown key k) i (get_elem? (keys ++ (key ∷ [])) i)
  unfolding grown
  Stands-before i lt =
      let s = b.stands i lt in
      let ne : k.m_keys_count ≢ i = (λ e. absurd (omega (arith, b.count, e, lt))) in
      record {
        entry = s.entry;
        found = get_elem?-set_ne k.m_keys _ ne ∙ s.found;
        before = omega (arith, s.before);
        reads =
            ap some (
              read_before s.entry.key_ptr s.entry.key_len k.m_buffer_ptr k.m_buffer
                ((key ++ (0 ∷ [])) ++ drop (k.m_buffer_ptr + length (key ++ (0 ∷ []))) k.m_buffer)
                s.before (omega (arith, buffer_room)))
            ∙ s.reads
            ∙ sym (get_elem?-front keys key i lt);
      }

  take_key : (rest : Bytes) → take (length key) ((key ++ (0 ∷ [])) ++ rest) ≡ key
  take_key rest =
      ap (take (length key)) (append_assoc key (0 ∷ []) rest) ∙ take_append key (0 ∷ rest)

  Stands-last : Stands (grown key k) (length keys) (get_elem? (keys ++ (key ∷ [])) (length keys))
  unfolding grown
  Stands-last = record {
    entry = record { key_ptr = k.m_buffer_ptr; key_len = length key };
    found =
        ap (get_elem? _) (sym b.count)
        ∙ get_elem?-set_self k.m_keys k.m_keys_count _ (omega (arith, b.entries, b.count));
    before = omega arith;
    reads =
        ap (λ s. some (take (length key) s))
          (drop_written k.m_buffer_ptr k.m_buffer _ (omega (arith, buffer_room)))
        ∙ ap some (take_key _)
        ∙ sym (get_elem?-back keys key);
  }

  -- A key of less than 256 bytes always fits: it is added, the buffer need not grow, and the keys before it
  -- stay what they were.
  pub add_key-IsBuilt :
      (k' : Keylist) × (add_key key k ≡ added k') × IsBuilt max_keys (keys ++ (key ∷ [])) k'
  add_key-IsBuilt = (
    grown key k,
    add_key-added,
    record {
      size = unfold grown in b.size;
      entries = unfold grown in length-set k.m_keys _ _ ∙ b.entries;
      count = unfold grown in omega (arith, b.count, length-append keys (key ∷ []));
      buffer_size = unfold grown in b.buffer_size;
      buffer = grown-length ∙ b.buffer;
      room = unfold grown in omega (arith, b.room, length-append keys (key ∷ []));
      fits = omega (arith, length-append keys (key ∷ []));
      stands = λ i lt. elim (Bool-cases (ltb i (length keys))) [
        | inl lt ↦ Stands-before i (ground arith)
        | inr ge ↦
            let e : i ≡ length keys = ground (arith, length-append keys (key ∷ [])) in
            rw e Stands-last
      ];
    },
  )

-- A keylist gives back the keys that it is built from, and NULL beyond them.
pub get_key-IsBuilt :
    (max_keys : ℕ) (keys : List Bytes) (k : Keylist)
    → IsBuilt max_keys keys k
    → (i : ℕ) → get_key i k ≡ get_elem? keys i
unfolding get_key
get_key-IsBuilt max_keys keys k b i = elim (Bool-cases (ltb i (length keys))) [
  | inl lt ↦
      let s = b.stands i (ground arith) in
      rw (let z : leb k.m_keys_count i ≡ false = ground (arith, b.count) in z, s.found) s.reads
  | inr ge ↦
      rw (let z : leb k.m_keys_count i ≡ true = ground (arith, b.count) in z)
        (sym (get_elem?-beyond keys i (ground arith)))
]

-- The calls of add_key for the keys, one behind the other, as long as each of them adds its key.
pub add_keys : List Bytes → Added → Added
add_keys [] r = r
add_keys (key ∷ keys) (added k) = add_keys keys (add_key key k)
add_keys (key ∷ keys) full = full
add_keys (key ∷ keys) stale = stale

add_keys-IsBuilt :
    (max_keys : ℕ) (before keys : List Bytes) (k : Keylist)
    → IsBuilt max_keys before k
    → length before + length keys ≤ max_keys
    → All (λ key. length key < 256) keys
    → (k' : Keylist) × (add_keys keys (added k) ≡ added k') × IsBuilt max_keys (before ++ keys) k'
unfolding add_keys
add_keys-IsBuilt max_keys before [] k b few short = (k, refl, rw (append-nil before) b)
add_keys-IsBuilt max_keys before (key ∷ keys) k b few (s, short) =
    let (k1, e, b1) = add_key-IsBuilt max_keys before key k b (omega (arith, few)) s in
    let (k2, e2, b2) =
      add_keys-IsBuilt max_keys (before ++ (key ∷ [])) keys k1 b1
        (omega (arith, few, length-append before (key ∷ []))) short in
    (k2, rw e e2, rw (append_assoc before (key ∷ []) keys) at b2)

-- In a keylist that was made for max_keys keys, where its 256 bytes for each of them fit an unsigned int, the calls
-- of add_key for at most max_keys keys, each of less than 256 bytes, all add their key without growing the
-- buffer; get_key then gives each key at the index at which it was added, and NULL at every other index.
pub get_key-add_keys :
    (max_keys : ℕ) (keys : List Bytes)
    → 256 * max_keys < u32_mod
    → length keys ≤ max_keys
    → All (λ key. length key < 256) keys
    → (k : Keylist) × (add_keys keys (added (new_keylist max_keys)) ≡ added k)
      × ((i : ℕ) → get_key i k ≡ get_elem? keys i)
get_key-add_keys max_keys keys fits few short =
    let (k, e, b) =
      add_keys-IsBuilt max_keys [] keys (new_keylist max_keys) (new_keylist-IsBuilt max_keys fits)
        (omega (arith, few)) short in
    (k, e, get_key-IsBuilt max_keys keys k b)
