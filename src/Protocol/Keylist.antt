-- ===== src/Protocol/Keylist.antt =====
-- class keylist of protocol.h and protocol.cpp: the keys of a multi-key command, copied one behind the
-- other into a buffer.
pub mod Reads
use memtier_skewsyn.Prelude.{
  ℕ, zero, suc, ◌+◌, ◌-◌, ◌*◌, ◌%◌, Bool, true, false, List, [], ◌∷◌, ◌++◌, Option, none, some,
  Bytes, ltb, leb, ◌==◌, if◌then◌else◌, length, get_elem?, set, take, drop, replicate,
}
use memtier_skewsyn.CLib.{u32_mod}

-- key_ptr is the place of the key in the buffer.
pub record KeyEntry : Type 0 where
  pub key_ptr : ℕ
  pub key_len : ℕ

-- m_buffer_ptr is a place in m_buffer.
pub record Keylist : Type 0 where
  pub m_buffer : Bytes
  pub m_buffer_ptr : ℕ
  pub m_buffer_size : ℕ
  pub m_keys : List KeyEntry
  pub m_keys_size : ℕ
  pub m_keys_count : ℕ

-- keylist::keylist
unfoldable pub new_keylist : ℕ → Keylist
new_keylist max_keys = record {
  m_buffer = replicate (256 * max_keys % u32_mod) 0;
  m_buffer_ptr = 0;
  m_buffer_size = 256 * max_keys % u32_mod;
  m_keys = replicate max_keys (record { key_ptr = 0; key_len = 0 });
  m_keys_size = max_keys;
  m_keys_count = 0;
}

-- memcpy to a place of a buffer
abbrev pub write_at : ℕ → Bytes → Bytes → Bytes
write_at place s buffer = take place buffer ++ (s ++ drop (place + length s) buffer)

abbrev pub read_at : ℕ → ℕ → Bytes → Bytes
read_at place n buffer = take n (drop place buffer)

-- What add_key does. Where the buffer must grow, m_buffer_ptr and every key_ptr still point into the
-- block that was handed to realloc.
pub data Added : Type 0 where
  added : Keylist → Added
  full : Added
  stale : Added

-- keylist::add_key
unfoldable pub add_key : Bytes → Keylist → Added
add_key key k =
    let key_len = length key in
    if leb k.m_keys_size k.m_keys_count
    then full
    else if leb k.m_buffer_size (k.m_buffer_ptr + key_len)
    then stale
    else added (record k {
      m_buffer = write_at k.m_buffer_ptr (key ++ (0 ∷ [])) k.m_buffer;
      m_buffer_ptr = k.m_buffer_ptr + key_len + 1;
      m_keys = set k.m_keys k.m_keys_count (record { key_ptr = k.m_buffer_ptr; key_len = key_len });
      m_keys_count = k.m_keys_count + 1;
    })

abbrev read_entry : Bytes → Option KeyEntry → Option Bytes
read_entry buffer none = none
read_entry buffer (some e) = some (read_at e.key_ptr e.key_len buffer)

-- keylist::get_key: the bytes that the pointer and the length give.
unfoldable pub get_key : ℕ → Keylist → Option Bytes
get_key index k =
    if leb k.m_keys_count index then none else read_entry k.m_buffer (get_elem? k.m_keys index)

-- keylist::clear
unfoldable pub clear : Keylist → Keylist
clear k = record k { m_keys_count = 0; m_buffer_ptr = 0 }
