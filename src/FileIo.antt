-- ===== src/FileIo.antt =====
-- file_io.h and file_io.cpp: the reader and the writer of items in CSV files; item.h and item.cpp.
pub mod Quoted
pub mod RoundTrip
use memtier_skewsyn.Prelude.{
  ℕ, zero, suc, ◌+◌, ◌-◌, ◌%◌, ◌^◌, Bool, true, false, not, ◌&&◌, ◌||◌, List, [], ◌∷◌, ◌++◌, Option,
  none, some, Bytes, codes, ◌==◌, if◌then◌else◌, length, take, ltb,
}
use memtier_skewsyn.CLib.{
  u32_mod, to_u32, first, rest_of, skip_space, scan_u, print_u, print_s, starts_with,
}

-- class memcache_item; the bytes behind a string that is shorter than its length are not known.
pub record Item : Type 0 where
  pub m_dumpflags : ℕ
  pub m_time : ℕ
  pub m_exptime : ℕ
  pub m_nbytes : ℕ
  pub m_nsuffix : ℕ
  pub m_flags : ℕ
  pub m_clsid : ℕ
  pub m_nkey : ℕ
  pub m_key : Bytes
  pub m_data : Bytes

-- A FILE that is read: what is left, and the mark for its end.
pub record Stream : Type 0 where
  pub left : Bytes
  pub at_eof : Bool

abbrev pub is_nil : Bytes → Bool
is_nil [] = true
is_nil (_ ∷ _) = false

-- fgetc, where the character itself is not looked at
abbrev pub skip_char : Stream → Stream
skip_char f = record { left = rest_of f.left; at_eof = f.at_eof || is_nil f.left }

-- The flags of the loop of read_string
pub record Quoting : Type 0 where
  pub skip_quote : Bool
  pub first_byte : Bool
  pub dequote : Bool

-- How the loop of read_string ends: with the bytes that it copied, the length that is left, the flags and what is left
-- of the file; at the end of the file, which is NULL; or with a write behind the buffer.
pub data Scanned : Type 0 where
  stopped : Bytes → ℕ → Quoting → Bytes → Scanned
  end_of_file : Scanned
  overflowed : Scanned

abbrev pub copied : ℕ → Scanned → Scanned
copied c (stopped s len q rest) = stopped (c ∷ s) len q rest
copied c end_of_file = end_of_file
copied c overflowed = overflowed

-- What the body of the loop does with a character: it is the opening quote, or the second of two quotes; it ends the
-- loop, and is read or put back; or it is copied.
pub data Act : Type 0 where
  opens second ends puts_back copies : Act

unfoldable pub act : Quoting → ℕ → Act
act q c =
    if q.first_byte && c == b'"'
    then opens
    else if q.skip_quote
    then (if c == b'"' then second else ends)
    else if c == b'"'
    then (if q.dequote then copies else ends)
    else if not q.dequote && (c == b',' || c == b'\r' || c == b'\n')
    then puts_back
    else copies

-- The loop of file_reader::read_string, for the length and the bytes of the buffer that are left.
unfoldable pub read_loop : Quoting → ℕ → ℕ → Bytes → Scanned
read_loop q zero room file = stopped [] 0 q file
read_loop q (suc len) room [] = end_of_file
read_loop q (suc len) room (c ∷ cs) =
    let q' : Quoting = record q { first_byte = false } in
    elim (act q c) [
      | opens ↦ read_loop (record q' { dequote = true }) (suc len) room cs
      | second ↦ read_loop (record q' { skip_quote = false }) (suc len) room cs
      | ends ↦ stopped [] (suc len) q' cs
      | puts_back ↦ stopped [] (suc len) q' (c ∷ cs)
      | copies ↦ elim room [
        | zero ↦ overflowed
        | suc room' ↦ copied c (read_loop (record q' { skip_quote = c == b'"' }) len room' cs)
      ]
    ]

-- The string that read_string returns, or none for NULL.
pub data ReadString : Type 0 where
  read_some : Bytes → Stream → ReadString
  read_null : Stream → ReadString
  read_overflow : ReadString

-- The ending quote, behind a quoted quote if the string ends in one
abbrev pub end_quote : ℕ → Quoting → Stream → Stream
end_quote len q f =
    if len == 0 && q.dequote then skip_char (if q.skip_quote then skip_char f else f) else f

abbrev pub to_string : Bool → Scanned → ReadString
to_string at_eof (stopped s len q rest) =
    read_some s (end_quote len q (record { left = rest; at_eof = at_eof }))
to_string at_eof end_of_file = read_null (record { left = []; at_eof = true })
to_string at_eof overflowed = read_overflow

abbrev pub start_quoting : Quoting
start_quoting = record { skip_quote = false; first_byte = true; dequote = false }

-- file_reader::read_string; the actual length is that of the string.
unfoldable pub read_string : ℕ → ℕ → Stream → ReadString
unfolding read_loop act
read_string len alloc_len f = to_string f.at_eof (read_loop start_quoting len alloc_len f.left)

-- fscanf of n times "%u, ": the numbers, as far as they are there, and what is left. The comma of the last one may be
-- missing.
unfoldable pub scan_values : ℕ → Bytes → List ℕ × Bytes
scan_values zero s = ([], s)
scan_values (suc n) s = elim (scan_u s) [
  | none ↦ ([], skip_space s)
  | some (v, rest) ↦
      if first rest == b','
      then (let (vs, rest') = scan_values n (skip_space (rest_of rest)) in (v ∷ vs, rest'))
      else (v ∷ [], rest)
]

-- The item that read_item returns, or none for NULL; or it fails, by a key that is NULL or a string longer than its
-- buffer.
pub data ReadItem : Type 0 where
  item_some : Item → Stream → ReadItem
  item_null : Stream → ReadItem
  item_crash : ReadItem

-- The end of the line
abbrev pub end_line : Stream → Stream
end_line f = let f' = skip_char f in if first f.left == b'\r' then skip_char f' else f'

-- s_nbytes - 2
abbrev pub data_len : ℕ → ℕ
data_len nbytes = (nbytes + u32_mod - 2) % u32_mod

abbrev pub with_data : Item → ReadString → ReadItem
with_data i read_overflow = item_crash
with_data i (read_null f) = item_null f
with_data i (read_some s f) =
    if length s == data_len i.m_nbytes
    then item_some (record i { m_data = s ++ (b'\r' ∷ b'\n' ∷ []) }) (end_line f)
    else item_null f

abbrev pub with_key : Item → ReadString → ReadItem
with_key i read_overflow = item_crash
with_key i (read_null f) = item_crash
with_key i (read_some s f) =
    if first f.left == b','
    then with_data (record i { m_key = s })
        (read_string (data_len i.m_nbytes) i.m_nbytes (skip_char (skip_char f)))
    else item_null (skip_char f)

abbrev pub with_values : List ℕ × Bytes → Bool → ReadItem
with_values (dumpflags ∷ time ∷ exptime ∷ nbytes ∷ nsuffix ∷ flags ∷ clsid ∷ nkey ∷ [], rest) eof =
    with_key
      (record {
        m_dumpflags = dumpflags;
        m_time = time;
        m_exptime = exptime;
        m_nbytes = nbytes;
        m_nsuffix = nsuffix;
        m_flags = flags % 2 ^ 16;
        m_clsid = clsid;
        m_nkey = nkey;
        m_key = [];
        m_data = [];
      })
      (read_string nkey ((nkey + 1) % u32_mod)
        (record { left = rest; at_eof = eof || is_nil rest }))
with_values (_, rest) eof = item_null (record { left = rest; at_eof = eof || is_nil rest })

-- file_reader::read_item
unfoldable pub read_item : Stream → ReadItem
read_item f = with_values (scan_values 8 f.left) f.at_eof

-- The header line
abbrev pub expected_header_line : Bytes
expected_header_line = codes "dumpflags, time, exptime"

-- fgets: whether it met the end of the file, the line with its end, of at most n bytes, and what is left
unfoldable pub gets : ℕ → Bytes → Bool × Bytes × Bytes
gets zero s = (false, [], s)
gets (suc n) [] = (true, [], [])
gets (suc n) (c ∷ cs) =
    let (eof, line, rest) = gets n cs in
    if c == b'\n' then (false, c ∷ [], cs) else (eof, c ∷ line, rest)

-- file_reader::open_file, for the content of the file
unfoldable pub open_reader : Bytes → Option Stream
unfolding gets
open_reader content =
    let (eof, line, rest) = gets 78 content in
    if starts_with expected_header_line line
    then some (record { left = rest; at_eof = eof })
    else none

-- file_writer::open_file
abbrev pub file_header : Bytes
file_header =
    codes "dumpflags, time, exptime, nbytes, nsuffix, it_flags, clsid, nkey, key, data"
    ++ (b'\n' ∷ [])

-- file_writer::get_quoted_str
unfoldable pub quoted : Bytes → Bytes
quoted [] = []
quoted (c ∷ cs) = if c == b'"' then c ∷ c ∷ quoted cs else c ∷ quoted cs

-- A "%u, "
abbrev pub value_text : ℕ → Bytes → Bytes
value_text n rest = print_u n ++ (b',' ∷ b' ' ∷ rest)

-- What write_item prints in front of the data, and `tail` behind that
abbrev pub item_line : Item → Bytes → Bytes
item_line i tail =
    let key = quoted (take i.m_nkey i.m_key) in
    value_text i.m_dumpflags (
      value_text (to_u32 i.m_time) (
        value_text (to_u32 i.m_exptime) (
          value_text i.m_nbytes (
            value_text i.m_nsuffix (
              value_text i.m_flags (
                value_text i.m_clsid (
                  value_text i.m_nkey
                    (b'"' ∷ (print_s (length key) key ++ (b'"' ∷ b',' ∷ b' ' ∷ b'"' ∷ tail))))))))))

-- file_writer::write_item: whether it succeeds, and what it appends. fwrite of no bytes counts as an error. The data of
-- an item has its CR LF.
unfoldable pub write_item : Item → Bool × Bytes
write_item i =
    let text = quoted (take (data_len i.m_nbytes) i.m_data) in
    if length text == 0
    then (false, item_line i [])
    else (true, item_line i (text ++ (b'"' ∷ b'\n' ∷ [])))

-- memcache_item::is_expired
abbrev pub is_expired : Item → Bool
is_expired i = i.m_dumpflags % 2 == 1

-- memcache_item_ptr_cmp
abbrev pub is_older : Item → Item → Bool
is_older a b = ltb a.m_time b.m_time
