-- ===== src/FileIo/RoundTrip.antt =====
-- file_reader::read_item reads back the item that file_writer::write_item writes.
use memtier_skewsyn.Prelude.{
  ℕ, suc, ◌+◌, ◌^◌, ◌<◌, ◌≡◌, refl, true, false, [], ◌∷◌, ◌++◌, some, arith, Bytes, ◌==◌, length,
  take, take-length, take_append, append_assoc, All, mod-eq_of_lt, Bool-cases, inl, inr,
}
use memtier_skewsyn.CLib.{u32_mod, skip_space, scan_u, c_str, print_u, print_s}
use memtier_skewsyn.CLib.Decimal.{first-print_u, skip_space_digit, read_sign_digit, strtoul-print_u}
use memtier_skewsyn.FileIo.{
  Item, data_len, value_text, item_line, write_item, scan_values, read_item, item_some, quoted,
}
use memtier_skewsyn.FileIo.Quoted.{read_string-quoted}

abbrev pub NoZero : Bytes → Type 0
NoZero = All (λ c. (c == 0) ≡ false)

-- The numbers of an item, but for its lengths
pub record Numbers : Type 0 where
  pub dumpflags : ℕ
  pub time : ℕ
  pub exptime : ℕ
  pub nsuffix : ℕ
  pub flags : ℕ
  pub clsid : ℕ

-- The item of a key and its data, which are stored with a CR LF.
abbrev pub item_of : Numbers → Bytes → Bytes → Item
item_of n key content = record {
  m_dumpflags = n.dumpflags;
  m_time = n.time;
  m_exptime = n.exptime;
  m_nbytes = length content + 2;
  m_nsuffix = n.nsuffix;
  m_flags = n.flags;
  m_clsid = n.clsid;
  m_nkey = length key;
  m_key = key;
  m_data = content ++ (b'\r' ∷ b'\n' ∷ []);
}

-- The numbers fit in their words.
pub record Fit (n : Numbers) : Type 0 where
  pub dumpflags : n.dumpflags < u32_mod
  pub time : n.time < u32_mod
  pub exptime : n.exptime < u32_mod
  pub nsuffix : n.nsuffix < u32_mod
  pub flags : n.flags < 2 ^ 16
  pub clsid : n.clsid < u32_mod

skip_value : (n : ℕ) (rest : Bytes) → skip_space (b' ' ∷ value_text n rest) ≡ value_text n rest
unfolding skip_space
skip_value n rest =
    let (c, cs, e, d) = first-print_u n (b',' ∷ b' ' ∷ rest) in rw e (skip_space_digit c cs d)

scan_value :
    (n : ℕ) (rest : Bytes) → n < u32_mod → scan_u (value_text n rest) ≡ some (n, b',' ∷ b' ' ∷ rest)
unfolding scan_u
scan_value n rest h =
    let (c, cs, e, d) = first-print_u n (b',' ∷ b' ' ∷ rest) in
    let read = strtoul-print_u n (b',' ∷ b' ' ∷ rest) (omega arith) refl in
    rw e (ground (arith, skip_space_digit c cs d, read_sign_digit c cs d, rw e at read))

scan_step :
    (m n : ℕ) (rest : Bytes)
    → n < u32_mod
    → scan_values (suc m) (value_text n rest)
      ≡ (let (vs, rest') = scan_values m (skip_space (b' ' ∷ rest)) in (n ∷ vs, rest'))
unfolding scan_values
scan_step m n rest h = rw (scan_value n rest h, scan_values) refl

skip_quote : (rest : Bytes) → skip_space (b' ' ∷ b'"' ∷ rest) ≡ b'"' ∷ rest
unfolding skip_space
skip_quote rest = refl

quoted-NoZero : (s : Bytes) → NoZero s → NoZero (quoted s)
unfolding quoted
quoted-NoZero [] h = tt
quoted-NoZero (c ∷ cs) (h, hs) = elim (Bool-cases (c == b'"')) [
  | inl e ↦ rw e (h, (h, quoted-NoZero cs hs))
  | inr e ↦ rw e (h, quoted-NoZero cs hs)
]

c_str-NoZero : (s : Bytes) → NoZero s → c_str s ≡ s
c_str-NoZero [] h = refl
c_str-NoZero (c ∷ cs) (h, hs) = ground (arith, c_str-NoZero cs hs)

print_all : (s : Bytes) → NoZero s → print_s (length s) s ≡ s
print_all s h = rw (c_str-NoZero s h) (take-length s)

scan_done : (s : Bytes) → scan_values 0 s ≡ ([], s)
unfolding scan_values
scan_done s = refl

-- The eight numbers of a line
scan_line :
    (a b c d e f g h : ℕ) (rest : Bytes)
    → (a < u32_mod)
      × (b < u32_mod)
      × (c < u32_mod)
      × (d < u32_mod)
      × (e < u32_mod)
      × (f < u32_mod)
      × (g < u32_mod)
      × (h < u32_mod)
    → scan_values 8 (
        value_text a (
          value_text b (
            value_text c (
              value_text d
                (value_text e (value_text f (value_text g (value_text h (b'"' ∷ rest)))))))))
      ≡ (a ∷ b ∷ c ∷ d ∷ e ∷ f ∷ g ∷ h ∷ [], b'"' ∷ rest)
scan_line a b c d e f g h rest u = simp (
  scan_step 7 a _ u.0,
  scan_step 6 b _ u.1,
  scan_step 5 c _ u.2,
  scan_step 4 d _ u.3,
  scan_step 3 e _ u.4,
  scan_step 2 f _ u.5,
  scan_step 1 g _ u.6,
  scan_step 0 h _ u.7,
  skip_value,
  skip_quote,
  scan_done,
)

value_append : (n : ℕ) (s t : Bytes) → value_text n s ++ t ≡ value_text n (s ++ t)
value_append n s t = append_assoc (print_u n) (b',' ∷ b' ' ∷ s) t

quoted_some : (c : ℕ) (cs : Bytes) → (length (quoted (c ∷ cs)) == 0) ≡ false
unfolding quoted
quoted_some c cs = elim (Bool-cases (c == b'"')) [
  | inl e ↦ rw e (ground arith)
  | inr e ↦ rw e (ground arith)
]

module _ (n : Numbers) (fit : Fit n) (k : ℕ) (ks : Bytes) (d : ℕ) (ds : Bytes)
    (no_zero : NoZero (k ∷ ks)) (key_small : length (k ∷ ks) + 1 < u32_mod)
    (data_small : length (d ∷ ds) + 2 < u32_mod) where
  abbrev item : Item
  item = item_of n (k ∷ ks) (d ∷ ds)

  -- Behind the numbers, with what follows the data
  abbrev strings : Bytes → Bytes
  strings tail = quoted (k ∷ ks) ++ (b'"' ∷ b',' ∷ b' ' ∷ b'"' ∷ tail)

  abbrev line : Bytes → Bytes
  line tail = value_text n.dumpflags (
      value_text n.time (
        value_text n.exptime (
          value_text (length (d ∷ ds) + 2) (
            value_text n.nsuffix (
              value_text n.flags
                (value_text n.clsid (value_text (length (k ∷ ks)) (b'"' ∷ strings tail))))))))

  line_lem : (tail : Bytes) → item_line item tail ≡ line tail
  line_lem tail =
      rw
        (
          mod-eq_of_lt fit.time,
          mod-eq_of_lt fit.exptime,
          take-length (k ∷ ks),
          print_all (quoted (k ∷ ks)) (quoted-NoZero (k ∷ ks) no_zero),
        )
        refl

  data_len_lem : data_len (length (d ∷ ds) + 2) ≡ length (d ∷ ds)
  data_len_lem = omega arith

  read_line :
      (rest : Bytes)
      → read_item
          (record { left = line (quoted (d ∷ ds) ++ (b'"' ∷ b'\n' ∷ rest)); at_eof = false })
        ≡ item_some item (record { left = rest; at_eof = false })
  unfolding read_item
  read_line rest =
      rw
        (
          scan_line n.dumpflags n.time n.exptime (length (d ∷ ds) + 2) n.nsuffix n.flags n.clsid
              (length (k ∷ ks)) (strings (quoted (d ∷ ds) ++ (b'"' ∷ b'\n' ∷ rest)))
              (
                fit.dumpflags,
                fit.time,
                fit.exptime,
                data_small,
                fit.nsuffix,
                omega (arith, fit.flags),
                fit.clsid,
                omega arith,
              ),
          mod-eq_of_lt key_small,
          mod-eq_of_lt fit.flags,
          read_string-quoted k ks (b',' ∷ b' ' ∷ b'"' ∷ (quoted (d ∷ ds) ++ (b'"' ∷ b'\n' ∷ rest)))
              (length (k ∷ ks) + 1) (omega arith),
          data_len_lem,
          read_string-quoted d ds (b'\n' ∷ rest) (length (d ∷ ds) + 2) (omega arith),
          data_len_lem,
          let z : (length (d ∷ ds) == length (d ∷ ds)) ≡ true = ground arith in z,
        )
        refl

  line_append : (s t : Bytes) → line s ++ t ≡ line (s ++ t)
  line_append s t = simp (value_append, append_assoc)

  write_lem : write_item item ≡ (true, line (quoted (d ∷ ds) ++ (b'"' ∷ b'\n' ∷ [])))
  unfolding write_item
  write_lem =
      rw
        (
          data_len_lem,
          let z : take (length (d ∷ ds)) item.m_data ≡ d ∷ ds =
                take_append (d ∷ ds) (b'\r' ∷ b'\n' ∷ []) in
              z,
          quoted_some d ds,
          line_lem (quoted (d ∷ ds) ++ (b'"' ∷ b'\n' ∷ [])),
        )
        refl

  -- An item whose numbers fit in their words, with a key without zero bytes and data, neither of them empty, is
  -- written, and read_item gives it back, quotes, commas and line ends in the key and the data included; what is
  -- behind its line stays in the file.
  pub write_item-read_item :
      (rest : Bytes)
      → ((write_item item).0 ≡ true)
        × (read_item (record { left = (write_item item).1 ++ rest; at_eof = false })
            ≡ item_some item (record { left = rest; at_eof = false }))
  write_item-read_item rest =
      rw
        (
          write_lem,
          line_append (quoted (d ∷ ds) ++ (b'"' ∷ b'\n' ∷ [])) rest,
          append_assoc (quoted (d ∷ ds)) (b'"' ∷ b'\n' ∷ []) rest,
        )
        (refl, read_line rest)
