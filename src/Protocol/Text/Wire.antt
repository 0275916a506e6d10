-- ===== src/Protocol/Text/Wire.antt =====
-- The replies of memcached to a get, as class memcache_text_protocol reads them.
use memtier_skewsyn.Prelude.{
  ℕ, ◌+◌, ◌<◌, ◌≤◌, ◌≡◌, ◌≢◌, refl, false, List, [], ◌∷◌, ◌++◌, some, arith, Bytes, codes, length,
  length-append, append-nil,
}
use memtier_skewsyn.CLib.{u32_mod, print_u, scan_s}
use memtier_skewsyn.CLib.Decimal.{print_u-AreDigits}
use memtier_skewsyn.CLib.Scan.{
  AreClean, AreClean-append, AreDigits-AreClean, c_str-AreClean, IsWord, IsWord-AreClean,
  scan_s-IsWord, scan_u-print_u,
}
use memtier_skewsyn.Evbuffer.{has_crlf}
use memtier_skewsyn.Protocol.Base.{ProtocolResponse}
use memtier_skewsyn.Protocol.Text.{Text, rs_read_section, value_len, scan_value}

pub has_crlf-AreClean : (s : Bytes) → AreClean s → has_crlf s ≡ false
has_crlf-AreClean [] h = refl
has_crlf-AreClean (c ∷ cs) (h, hs) = ground (arith, has_crlf-AreClean cs hs)

-- One value of a reply: the key, the flags and the data.
pub record Value : Type 0 where
  pub key : Bytes
  pub flags : ℕ
  pub content : Bytes

abbrev fields : ℕ → ℕ → Bytes
fields flags n = b' ' ∷ (print_u flags ++ (b' ' ∷ print_u n))

-- "VALUE key flags length"
abbrev pub value_line : Value → Bytes
value_line v = codes "VALUE " ++ (v.key ++ fields v.flags (length v.content))

pub record IsSent (v : Value) : Type 0 where
  pub key_word : IsWord v.key
  pub key_ne_nil : v.key ≢ []
  pub key_short : length v.key < 256
  pub flags_fit : v.flags < u32_mod
  pub content_fits : length v.content + 2 < u32_mod

pub value_line-AreClean : (v : Value) → IsSent v → AreClean (value_line v)
value_line-AreClean v s =
    AreClean-append (codes "VALUE ") _ (refl, (refl, (refl, (refl, (refl, (refl, tt))))))
      (AreClean-append v.key _ (IsWord-AreClean v.key s.key_word) (
        refl,
        AreClean-append (print_u v.flags) _ (AreDigits-AreClean _ (print_u-AreDigits v.flags))
            (refl, AreDigits-AreClean _ (print_u-AreDigits (length v.content))),
      ))

scan_value_word :
    (rest : Bytes) → scan_s (codes "VALUE " ++ rest) ≡ some (codes "VALUE", b' ' ∷ rest)
unfolding scan_s
scan_value_word rest = refl

pub scan_value_line :
    (v : Value) → IsSent v → scan_value (value_line v) ≡ value_len (length v.content)
unfolding scan_value
scan_value_line v s = ground (
  arith,
  c_str-AreClean (value_line v) (value_line-AreClean v s),
  scan_value_word (v.key ++ fields v.flags (length v.content)),
  scan_s-IsWord v.key (print_u v.flags ++ (b' ' ∷ print_u (length v.content))) s.key_ne_nil
      s.key_word,
  scan_u-print_u v.flags (b' ' ∷ print_u (length v.content)) s.flags_fit refl,
  scan_u-print_u (length v.content) [] (omega arith) refl,
  append-nil (print_u (length v.content)),
)

-- A reply: the values, each with its line, and END.
abbrev pub wire : List Value → Bytes → Bytes
wire [] rest = codes "END\r\n" ++ rest
wire (v ∷ vs) rest = value_line v ++ (b'\r' ∷ b'\n' ∷ (v.content ++ (b'\r' ∷ b'\n' ∷ wire vs rest)))

-- The parser between two lines of a reply.
abbrev pub in_section : Bytes → ProtocolResponse → ℕ → Text → Text
in_section buf r n p = record p {
  m_read_buf = buf;
  m_response_state = rs_read_section;
  m_last_response = r;
  m_response_len = n;
}

pub length-wire :
    (v : Value) (vs : List Value) (rest : Bytes)
    → length (wire (v ∷ vs) rest)
      ≡ length (value_line v) + 2 + length v.content + 2 + length (wire vs rest)
length-wire v vs rest = omega (
  arith,
  length-append (value_line v) (b'\r' ∷ b'\n' ∷ (v.content ++ (b'\r' ∷ b'\n' ∷ wire vs rest))),
  length-append v.content (b'\r' ∷ b'\n' ∷ wire vs rest),
)

pub wire-long : (vs : List Value) (rest : Bytes) → length vs + length vs ≤ length (wire vs rest)
wire-long [] rest = omega arith
wire-long (v ∷ vs) rest = omega (arith, length-wire v vs rest, wire-long vs rest)
