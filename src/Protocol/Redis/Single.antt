-- ===== src/Protocol/Redis/Single.antt =====
-- redis_protocol::parse_response on a reply that is no array: a line, a bulk, or a null.
use memtier_skewsyn.Prelude.{
  ℕ, suc, ◌+◌, ◌<◌, ◌≡◌, refl, sym, ap, ◌≢◌, append_assoc, ◌∙◌, Bool, true, false, ◌&&◌, ◌||◌, [],
  ◌∷◌, ◌++◌, none, some, arith, Bytes, ltb, ◌==◌, if◌then◌else◌, length, take_append, drop_append,
  drop, length-append,
}
use memtier_skewsyn.CLib.{first, u32_mod, minus_one, print_u, strtol}
use memtier_skewsyn.CLib.Decimal.{AreDigits, print_u-AreDigits, c_str-AreDigits, strtol-print_u_end}
use memtier_skewsyn.Evbuffer.{Evbuffer, IsEvbuffer, crlf, has_crlf}
use memtier_skewsyn.Protocol.Base.{
  ProtocolResponse, cleared, complete, incomplete, returns, again, loop_returns, loop_again,
}
use memtier_skewsyn.Protocol.Redis.{
  Redis, rs_initial, rs_read_bulk, number_after, initial_line, round_initial, round_bulk, round_in,
  round, parse_response,
}

-- The parser between two replies, with this content in its read buffer.
abbrev pub waiting : Bytes → Redis → Redis
waiting buf p = record p { m_read_buf = buf; m_response_state = rs_initial }

pub has_crlf-AreDigits : (s : Bytes) → AreDigits s → has_crlf s ≡ false
has_crlf-AreDigits [] h = refl
has_crlf-AreDigits (c ∷ cs) (h, hs) = ground (arith, has_crlf-AreDigits cs hs)

-- "$n" or "*n"
abbrev pub header : ℕ → ℕ → Bytes
header mark n = mark ∷ print_u n

pub header-number_after :
    (mark n : ℕ) → (mark == 0) ≡ false → n < u32_mod → number_after (header mark n) ≡ n
header-number_after mark n m h =
    ground
      (arith, c_str-AreDigits (print_u n) (print_u-AreDigits n), strtol-print_u_end n (omega arith))

pub header-has_crlf : (mark n : ℕ) → (mark == b'\r') ≡ false → has_crlf (header mark n) ≡ false
header-has_crlf mark n m = ground (arith, has_crlf-AreDigits (print_u n) (print_u-AreDigits n))

drop_more : (v : Bytes) (c d : ℕ) (rest : Bytes) → drop (length v + 2) (v ++ (c ∷ d ∷ rest)) ≡ rest
drop_more [] c d rest = refl
drop_more (x ∷ v) c d rest =
    rw (let z : suc (length v) + 2 ≡ suc (length v + 2) = omega arith in z) (drop_more v c d rest)

length_pos : (mark n : ℕ) → 0 < length (header mark n)
length_pos mark n = omega arith

joined :
    (v now later rest : Bytes)
    → now ++ later ≡ v ++ crlf
    → now ++ (later ++ rest) ≡ v ++ (b'\r' ∷ b'\n' ∷ rest)
joined v now later rest whole =
    sym (append_assoc now later rest) ∙ ap (λ s. s ++ rest) whole ∙ append_assoc v crlf rest

module _ (ev : Evbuffer) (laws : IsEvbuffer ev) where
  pub round_line :
      (p : Redis) (line rest : Bytes)
      → has_crlf line ≡ false
      → round ev (waiting (line ++ (b'\r' ∷ b'\n' ∷ rest)) p)
        ≡ initial_line line (record p {
          m_read_buf = rest;
          m_response_state = rs_initial;
          m_response_len = length line + 2;
          m_last_response = cleared;
        })
  unfolding round round_in round_initial
  round_line p line rest clean = rw (laws.readln_line line rest clean, round_initial)

  -- A reply of one line: +, - or : and a text. Its line is the status, only - is an error, and the
  -- length is that of the line with its CRLF.
  pub parse_line :
      (p : Redis) (line rest : Bytes)
      → has_crlf line ≡ false
      → (first line == b'+' || first line == b'-' || first line == b':') ≡ true
      → length line + 2 < u32_mod
      → parse_response ev (waiting (line ++ (b'\r' ∷ b'\n' ∷ rest)) p) ≡ (
        complete,
        record p {
          m_read_buf = rest;
          m_response_state = rs_initial;
          m_response_len = length line + 2;
          m_last_response = record cleared {
            m_status = some line;
            m_total_len = length line + 2;
            m_error = first line == b'-';
          };
        },
      )
  unfolding parse_response initial_line
  parse_line p line rest clean kind short =
      loop_returns (round ev) _ _ (round_line p line rest clean ∙ ground arith)

  -- A null bulk "$-1" or a null array "*-1" is complete at once, with no value and no hit.
  pub parse_null :
      (p : Redis) (mark : ℕ) (rest : Bytes)
      → (mark == b'$' || mark == b'*') ≡ true
      → parse_response ev (waiting (mark ∷ b'-' ∷ b'1' ∷ b'\r' ∷ b'\n' ∷ rest) p) ≡ (
        complete,
        record p {
          m_read_buf = rest;
          m_response_state = rs_initial;
          m_response_len = 5;
          m_last_response = record cleared { m_status = some (mark ∷ b'-' ∷ b'1' ∷ []) };
        },
      )
  unfolding parse_response initial_line strtol
  parse_null p mark rest kind =
      loop_returns (round ev) _ _
        (round_line p (mark ∷ b'-' ∷ b'1' ∷ []) rest (ground arith) ∙ ground arith)

  -- What a bulk reply leaves behind its header line.
  abbrev pub bulk_response : Bool → Bytes → Bytes → ProtocolResponse
  bulk_response keep line v =
      let kept = keep && ltb 0 (length v) in
      record cleared {
        m_status = some line;
        m_value = if kept then some v else none;
        m_value_len = if kept then length v else 0;
        m_total_len = length line + 2 + length v + 2;
        m_hits = if ltb 0 (length v) then 1 else 0;
      }

  -- The parser behind the header line of a bulk.
  abbrev in_bulk : Bytes → ℕ → Bytes → Redis → Redis
  in_bulk line n buf p = record p {
    m_read_buf = buf;
    m_response_state = rs_read_bulk;
    m_bulk_len = n;
    m_response_len = length line + 2;
    m_last_response = record cleared { m_status = some line };
  }

  abbrev pub after_bulk : Bytes → Bytes → Bytes → Redis → Redis
  after_bulk line v rest p = record p {
    m_read_buf = rest;
    m_response_state = rs_initial;
    m_bulk_len = length v;
    m_response_len = length line + 2;
    m_last_response = bulk_response p.m_keep_value line v;
  }

  bulk_header :
      (p : Redis) (n : ℕ) (rest : Bytes)
      → n < minus_one
      → round ev (waiting (header b'$' n ++ (b'\r' ∷ b'\n' ∷ rest)) p)
        ≡ again (in_bulk (header b'$' n) n rest p)
  unfolding initial_line
  bulk_header p n rest small =
      round_line p (header b'$' n) rest (header-has_crlf b'$' n refl)
      ∙ ground (arith, header-number_after b'$' n refl (omega arith))

  bulk_round :
      (p : Redis) (line v rest : Bytes)
      → length line + length v + 4 < u32_mod
      → round ev (in_bulk line (length v) (v ++ (b'\r' ∷ b'\n' ∷ rest)) p)
        ≡ returns complete (after_bulk line v rest p)
  unfolding round round_in round_bulk
  bulk_round p line v rest short =
      let buf = v ++ (b'\r' ∷ b'\n' ∷ rest) in
      ground (
        arith,
        laws.get_length_lem buf,
        laws.remove_lem buf (length v),
        laws.drain_lem (b'\r' ∷ b'\n' ∷ rest) 2,
        laws.drain_lem buf (length v + 2),
        length-append v (b'\r' ∷ b'\n' ∷ rest),
        take_append v (b'\r' ∷ b'\n' ∷ rest),
        drop_append v (b'\r' ∷ b'\n' ∷ rest),
        drop_more v b'\r' b'\n' rest,
      )

  -- A bulk reply "$n", n bytes and a CRLF, is complete: the value is kept if the protocol keeps values
  -- and it is not empty, a hit is counted if it is not empty, and the length is that of the whole reply.
  pub parse_bulk :
      (p : Redis) (v rest : Bytes)
      → length (header b'$' (length v)) + length v + 4 < u32_mod
      → parse_response ev
          (waiting (header b'$' (length v) ++ (b'\r' ∷ b'\n' ∷ (v ++ (b'\r' ∷ b'\n' ∷ rest)))) p)
        ≡ (complete, after_bulk (header b'$' (length v)) v rest p)
  unfolding parse_response
  parse_bulk p v rest short =
      let line = header b'$' (length v) in
      loop_again (round ev) _ _ (
        bulk_header p (length v) (v ++ (b'\r' ∷ b'\n' ∷ rest))
          (omega (arith, length_pos b'$' (length v))))
      ∙ loop_returns (round ev) _ _ (bulk_round p line v rest short)

  short_round :
      (p : Redis) (line v now later : Bytes)
      → length line + length v + 4 < u32_mod
      → now ++ later ≡ v ++ crlf
      → later ≢ []
      → round ev (in_bulk line (length v) now p)
        ≡ returns incomplete (in_bulk line (length v) now p)
  unfolding round round_in round_bulk
  short_round p line v now [] short whole more = absurd (more refl)
  short_round p line v now (x ∷ later) short whole more =
      let sizes : length now + suc (length later) ≡ length v + 2 =
        omega (arith, ap length whole, length-append now (x ∷ later), length-append v crlf) in
      ground (arith, laws.get_length_lem now)

  -- A bulk whose header has come and whose value and CRLF have come in part is incomplete; when the
  -- rest has come, the next call gives the result of the whole reply.
  pub parse_bulk_split :
      (p : Redis) (v now later rest : Bytes)
      → length (header b'$' (length v)) + length v + 4 < u32_mod
      → now ++ later ≡ v ++ crlf
      → later ≢ []
      → (q : Redis) × (parse_response ev
            (waiting (header b'$' (length v) ++ (b'\r' ∷ b'\n' ∷ now)) p)
          ≡ (incomplete, q))
        × (parse_response ev (record q { m_read_buf = q.m_read_buf ++ (later ++ rest) })
            ≡ (complete, after_bulk (header b'$' (length v)) v rest p))
  unfolding parse_response
  parse_bulk_split p v now later rest short whole more =
      let line = header b'$' (length v) in
      (
        in_bulk line (length v) now p,
        loop_again (round ev) _ _
              (bulk_header p (length v) now (omega (arith, length_pos b'$' (length v))))
            ∙ loop_returns (round ev) _ _ (short_round p line v now later short whole more),
        loop_returns (round ev) _ _
            (rw (joined v now later rest whole) (bulk_round p line v rest short)),
      )
