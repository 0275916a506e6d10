-- ===== src/Protocol/Text/Ends.antt =====
-- memcache_text_protocol::parse_response ends, whatever is in its buffer.
use memtier_skewsyn.Prelude.{
  ℕ, suc, ◌+◌, ◌%◌, ◌<◌, ◌≤◌, inl, inr, not, ◌&&◌, ◌||◌, arith, Bytes, codes, leb, ◌==◌, Bool-cases,
  length,
}
use memtier_skewsyn.CLib.{u32_mod, starts_with, c_str}
use memtier_skewsyn.Evbuffer.{Evbuffer, IsEvbuffer}
use memtier_skewsyn.Protocol.Base.{Round}
use memtier_skewsyn.Protocol.Base.Ends.{
  IsEnd, Below, if_Below, loop_ends, readln_cases, drain-le, remove-le,
}
use memtier_skewsyn.Protocol.Text.{
  Text, ResponseState, rs_initial, rs_read_section, rs_read_value, rs_read_end, Scanned, value_len,
  too_few, too_long, scan_value, respond, value_round, section_line, round_section, take_value,
  round_value, round_in, round, parse_response,
}

-- What a call has before it at most: a line takes a round, a value one more.
abbrev left_of : ResponseState → Bytes → ℕ
left_of rs_initial buf = length buf + 2
left_of rs_read_section buf = length buf + 1
left_of rs_read_value buf = length buf + 2
left_of rs_read_end buf = 0

abbrev measure : Text → ℕ
measure p = left_of p.m_response_state p.m_read_buf

measure-le : (st : ResponseState) (buf : Bytes) → left_of st buf ≤ length buf + 2
measure-le rs_initial buf = omega arith
measure-le rs_read_section buf = omega arith
measure-le rs_read_value buf = omega arith
measure-le rs_read_end buf = omega arith

abbrev Ends : ℕ → Round Text → Type 0
Ends = Below IsEnd measure

value_round-Ends :
    (s : Scanned) (p : Text) (k : ℕ) → length p.m_read_buf + 2 < k → Ends k (value_round s p)
unfolding value_round
value_round-Ends (value_len n) p k lt = lt
value_round-Ends too_few p k lt = tt
value_round-Ends too_long p k lt = tt

section_line-Ends :
    (line : Bytes) (p : Text) (k : ℕ) → length p.m_read_buf + 2 < k → Ends k (section_line line p)
unfolding section_line
section_line-Ends line p k lt =
    if_Below IsEnd measure k (starts_with (codes "VALUE") (c_str line)) _ _
      (value_round-Ends (scan_value line) p k lt)
      (if_Below IsEnd measure k
        (starts_with (codes "END") (c_str line) || starts_with (codes "STORED") (c_str line)) _ _
        (omega (arith, lt)) tt)

module _ (ev : Evbuffer) (h : IsEvbuffer ev) where
  take_value-Ends : (p : Text) → Ends (length p.m_read_buf + 2) (take_value ev p)
  unfolding take_value respond
  take_value-Ends p =
      if_Below IsEnd measure (length p.m_read_buf + 2)
        (p.m_keep_value && not ((ev.remove p.m_read_buf p.m_value_len).2 == 0)) _ _ tt
        (elim (Bool-cases p.m_keep_value) [
          | inl e ↦ rw e (
              omega (
                arith,
                drain-le ev h (ev.remove p.m_read_buf p.m_value_len).1 2,
                remove-le ev h p.m_read_buf p.m_value_len,
              ))
          | inr e ↦ rw e (
              omega (
                arith,
                drain-le ev h (ev.drain p.m_read_buf p.m_value_len) 2,
                drain-le ev h p.m_read_buf p.m_value_len,
              ))
        ])

  round-Ends : (st : ResponseState) (p : Text) → Ends (left_of st p.m_read_buf) (round_in ev st p)
  unfolding round_in round_section round_value respond
  round-Ends rs_initial p = omega arith
  round-Ends rs_read_section p = elim (readln_cases ev h p.m_read_buf) [
    | inl e ↦ rw (e, round_section) tt
    | inr (line, rest, e, le) ↦
        rw (e, round_section) (section_line-Ends line _ _ (omega (arith, le)))
  ]
  round-Ends rs_read_value p =
      if_Below IsEnd measure (length p.m_read_buf + 2)
        (leb ((p.m_value_len + 2) % u32_mod) (ev.get_length p.m_read_buf)) _ _ (take_value-Ends p)
        tt
  round-Ends rs_read_end p = tt

  -- In every state of the parser and with every content of the buffer, parse_response ends, with an answer or by a
  -- failure: the rounds that the model allows are enough.
  pub text-ends : (p : Text) → IsEnd (parse_response ev p).0
  unfolding parse_response round
  text-ends p =
      loop_ends IsEnd measure (round ev) (λ s. round-Ends s.m_response_state s)
        (suc (suc (suc (length p.m_read_buf)))) p
        (let le = measure-le p.m_response_state p.m_read_buf in omega (arith, le))
