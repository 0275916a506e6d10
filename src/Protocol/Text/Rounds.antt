-- ===== src/Protocol/Text/Rounds.antt =====
-- The rounds of memcache_text_protocol::parse_response over the values of a reply.
use memtier_skewsyn.Prelude.{
  ℕ, suc, ◌+◌, ◌<◌, ◌≡◌, ◌≢◌, refl, ap, ◌∙◌, true, false, List, [], ◌∷◌, ◌++◌, arith, Bytes, length,
  length-append, take_append, drop_append,
}
use memtier_skewsyn.CLib.{u32_mod, to_u32}
use memtier_skewsyn.CLib.Scan.{c_str-AreClean}
use memtier_skewsyn.Evbuffer.{Evbuffer, IsEvbuffer, has_crlf}
use memtier_skewsyn.Protocol.Base.{
  ProtocolResponse, set_total_len, incr_hits, aborted, returns, again, loop, loop_returns,
  loop_again,
}
use memtier_skewsyn.Protocol.Text.{
  Text, rs_read_section, rs_read_value, respond, section_line, first_status, round_section,
  take_value, round_value, round_in, round,
}
use memtier_skewsyn.Protocol.Text.Wire.{
  Value, value_line, IsSent, wire, has_crlf-AreClean, value_line-AreClean, scan_value_line,
  in_section,
}

module _ (ev : Evbuffer) (laws : IsEvbuffer ev) where
  pub section_round :
      (p : Text) (r : ProtocolResponse) (n : ℕ) (line rest : Bytes)
      → has_crlf line ≡ false
      → round ev (in_section (line ++ (b'\r' ∷ b'\n' ∷ rest)) r n p)
        ≡ section_line line (
            in_section rest
              (set_total_len (to_u32 (n + length line + 2)) (first_status line r))
              (n + length line + 2)
              p)
  unfolding round round_in round_section respond
  section_round p r n line rest clean = rw (laws.readln_line line rest clean, round_section)

  value_section :
      (p : Text) (v : Value)
      → IsSent v
      → section_line (value_line v) p
        ≡ again (record p { m_value_len = length v.content; m_response_state = rs_read_value })
  unfolding section_line
  value_section p v s =
      ground (arith, c_str-AreClean (value_line v) (value_line-AreClean v s), scan_value_line v s)

  -- What a value leaves, when the protocol does not keep it.
  value_taken :
      (p : Text) (v rest : Bytes)
      → p.m_keep_value ≡ false
      → length v + 2 < u32_mod
      → round ev (record p {
        m_read_buf = v ++ (b'\r' ∷ b'\n' ∷ rest);
        m_response_state = rs_read_value;
        m_value_len = length v;
      })
        ≡ again (record p {
          m_read_buf = rest;
          m_response_state = rs_read_section;
          m_value_len = length v;
          m_response_len = p.m_response_len + (length v + 2);
          m_last_response = incr_hits p.m_last_response;
        })
  unfolding round round_in round_value take_value respond
  value_taken p v rest keep short =
      let buf = v ++ (b'\r' ∷ b'\n' ∷ rest) in
      ground (
        arith,
        laws.get_length_lem buf,
        laws.drain_lem buf (length v),
        laws.drain_lem (b'\r' ∷ b'\n' ∷ rest) 2,
        length-append v (b'\r' ∷ b'\n' ∷ rest),
        drop_append v (b'\r' ∷ b'\n' ∷ rest),
      )

  value_kept :
      (p : Text) (v rest : Bytes)
      → p.m_keep_value ≡ true
      → length v + 2 < u32_mod
      → v ≢ []
      → round ev (record p {
        m_read_buf = v ++ (b'\r' ∷ b'\n' ∷ rest);
        m_response_state = rs_read_value;
        m_value_len = length v;
      })
        ≡ returns aborted (record p {
          m_read_buf = b'\r' ∷ b'\n' ∷ rest;
          m_response_state = rs_read_value;
          m_value_len = length v;
        })
  unfolding round round_in round_value take_value respond
  value_kept p [] rest keep short ne = absurd (ne refl)
  value_kept p (c ∷ cs) rest keep short ne =
      let v = c ∷ cs in
      let buf = v ++ (b'\r' ∷ b'\n' ∷ rest) in
      ground (
        arith,
        laws.get_length_lem buf,
        laws.remove_lem buf (length v),
        length-append v (b'\r' ∷ b'\n' ∷ rest),
        take_append v (b'\r' ∷ b'\n' ∷ rest),
        drop_append v (b'\r' ∷ b'\n' ∷ rest),
      )

  -- The two rounds of a value.
  module _ (p : Text) (r : ProtocolResponse) (n : ℕ) (v : Value) (vs : List Value) (rest : Bytes)
      (sent : IsSent v) where
    abbrev pub line_end : ℕ
    line_end = n + length (value_line v) + 2

    abbrev pub seen : ProtocolResponse
    seen = set_total_len (to_u32 line_end) (first_status (value_line v) r)

    value_head :
        round ev (in_section (wire (v ∷ vs) rest) r n p)
        ≡ again (record (in_section (v.content ++ (b'\r' ∷ b'\n' ∷ wire vs rest)) seen line_end p) {
          m_value_len = length v.content;
          m_response_state = rs_read_value;
        })
    value_head =
        section_round p r n (value_line v) (v.content ++ (b'\r' ∷ b'\n' ∷ wire vs rest))
          (has_crlf-AreClean (value_line v) (value_line-AreClean v sent))
        ∙ value_section _ v sent

    pub value_rounds :
        (f : ℕ)
        → p.m_keep_value ≡ false
        → loop (round ev) (suc (suc f)) (in_section (wire (v ∷ vs) rest) r n p)
          ≡ loop (round ev) f (
              in_section
                (wire vs rest)
                (incr_hits seen)
                (line_end + (length v.content + 2))
                (record p { m_value_len = length v.content }))
    value_rounds f keep =
        loop_again (round ev) _ _ value_head
        ∙ loop_again (round ev) _ _ (
            value_taken (in_section (v.content ++ (b'\r' ∷ b'\n' ∷ wire vs rest)) seen line_end p)
              v.content (wire vs rest) keep sent.content_fits)

    pub value_abort :
        (f : ℕ)
        → p.m_keep_value ≡ true
        → v.content ≢ []
        → (loop (round ev) (suc (suc f)) (in_section (wire (v ∷ vs) rest) r n p)).0 ≡ aborted
    value_abort f keep ne =
        ap (λ o. o.0)
          (loop_again (round ev) _ _ value_head
            ∙ loop_returns (round ev) _ _ (
                value_kept
                  (in_section (v.content ++ (b'\r' ∷ b'\n' ∷ wire vs rest)) seen line_end p)
                  v.content (wire vs rest) keep sent.content_fits ne))
