-- ===== src/Protocol/Text/Values.antt =====
-- memcache_text_protocol::parse_response on the replies to a get.
use memtier_skewsyn.Prelude.{
  ℕ, suc, ◌-◌, ◌+◌, ◌<◌, ◌≡◌, ◌≢◌, refl, sym, ap, ◌∙◌, Bool, true, false, List, [], ◌∷◌, Option,
  none, some, arith, Bytes, codes, length, All,
}
use mathlib.Core.Path.{subst}
use memtier_skewsyn.CLib.{u32_mod}
use memtier_skewsyn.Evbuffer.{Evbuffer, IsEvbuffer}
use memtier_skewsyn.Protocol.Base.{
  ProtocolResponse, cleared, incr_hits, Outcome, complete, aborted, returns, again, loop,
  loop_returns, loop_again,
}
use memtier_skewsyn.Protocol.Text.{
  Text, rs_initial, rs_read_end, section_line, first_status, round_in, round, parse_response,
}
use memtier_skewsyn.Protocol.Text.Wire.{
  Value, value_line, IsSent, wire, in_section, length-wire, wire-long,
}
use memtier_skewsyn.Protocol.Text.Rounds.{section_round, value_rounds, value_abort, line_end, seen}

module _ (ev : Evbuffer) (laws : IsEvbuffer ev) where
  -- What the parser knows at the end of a reply that began with response r and n bytes counted.
  record Read (p : Text) (r : ProtocolResponse) (n : ℕ) (vs : List Value) (rest : Bytes)
      (o : Outcome × Text) : Type 0 where
    completed : o.0 ≡ complete
    left : o.1.m_read_buf ≡ rest
    state : o.1.m_response_state ≡ rs_initial
    hits : o.1.m_last_response.m_hits ≡ r.m_hits + length vs
    no_error : o.1.m_last_response.m_error ≡ r.m_error
    counted : o.1.m_last_response.m_total_len + length rest ≡ n + length (wire vs rest)

  first_status_keeps :
      (line : Bytes) (r : ProtocolResponse)
      → ((first_status line r).m_hits ≡ r.m_hits) × ((first_status line r).m_error ≡ r.m_error)
  unfolding first_status
  first_status_keeps line r = go r.m_status refl
    where
      go :
          (s : Option Bytes)
          → r.m_status ≡ s
          → ((first_status line r).m_hits ≡ r.m_hits) × ((first_status line r).m_error ≡ r.m_error)
      go none e = ground arith
      go (some s) e = ground arith

  end_line :
      (p : Text)
      → section_line (codes "END") p ≡ again (record p { m_response_state = rs_read_end })
  unfolding section_line
  end_line p = refl

  end_round :
      (p : Text)
      → p.m_response_state ≡ rs_read_end
      → round ev p ≡ returns complete (record p { m_response_state = rs_initial })
  unfolding round round_in
  end_round p e = ap (λ s. round_in ev s p) e

  end_rounds :
      (p : Text) (r : ProtocolResponse) (n f : ℕ) (rest : Bytes)
      → n + 5 < u32_mod
      → Read p r n [] rest (loop (round ev) (suc (suc f)) (in_section (wire [] rest) r n p))
  end_rounds p r n f rest fits =
      subst (Read p r n [] rest)
        (sym (
          loop_again (round ev) (suc f) (in_section (wire [] rest) r n p)
            (section_round ev laws p r n (codes "END") rest refl ∙ end_line _)
          ∙ loop_returns (round ev) f _ (end_round _ refl)))
        (record {
          completed = refl;
          left = refl;
          state = refl;
          hits = omega (arith, (first_status_keeps (codes "END") r).0);
          no_error = (first_status_keeps (codes "END") r).1;
          counted = omega arith;
        })

  values_rounds :
      (vs : List Value) (p : Text) (r : ProtocolResponse) (n f : ℕ) (rest : Bytes)
      → All IsSent vs
      → p.m_keep_value ≡ false
      → n + length (wire vs rest) < u32_mod
      → r.m_hits + length vs < u32_mod
      → Read p r n vs rest
          (loop (round ev) (length vs + length vs + suc (suc f)) (in_section (wire vs rest) r n p))
  values_rounds [] p r n f rest sent keep fits few =
      subst (λ k. Read p r n [] rest (loop (round ev) k (in_section (wire [] rest) r n p)))
        (let z : suc (suc f) ≡ 0 + suc (suc f) = omega arith in z)
        (end_rounds p r n f rest (omega arith))
  values_rounds (v ∷ vs) p r n f rest (s, sent) keep fits few =
      let size = length-wire v vs rest in
      let p' : Text = record p { m_value_len = length v.content } in
      let counted = line_end ev laws p r n v vs rest s + (length v.content + 2) in
      let kept = first_status_keeps (value_line v) r in
      let d =
        values_rounds vs p' (incr_hits (seen ev laws p r n v vs rest s)) counted f rest sent keep
          (omega (arith, size)) (omega (arith, kept.0)) in
      subst (Read p r n (v ∷ vs) rest)
        (sym (
          ap (λ k. loop (round ev) k (in_section (wire (v ∷ vs) rest) r n p))
            (let z : suc (length vs) + suc (length vs) + suc (suc f)
                  ≡ suc (suc (length vs + length vs + suc (suc f))) =
                omega arith in
              z)
          ∙ value_rounds ev laws p r n v vs rest s (length vs + length vs + suc (suc f)) keep))
        (record {
          completed = d.completed;
          left = d.left;
          state = d.state;
          hits = omega (arith, d.hits, kept.0);
          no_error = d.no_error ∙ kept.1;
          counted = omega (arith, d.counted, size);
        })

  -- The parser before a reply.
  abbrev pub waiting : Bool → Bytes → Text → Text
  waiting keep buf p = record p {
    m_read_buf = buf;
    m_response_state = rs_initial;
    m_keep_value = keep;
  }

  start :
      (p : Text) (keep : Bool) (buf : Bytes)
      → round ev (waiting keep buf p) ≡ again (in_section buf cleared 0 (waiting keep buf p))
  unfolding round round_in
  start p keep buf = refl

  Read-result :
      (p : Text) (vs : List Value) (rest : Bytes) (o : Outcome × Text)
      → Read p cleared 0 vs rest o
      → (x : Outcome × Text) → x ≡ o
      → (q : Text) × (x ≡ (complete, q))
        × (q.m_read_buf ≡ rest)
        × (q.m_response_state ≡ rs_initial)
        × (q.m_last_response.m_hits ≡ length vs)
        × (q.m_last_response.m_error ≡ false)
        × (q.m_last_response.m_total_len + length rest ≡ length (wire vs rest))
  Read-result p vs rest o d x e = (
    o.1,
    e ∙ (λ i. (d.completed i, o.1)),
    d.left,
    d.state,
    omega (arith, d.hits),
    d.no_error,
    omega (arith, d.counted),
  )

  -- A reply of any number of values, each with a key of less than 256 bytes without spaces, and END is
  -- complete, for a protocol that does not keep values: one hit is counted for each value, the length is
  -- that of the whole reply, there is no error, and the content behind the reply stays.
  pub parse_values :
      (p : Text) (vs : List Value) (rest : Bytes)
      → All IsSent vs
      → length (wire vs rest) < u32_mod
      → (q : Text) × (parse_response ev (waiting false (wire vs rest) p) ≡ (complete, q))
        × (q.m_read_buf ≡ rest)
        × (q.m_response_state ≡ rs_initial)
        × (q.m_last_response.m_hits ≡ length vs)
        × (q.m_last_response.m_error ≡ false)
        × (q.m_last_response.m_total_len + length rest ≡ length (wire vs rest))
  unfolding parse_response
  parse_values p vs rest sent fits =
      let buf = wire vs rest in
      let spare = length buf - (length vs + length vs) in
      let enough = wire-long vs rest in
      let d =
        values_rounds vs (waiting false buf p) cleared 0 spare rest sent refl (omega arith)
          (omega (arith, enough)) in
      let e =
        loop_again (round ev) (suc (suc (length buf))) _ (start p false buf)
        ∙ ap (λ k. loop (round ev) k (in_section buf cleared 0 (waiting false buf p)))
            (let z : suc (suc (length buf)) ≡ length vs + length vs + suc (suc spare) =
                omega (arith, enough) in
              z) in
      Read-result (waiting false buf p) vs rest _ d _ e

  -- For a protocol that keeps values, a reply whose first value is not empty ends in a failed
  -- assertion, since evbuffer_remove returns the number of bytes that it moved and not 0.
  pub parse_values_aborts :
      (p : Text) (v : Value) (vs : List Value) (rest : Bytes)
      → IsSent v
      → v.content ≢ []
      → (parse_response ev (waiting true (wire (v ∷ vs) rest) p)).0 ≡ aborted
  unfolding parse_response
  parse_values_aborts p v vs rest s ne =
      let buf = wire (v ∷ vs) rest in
      ap (λ o. o.0) (loop_again (round ev) (suc (suc (length buf))) _ (start p true buf))
      ∙ value_abort ev laws (waiting true buf p) cleared 0 v vs rest s (length buf) refl ne
