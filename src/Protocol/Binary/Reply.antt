-- ===== src/Protocol/Binary/Reply.antt =====
-- memcache_binary_protocol::parse_response on a whole reply.
use memtier_skewsyn.Prelude.{
  ◌+◌, ◌-◌, ◌<◌, ◌≡◌, refl, ◌∙◌, Bool, true, false, ◌&&◌, ◌++◌, arith, Bytes, ltb, leb, ◌==◌,
  if◌then◌else◌, length, length-append, take, drop, take_append, drop_append,
}
use memtier_skewsyn.CLib.{u32_mod}
use memtier_skewsyn.Evbuffer.{Evbuffer, IsEvbuffer}
use memtier_skewsyn.Protocol.Base.{
  ProtocolResponse, set_value, incr_hits, complete, returns, again, loop_returns, loop_again,
}
use memtier_skewsyn.Protocol.Binary.{
  Binary, ResponseHdr, rs_initial, rs_read_body, read_hdr, header_response, header_read,
  round_initial, body_read, round_body, round_in, round, parse_response, actual_body_len, as_size,
  header_size, magic_res,
}

-- The header announces the extras and the key, and the value behind them.
pub record Announces (h : ResponseHdr) (extra value : Bytes) : Type 0 where
  pub magic : h.magic ≡ magic_res
  pub skipped : h.extlen + h.keylen ≡ length extra
  pub whole : h.bodylen ≡ length extra + length value
  pub some_body : 0 < h.bodylen
  pub fits : h.bodylen < 2147483648

&&-false : (b : Bool) → (b && false) ≡ false
&&-false true = refl
&&-false false = refl

if-same : (b : Bool) (x : Bytes) → (if b then x else x) ≡ x
if-same true x = refl
if-same false x = refl

module _ (ev : Evbuffer) (laws : IsEvbuffer ev) (p : Binary) (header extra value rest : Bytes)
    (size : length header ≡ 24) (a : Announces (read_hdr header) extra value) where
  abbrev h : ResponseHdr
  h = read_hdr header

  abbrev body : Bytes
  body = extra ++ (value ++ rest)

  abbrev pub sent : Binary
  sent = record p { m_read_buf = header ++ body; m_response_state = rs_initial }

  abbrev behind : Binary
  behind = record p {
    m_read_buf = body;
    m_response_hdr = h;
    m_response_len = header_size;
    m_last_response = header_response h;
    m_response_state = rs_read_body;
  }

  first_round : round ev sent ≡ again behind
  unfolding round round_in round_initial header_read
  first_round =
      let front : take 24 (header ++ body) ≡ header = (rw⁻¹ size (take_append header body)) in
      let back : drop 24 (header ++ body) ≡ body = (rw⁻¹ size (drop_append header body)) in
      let long : ltb (length (header ++ body)) 24 ≡ false =
        ground (arith, size, length-append header body) in
      rw
        (
          laws.get_length_lem (header ++ body),
          long,
          laws.remove_lem (header ++ body) 24,
          front,
          back,
          let z : (length header == 24) ≡ true = ground (arith, size) in z,
          let z : (h.magic == magic_res) ≡ true = ground (arith, a.magic) in z,
          let z : ltb 0 h.bodylen ≡ true = ground (arith, a.some_body) in z,
        )
        refl

  -- The response: that of the header, with the value where it is kept, and a hit where the status is success.
  abbrev kept : ProtocolResponse
  kept =
      if p.m_keep_value
      then set_value value (length value) (header_response h)
      else header_response h

  abbrev pub answered : Binary
  answered = record p {
    m_read_buf = rest;
    m_response_hdr = h;
    m_response_state = rs_initial;
    m_response_len = 24 + h.bodylen;
    m_last_response = if h.status == 0 then incr_hits kept else kept;
  }

  value_length : actual_body_len h ≡ length value
  value_length =
      let z : h.bodylen + u32_mod + u32_mod - h.extlen - h.keylen
          ≡ u32_mod + u32_mod + length value =
        omega (arith, a.whole, a.skipped) in
      rw z (omega (arith, a.whole, a.fits))

  value_size : as_size (length value) ≡ length value
  value_size =
      rw (let z : ltb (length value) 2147483648 ≡ true = ground (arith, a.whole, a.fits) in z) refl

  taken : body_read ev behind ≡ returns complete answered
  unfolding body_read
  taken =
      rw
        (
          value_length,
          value_size,
          a.skipped,
          laws.drain_lem body (length extra),
          drop_append extra (value ++ rest),
          laws.remove_lem (value ++ rest) (length value),
          laws.drain_lem (value ++ rest) (length value),
          take_append value rest,
          drop_append value rest,
          let z : leb 2147483648 (length value) ≡ false = ground (arith, a.whole, a.fits) in z,
        )
        (rw (&&-false p.m_keep_value, if-same p.m_keep_value rest) refl)

  body_round : round ev behind ≡ returns complete answered
  unfolding round round_in round_body
  body_round =
      rw
        (let z : leb h.bodylen (ev.get_length body) ≡ true =
            (rw (laws.get_length_lem body) (
              ground
                (arith, a.whole, length-append extra (value ++ rest), length-append value rest))) in
          z)
        taken

  -- A reply whose header announces a body, of less than 2^31 bytes, is complete in one call: the extras and the
  -- key are dropped, the value is kept where values are, the status says whether it is an error and whether it
  -- is a hit, and the bytes behind the reply stay.
  pub parse_reply : parse_response ev sent ≡ (complete, answered)
  unfolding parse_response
  parse_reply =
      loop_again (round ev) 1 sent first_round ∙ loop_returns (round ev) 0 behind body_round
