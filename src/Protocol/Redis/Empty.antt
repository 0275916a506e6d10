-- ===== src/Protocol/Redis/Empty.antt =====
-- redis_protocol::parse_response at an array of no elements.
use memtier_skewsyn.Prelude.{◌+◌, ◌≡◌, refl, ◌∙◌, false, [], ◌∷◌, ◌++◌, arith, Bytes, ◌==◌, length}
use memtier_skewsyn.CLib.{minus_one}
use memtier_skewsyn.Evbuffer.{Evbuffer, IsEvbuffer, has_crlf}
use memtier_skewsyn.Protocol.Base.{
  cleared, set_status, set_mbulk_value, new_array, incomplete, returns, again, loop_returns,
  loop_again,
}
use memtier_skewsyn.Protocol.Redis.{
  Redis, rs_read_mbulk, initial_line, respond, round_mbulk, round_in, round, parse_response,
}
use memtier_skewsyn.Protocol.Redis.Single.{
  waiting, header, header-number_after, header-has_crlf, round_line,
}

module _ (ev : Evbuffer) (laws : IsEvbuffer ev) where
  -- The parser behind the header of the array.
  abbrev opened : Bytes → Redis → Redis
  opened rest p =
      respond (λ r. set_status (header b'*' 0) (set_mbulk_value (length p.mbulk.store) r))
        (record p {
          m_read_buf = rest;
          m_response_state = rs_read_mbulk;
          m_response_len = length (header b'*' 0) + 2;
          m_last_response = cleared;
          mbulk = record {
            store = p.mbulk.store ++ (new_array ∷ []);
            levels = record { mbulk_count = 0; mbulk = length p.mbulk.store } ∷ [];
          };
        })

  round-array :
      (p : Redis) (rest : Bytes)
      → round ev (waiting (header b'*' 0 ++ (b'\r' ∷ b'\n' ∷ rest)) p) ≡ again (opened rest p)
  unfolding initial_line
  round-array p rest =
      let n = header-number_after b'*' 0 refl (omega arith) in
      round_line ev laws p (header b'*' 0) rest (header-has_crlf b'*' 0 refl)
      ∙ rw (n, let z : (0 == minus_one) ≡ false = ground arith in z) refl

  waits :
      (p : Redis) (rest : Bytes)
      → has_crlf rest ≡ false
      → round ev (opened rest p) ≡ returns incomplete (opened rest p)
  unfolding round round_in round_mbulk
  waits p rest e = rw (laws.readln_none rest e, round_mbulk) refl

  -- An array of no elements is a whole reply, but parse_response does not take it for one: with only the start of
  -- another line behind it, it returns 0 and goes on waiting for elements.
  pub parse_array-empty :
      (p : Redis) (rest : Bytes)
      → has_crlf rest ≡ false
      → (q : Redis) × (parse_response ev (waiting (header b'*' 0 ++ (b'\r' ∷ b'\n' ∷ rest)) p)
          ≡ (incomplete, q))
        × (q.m_response_state ≡ rs_read_mbulk)
        × (q.m_read_buf ≡ rest)
  unfolding parse_response
  parse_array-empty p rest e = (
    opened rest p,
    loop_again (round ev) _ _ (round-array p rest) ∙ loop_returns (round ev) _ _ (waits p rest e),
    refl,
    refl,
  )
