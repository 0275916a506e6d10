-- ===== src/Tests/Binary.antt =====
-- The binary protocol at a concrete reply: status 0, a body of 7 bytes, 4 of them extras.
use memtier_skewsyn.Prelude.{◌≡◌, refl, [], ◌∷◌, ◌++◌, true, arith, Bytes, codes, replicate}
use memtier_skewsyn.Tests.Buffer.{list_evbuffer, list_laws, split}
use memtier_skewsyn.Protocol.Base.{cleared, incomplete, loop}
use memtier_skewsyn.Protocol.Binary.{Binary, rs_initial, read_hdr, round, parse_response}
use memtier_skewsyn.Protocol.Binary.Chunks.{received, parse_response-received}
use memtier_skewsyn.Protocol.Binary.Reply.{Announces}

abbrev header : Bytes
header = 129 ∷ 0 ∷ 0 ∷ 0 ∷ 4 ∷ 0 ∷ 0 ∷ 0 ∷ 0 ∷ 0 ∷ 0 ∷ 7 ∷ replicate 12 0

abbrev binary : Binary
binary = record {
  m_read_buf = header ++ replicate 3 0;
  m_write_buf = [];
  m_keep_value = true;
  m_last_response = cleared;
  m_response_state = rs_initial;
  m_response_hdr = record { magic = 0; keylen = 0; extlen = 0; status = 0; bodylen = 0 };
  m_response_len = 0;
}

header-Announces : Announces (read_hdr header) (replicate 4 0) (codes "abc")
unfolding read_hdr
header-Announces = record {
  magic = refl;
  skipped = refl;
  whole = refl;
  some_body = omega arith;
  fits = omega arith;
}

-- The parser behind the header, with three bytes of the body.
abbrev waiting : Binary
waiting = (parse_response list_evbuffer binary).1

waits : parse_response list_evbuffer binary ≡ (incomplete, waiting)
unfolding parse_response loop round read_hdr split
waits = refl

parse_response-received_example :
    parse_response list_evbuffer (received (codes "xabc") waiting)
    ≡ parse_response list_evbuffer (received (codes "xabc") binary)
parse_response-received_example =
    parse_response-received list_evbuffer list_laws binary waiting (codes "xabc") waits
