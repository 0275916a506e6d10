-- ===== src/Protocol/Binary.antt =====
-- class memcache_binary_protocol of protocol.cpp, with the structures of libmemcached_protocol/binary.h that it
-- sends and receives. A number of a header is in network order on the wire.
pub mod Command
pub mod Chunks
pub mod Reply
pub mod Frames
use memtier_skewsyn.Prelude.{
  ℕ, zero, suc, ◌+◌, ◌-◌, ◌*◌, ◌/◌, ◌%◌, ◌^◌, Bool, true, false, not, ◌&&◌, ◌||◌, List, [], ◌∷◌,
  ◌++◌, Option, none, some, Bytes, codes, ltb, leb, ◌==◌, if◌then◌else◌, length, get_elem?, get_or,
  replicate,
}
use memtier_skewsyn.CLib.{u32_mod, u64_mod, c_str}
use memtier_skewsyn.Evbuffer.{Evbuffer}
use memtier_skewsyn.Protocol.Base.{
  ProtocolResponse, cleared, set_error, set_status, set_value, incr_hits, Outcome, complete,
  incomplete, failed, aborted, Round, returns, again, loop,
}

pub data ResponseState : Type 0 where
  rs_initial rs_read_body : ResponseState

-- The fields of protocol_binary_response_header that are looked at, in host order.
pub record ResponseHdr : Type 0 where
  pub magic : ℕ
  pub keylen : ℕ
  pub extlen : ℕ
  pub status : ℕ
  pub bodylen : ℕ

pub record Binary : Type 0 where
  pub m_read_buf : Bytes
  pub m_write_buf : Bytes
  pub m_keep_value : Bool
  pub m_last_response : ProtocolResponse
  pub m_response_state : ResponseState
  pub m_response_hdr : ResponseHdr
  pub m_response_len : ℕ

-- sizeof(protocol_binary_response_no_extras)
abbrev pub header_size : ℕ
header_size = 24

-- htons and htonl, as the bytes that they lay down
unfoldable pub htons : ℕ → Bytes
htons n = n / 256 % 256 ∷ n % 256 ∷ []

unfoldable pub htonl : ℕ → Bytes
htonl n = n / 16777216 % 256 ∷ n / 65536 % 256 ∷ n / 256 % 256 ∷ n % 256 ∷ []

-- ntohs and ntohl of the bytes from a place of the header on
unfoldable pub ntohs : ℕ → Bytes → ℕ
ntohs i h = get_or h i 0 * 256 + get_or h (i + 1) 0

unfoldable pub ntohl : ℕ → Bytes → ℕ
ntohl i h =
    ((get_or h i 0 * 256 + get_or h (i + 1) 0) * 256 + get_or h (i + 2) 0) * 256
    + get_or h (i + 3) 0

unfoldable pub read_hdr : Bytes → ResponseHdr
unfolding ntohs ntohl
read_hdr h = record {
  magic = get_or h 0 0;
  keylen = ntohs 2 h;
  extlen = get_or h 4 0;
  status = ntohs 6 h;
  bodylen = ntohl 8 h;
}

-- PROTOCOL_BINARY_REQ, PROTOCOL_BINARY_RES and the commands that are sent
abbrev pub magic_req : ℕ
magic_req = 128

abbrev pub magic_res : ℕ
magic_res = 129

abbrev pub cmd_get : ℕ
cmd_get = 0

abbrev pub cmd_set : ℕ
cmd_set = 1

abbrev pub cmd_sasl_auth : ℕ
cmd_sasl_auth = 33

status_str_00 : List Bytes
status_str_00 =
    codes "PROTOCOL_BINARY_RESPONSE_SUCCESS"
    ∷ codes "PROTOCOL_BINARY_RESPONSE_KEY_ENOENT"
    ∷ codes "PROTOCOL_BINARY_RESPONSE_KEY_EEXISTS"
    ∷ codes "PROTOCOL_BINARY_RESPONSE_E2BIG"
    ∷ codes "PROTOCOL_BINARY_RESPONSE_EINVAL"
    ∷ codes "PROTOCOL_BINARY_RESPONSE_NOT_STORED"
    ∷ codes "PROTOCOL_BINARY_RESPONSE_DELTA_BADVAL"
    ∷ codes "PROTOCOL_BINARY_RESPONSE_NOT_MY_VBUCKET"
    ∷ []

status_str_20 : List Bytes
status_str_20 =
    codes "PROTOCOL_BINARY_RESPONSE_AUTH_ERROR"
    ∷ codes "PROTOCOL_BINARY_RESPONSE_AUTH_CONTINUE"
    ∷ []

-- The NULL at the front of status_str_80 is left out.
status_str_80 : List Bytes
status_str_80 =
    codes "PROTOCOL_BINARY_RESPONSE_UNKNOWN_COMMAND"
    ∷ codes "PROTOCOL_BINARY_RESPONSE_ENOMEM"
    ∷ codes "PROTOCOL_BINARY_RESPONSE_NOT_SUPPORTED"
    ∷ codes "PROTOCOL_BINARY_RESPONSE_EINTERNAL"
    ∷ codes "PROTOCOL_BINARY_RESPONSE_EBUSY"
    ∷ codes "PROTOCOL_BINARY_RESPONSE_ETMPFAIL"
    ∷ []

-- memcache_binary_protocol::status_text
unfoldable pub status_text : ℕ → Option Bytes
unfolding status_str_00 status_str_20 status_str_80
status_text status =
    if leb status 7
    then get_elem? status_str_00 status
    else if leb 32 status && leb status 33
    then get_elem? status_str_20 (status - 32)
    else if leb 129 status && leb status 134
    then get_elem? status_str_80 (status - 129)
    else none

-- AUTH_ERROR, AUTH_CONTINUE, NOT_SUPPORTED, UNKNOWN_COMMAND and EBUSY
abbrev pub is_error_status : ℕ → Bool
is_error_status s = s == 32 || s == 33 || s == 131 || s == 129 || s == 133

-- The response behind its header.
abbrev note_status : Option Bytes → ProtocolResponse → ProtocolResponse
note_status none r = r
note_status (some text) r = set_status text r

abbrev pub header_response : ResponseHdr → ProtocolResponse
header_response h =
    let r = note_status (status_text h.status) cleared in
    if is_error_status h.status then set_error true r else r

-- The int actual_body_len, as a pattern, and what it is as a size_t
abbrev pub actual_body_len : ResponseHdr → ℕ
actual_body_len h = (h.bodylen + u32_mod + u32_mod - h.extlen - h.keylen) % u32_mod

abbrev pub as_size : ℕ → ℕ
as_size n = if ltb n (2 ^ 31) then n else u64_mod - u32_mod + n

module _ (ev : Evbuffer) where
  -- rs_initial, where there is a header
  header_read : ResponseHdr → Bytes → Binary → Round Binary
  unfolding status_text
  header_read h left p =
      if not (h.magic == magic_res)
      then returns failed (record p { m_read_buf = left; m_response_hdr = h })
      else (let q = record p {
        m_read_buf = left;
        m_response_hdr = h;
        m_response_len = header_size;
        m_last_response = header_response h;
      } in
          if ltb 0 h.bodylen
          then again (record q { m_response_state = rs_read_body })
          else returns complete q)

  round_initial : Binary → Round Binary
  unfolding read_hdr header_read
  round_initial p =
      let (header, left, ret) = ev.remove p.m_read_buf header_size in
      if ltb (ev.get_length p.m_read_buf) header_size
      then returns incomplete p
      else if not (ret == header_size)
      then returns aborted (record p { m_read_buf = left })
      else header_read (read_hdr header) left p

  -- rs_read_body, where the body has come; malloc of a negative length gives NULL.
  body_read : Binary → Round Binary
  body_read p =
      let h = p.m_response_hdr in
      let n = actual_body_len h in
      let buf = ev.drain p.m_read_buf (h.extlen + h.keylen) in
      let (value, left, ret) = ev.remove buf (as_size n) in
      let r = if p.m_keep_value then set_value value n p.m_last_response else p.m_last_response in
      if p.m_keep_value && leb (2 ^ 31) n
      then returns aborted (record p { m_read_buf = buf })
      else returns complete (record p {
        m_read_buf = if p.m_keep_value then left else ev.drain buf (as_size n);
        m_last_response = if h.status == 0 then incr_hits r else r;
        m_response_len = p.m_response_len + h.bodylen;
        m_response_state = rs_initial;
      })

  round_body : Binary → Round Binary
  unfolding body_read
  round_body p =
      if leb p.m_response_hdr.bodylen (ev.get_length p.m_read_buf)
      then body_read p
      else returns incomplete p

  round_in : ResponseState → Binary → Round Binary
  unfolding round_initial round_body
  round_in rs_initial p = round_initial p
  round_in rs_read_body p = round_body p

  unfoldable pub round : Binary → Round Binary
  unfolding round_in
  round p = round_in p.m_response_state p

  -- memcache_binary_protocol::parse_response: a header and a body are all that it reads.
  unfoldable pub parse_response : Binary → Outcome × Binary
  parse_response p = loop round 2 p
