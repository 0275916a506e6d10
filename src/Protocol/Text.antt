-- ===== src/Protocol/Text.antt =====
-- class memcache_text_protocol of protocol.cpp.
pub mod Wire
pub mod Rounds
pub mod Values
pub mod Ends
pub mod Command
use memtier_skewsyn.Prelude.{
  ℕ, zero, suc, ◌+◌, ◌-◌, ◌*◌, ◌%◌, Bool, true, false, not, ◌&&◌, ◌||◌, List, [], ◌∷◌, ◌++◌, Option,
  none, some, Bytes, codes, ltb, leb, ◌==◌, if◌then◌else◌, length,
}
use memtier_skewsyn.CLib.{
  u32_mod, u64_mod, to_u32, print_u, print_s, c_str, starts_with, scan_s, scan_u,
}
use memtier_skewsyn.Evbuffer.{Evbuffer}
use memtier_skewsyn.Protocol.Base.{
  ProtocolResponse, cleared, set_error, set_status, set_value, set_total_len, incr_hits, Outcome,
  complete, incomplete, failed, aborted, overrun, Round, returns, again, loop,
}
use memtier_skewsyn.Protocol.Keylist.{Keylist, get_key}

pub data ResponseState : Type 0 where
  rs_initial rs_read_section rs_read_value rs_read_end : ResponseState

pub record Text : Type 0 where
  pub m_read_buf : Bytes
  pub m_write_buf : Bytes
  pub m_keep_value : Bool
  pub m_last_response : ProtocolResponse
  pub m_response_state : ResponseState
  pub m_value_len : ℕ
  pub m_response_len : ℕ

-- What sscanf makes of a VALUE line: the length; too few fields; or a word longer than its array, prefix
-- of 50 bytes and key of 256.
pub data Scanned : Type 0 where
  value_len : ℕ → Scanned
  too_few : Scanned
  too_long : Scanned

scan_lengths : Option (ℕ × Bytes) → Scanned
scan_lengths none = too_few
scan_lengths (some (flags, rest)) = elim (scan_u rest) [
  | none ↦ too_few
  | some (n, _) ↦ value_len n
]

scan_key : Option (Bytes × Bytes) → Scanned
unfolding scan_lengths
scan_key none = too_few
scan_key (some (key, rest)) = elim (leb 256 (length key)) [
  | true ↦ too_long
  | false ↦ scan_lengths (scan_u rest)
]

scan_prefix : Option (Bytes × Bytes) → Scanned
unfolding scan_key
scan_prefix none = too_few
scan_prefix (some (prefix, rest)) = elim (leb 50 (length prefix)) [
  | true ↦ too_long
  | false ↦ scan_key (scan_s rest)
]

-- sscanf(line, "%s %s %u %u %u", …) with four or five fields
unfoldable pub scan_value : Bytes → Scanned
unfolding scan_prefix
scan_value line = scan_prefix (scan_s (c_str line))

respond : (ProtocolResponse → ProtocolResponse) → Text → Text
respond f p = record p { m_last_response = f p.m_last_response }

value_round : Scanned → Text → Round Text
value_round (value_len n) p = again (record p { m_value_len = n; m_response_state = rs_read_value })
value_round too_few p = returns failed p
value_round too_long p = returns overrun p

-- rs_read_section, behind the line that was read
unfoldable pub section_line : Bytes → Text → Round Text
unfolding value_round respond
section_line line p =
    let text = c_str line in
    if starts_with (codes "VALUE") text
    then value_round (scan_value line) p
    else if starts_with (codes "END") text || starts_with (codes "STORED") text
    then again (record p { m_response_state = rs_read_end })
    else returns failed (respond (set_error true) p)

-- The first line of a response is its status.
pub first_status : Bytes → ProtocolResponse → ProtocolResponse
first_status line r = elim r.m_status [ none ↦ set_status line r | some s ↦ r ]

module _ (ev : Evbuffer) where
  round_section : Text → Round Text
  unfolding first_status respond
  round_section p = elim (ev.readln p.m_read_buf) [
    | none ↦ returns incomplete p
    | some (line, rest) ↦
        let n = p.m_response_len + length line + 2 in
        section_line line (
          respond (λ r. set_total_len (to_u32 n) (first_status line r))
            (record p { m_read_buf = rest; m_response_len = n }))
  ]

  -- The assertion on evbuffer_remove asks for 0, and evbuffer_remove returns the number of bytes.
  take_value : Text → Round Text
  unfolding respond
  take_value p =
      let (value, left, ret) = ev.remove p.m_read_buf p.m_value_len in
      let kept = respond (set_value value p.m_value_len) (record p { m_read_buf = left }) in
      let taken =
        if p.m_keep_value
        then kept
        else record p { m_read_buf = ev.drain p.m_read_buf p.m_value_len } in
      if p.m_keep_value && not (ret == 0)
      then returns aborted (record p { m_read_buf = left })
      else again (
          respond incr_hits (record taken {
            m_read_buf = ev.drain taken.m_read_buf 2;
            m_response_len = p.m_response_len + (p.m_value_len + 2) % u32_mod;
            m_response_state = rs_read_section;
          }))

  round_value : Text → Round Text
  unfolding take_value
  round_value p =
      if leb ((p.m_value_len + 2) % u32_mod) (ev.get_length p.m_read_buf)
      then take_value p
      else returns incomplete p

  round_in : ResponseState → Text → Round Text
  unfolding round_section round_value
  round_in rs_initial p = again (record p {
    m_last_response = cleared;
    m_response_state = rs_read_section;
    m_response_len = 0;
  })
  round_in rs_read_section p = round_section p
  round_in rs_read_value p = round_value p
  round_in rs_read_end p = returns complete (record p { m_response_state = rs_initial })

  pub round : Text → Round Text
  unfolding round_in
  round p = round_in p.m_response_state p

  -- memcache_text_protocol::parse_response. A line takes a round, a value takes one more, and the first
  -- and the last round take nothing.
  pub parse_response : Text → Outcome × Text
  parse_response p = loop round (suc (suc (suc (length p.m_read_buf)))) p

  -- memcache_text_protocol::write_command_set; a refused assertion is `none`.
  pub write_command_set : Bytes → Bytes → ℕ → Bytes → Option (Bytes × ℕ)
  write_command_set key value expiry write_buf =
      let (b, size) = ev.add_printf write_buf (
        codes "set "
        ++ (print_s (length key) key
            ++ (codes " 0 "
                ++ (print_u expiry ++ (codes " " ++ (print_u (length value) ++ codes "\r\n")))))) in
      if length key == 0 || length value == 0
      then none
      else some (ev.add (ev.add b value) (codes "\r\n"), size + (length value + 2))

  -- memcache_text_protocol::write_command_get
  pub write_command_get : Bytes → Bytes → Option (Bytes × ℕ)
  write_command_get key write_buf =
      if length key == 0
      then none
      else some
          (ev.add_printf write_buf (codes "get " ++ (print_s (length key) key ++ codes "\r\n")))

  -- The loop of write_command_multi_get over the keys from index i on.
  multi_keys : ℕ → ℕ → Keylist → Bytes × ℕ → Option (Bytes × ℕ)
  multi_keys zero i keys r = some r
  multi_keys (suc left) i keys (b, size) = elim (get_key i keys) [
    | none ↦ none
    | some key ↦
        multi_keys left (suc i) keys (ev.add (ev.add b (codes " ")) key, size + 1 + length key)
  ]

  end_keys : Option (Bytes × ℕ) → Option (Bytes × ℕ)
  end_keys none = none
  end_keys (some (b, size)) = some (ev.add b (codes "\r\n"), size + 2)

  -- memcache_text_protocol::write_command_multi_get
  pub write_command_multi_get : Keylist → Bytes → Option (Bytes × ℕ)
  unfolding multi_keys end_keys
  write_command_multi_get keys write_buf =
      if keys.m_keys_count == 0
      then none
      else end_keys (multi_keys keys.m_keys_count 0 keys (ev.add write_buf (codes "get"), 3))
