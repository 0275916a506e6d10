-- ===== src/Protocol/Redis.antt =====
-- class redis_protocol of protocol.cpp: the parser of replies. The commands are in Command.
pub mod Command
pub mod Single
pub mod Reply
pub mod Elements
pub mod Array
pub mod Holds
pub mod Ends
pub mod Empty
use memtier_skewsyn.Prelude.{
  ℕ, zero, suc, ◌+◌, ◌-◌, ◌*◌, ◌%◌, Bool, true, false, not, ◌&&◌, ◌||◌, List, [], ◌∷◌, ◌++◌, Option,
  none, some, Bytes, ltb, leb, ◌==◌, if◌then◌else◌, length,
}
use memtier_skewsyn.CLib.{u32_mod, first, rest_of, strtol, to_u32, minus_one, c_str}
use memtier_skewsyn.Evbuffer.{Evbuffer}
use memtier_skewsyn.Protocol.Base.{
  ProtocolResponse, cleared, set_error, set_status, set_value, set_total_len, incr_hits,
  set_mbulk_value, MbulkLevel, Mbulk, new_array, new_value, add_mbulk_value, add_mbulk_array,
  Outcome, complete, incomplete, failed, overrun, Round, returns, again, loop,
}

pub data ResponseState : Type 0 where
  rs_initial rs_read_bulk rs_read_mbulk : ResponseState

-- The fields of abstract_protocol and of redis_protocol; the element store goes with its levels.
pub record Redis : Type 0 where
  pub m_read_buf : Bytes
  pub m_write_buf : Bytes
  pub m_keep_value : Bool
  pub m_last_response : ProtocolResponse
  pub m_response_state : ResponseState
  pub m_bulk_len : ℕ
  pub m_response_len : ℕ
  pub mbulk : Mbulk

-- int len = strtol(line + 1, NULL, 10), as a pattern
abbrev pub number_after : Bytes → ℕ
number_after line = to_u32 (strtol (rest_of (c_str line))).0

abbrev pub respond : (ProtocolResponse → ProtocolResponse) → Redis → Redis
respond f p = record p { m_last_response = f p.m_last_response }

-- rs_initial, after a line was read and the last response cleared
pub initial_line : Bytes → Redis → Round Redis
initial_line line p =
    let n = number_after line in
    if first line == b'*'
    then (if n == minus_one
        then returns complete (respond (set_status line) p)
        else again (
            respond (λ r. set_status line (set_mbulk_value (length p.mbulk.store) r))
              (record p {
                m_response_state = rs_read_mbulk;
                mbulk = record {
                  store = p.mbulk.store ++ (new_array ∷ []);
                  levels = record { mbulk_count = n; mbulk = length p.mbulk.store } ∷ [];
                };
              })))
    else if first line == b'$'
    then (if n == minus_one
        then returns complete (respond (set_status line) p)
        else again (
            respond (set_status line)
              (record p { m_bulk_len = n; m_response_state = rs_read_bulk })))
    else if first line == b'+' || first line == b'-' || first line == b':'
    then returns complete (
        respond
          (λ r.
            let r' = set_total_len (to_u32 p.m_response_len) (set_status line r) in
            if first line == b'-' then set_error true r' else r')
          p)
    else returns failed p

-- After a value was added: the reply ends when no level is open.
after_value_in : List MbulkLevel → Redis → Round Redis
after_value_in [] p = returns complete (record p { m_response_state = rs_initial })
after_value_in (_ ∷ _) p = again p

after_value : Redis → Round Redis
unfolding after_value_in
after_value p = after_value_in p.mbulk.levels p

-- add_mbulk_value and add_mbulk_array take back() of the open levels: it is undefined where none is open.
abbrev pub with_level : List MbulkLevel → Redis → Round Redis → Round Redis
with_level [] p next = returns overrun p
with_level (_ ∷ _) p next = next

module _ (ev : Evbuffer) where
  round_initial : Redis → Round Redis
  round_initial p = elim (ev.readln p.m_read_buf) [
    | none ↦ returns incomplete p
    | some (line, rest) ↦ initial_line line (record p {
      m_read_buf = rest;
      m_response_len = length line + 2;
      m_last_response = cleared;
    })
  ]

  -- The $ of rs_read_mbulk, behind its line; m_bulk_len + 2 is unsigned.
  mbulk_bulk : Redis → Round Redis
  mbulk_bulk p =
      if leb ((p.m_bulk_len + 2) % u32_mod) (ev.get_length p.m_read_buf)
      then (let (value, left, _) = ev.remove p.m_read_buf p.m_bulk_len in
          with_level p.mbulk.levels p (
            after_value (record p {
              m_read_buf = ev.drain left 2;
              mbulk = add_mbulk_value (new_value value p.m_bulk_len) p.mbulk;
            })))
      else returns incomplete p

  pub mbulk_line : Bytes → Redis → Round Redis
  mbulk_line line p =
      if first line == b'*'
      then with_level p.mbulk.levels p (
          again (
            respond (set_status line) (record p {
              mbulk = add_mbulk_array (number_after line) p.mbulk;
              m_response_state = rs_read_mbulk;
            })))
      else if first line == b':'
      then (let value = rest_of (c_str line) in
          with_level p.mbulk.levels p (
            after_value
              (record p { mbulk = add_mbulk_value (new_value value (length value)) p.mbulk })))
      else if first line == b'$'
      then mbulk_bulk (record p { m_bulk_len = number_after line })
      else again p

  round_mbulk : Redis → Round Redis
  round_mbulk p = elim (ev.readln p.m_read_buf) [
    | none ↦ returns incomplete p
    | some (line, rest) ↦
        mbulk_line line (record p { m_read_buf = rest; m_response_len = length line })
  ]

  round_bulk : Redis → Round Redis
  round_bulk p =
      if leb ((p.m_bulk_len + 2) % u32_mod) (ev.get_length p.m_read_buf)
      then (let (value, left, _) = ev.remove p.m_read_buf p.m_bulk_len in
          let taken =
            if p.m_keep_value && ltb 0 p.m_bulk_len
            then respond (set_value value p.m_bulk_len) (record p { m_read_buf = ev.drain left 2 })
            else record p { m_read_buf = ev.drain p.m_read_buf ((p.m_bulk_len + 2) % u32_mod) } in
          returns complete (
            respond
              (λ r.
                let r' = set_total_len (to_u32 (p.m_response_len + p.m_bulk_len + 2)) r in
                if ltb 0 p.m_bulk_len then incr_hits r' else r')
              (record taken { m_response_state = rs_initial })))
      else returns incomplete p

  round_in : ResponseState → Redis → Round Redis
  round_in rs_initial p = round_initial p
  round_in rs_read_mbulk p = round_mbulk p
  round_in rs_read_bulk p = round_bulk p

  pub round : Redis → Round Redis
  unfolding round_in
  round p = round_in p.m_response_state p

  -- redis_protocol::parse_response. A round takes a line or returns, except that a bulk takes two.
  pub parse_response : Redis → Outcome × Redis
  parse_response p = loop round (suc (suc (length p.m_read_buf))) p
