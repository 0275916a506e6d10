-- ===== src/ShardConnection/Event.antt =====
-- shard_connection::handle_event and process_first_request.
pub mod Drops
use memtier_skewsyn.Prelude.{
  ℕ, zero, suc, ◌+◌, Bool, true, false, not, ◌&&◌, ◌||◌, Option, none, some, ◌==◌, if◌then◌else◌,
}
use memtier_skewsyn.ShardConnection.{Config, Protocol, Connection, Manager, disconnect}
use memtier_skewsyn.ShardConnection.Fill.{
  Outside, System, Filled, filled, write_failed, out_of_fuel, fill_pipeline,
}
use memtier_skewsyn.ShardConnection.Handle.{
  Processed, processed, refused, crash, fuel_spent, process_response,
}

-- evtype: EV_WRITE and EV_READ
pub record EventType : Type 0 where
  pub is_write : Bool
  pub is_read : Bool

-- How the loop of evbuffer_read ends: there is no more to read, an error, or the end of the stream.
pub data ReadEnd : Type 0 where
  no_more read_error dropped : ReadEnd

-- What handle_event takes from outside besides: SO_ERROR of the socket, if getsockopt gives it; a write of the rest of
-- the buffer, which says whether it failed with anything but EWOULDBLOCK; the read; and whether the buffers hold
-- anything. The clocks of the manager go with it.
pub record EventIo (P M T : Type 0) : Type 0 where
  pub unix_socket : Bool
  pub so_error : T → Option ℕ × T
  pub flush : T → P → Bool × T × P
  pub read : T → P → ReadEnd × T × P
  pub write_pending : P → Bool
  pub read_pending : P → Bool
  pub set_start_time : M → M
  pub set_end_time : M → M

module _ {P M T : Type 0} (protocol : Protocol P) (config : Config) (man : Manager P M)
    (out : Outside P T) (io : EventIo P M T) (fuel now : ℕ) where
  -- How handle_event ends: it has returned early; the event is added again, to read or not, and to write; the test is
  -- finished; an assertion has failed; or the fuel of the model is spent.
  pub data Handling : Type 0 where
    left_off : System P M T → Handling
    waits : Bool → System P M T → Handling
    ended : System P M T → Handling
    aborts : Handling
    spent : Handling

  -- Behind fill_pipeline
  abbrev pub after_fill : (System P M T → Handling) → Filled × System P M T → Handling
  after_fill go_on (filled, s) = go_on s
  after_fill go_on (write_failed, s) = go_on s
  after_fill go_on (out_of_fuel, s) = spent

  abbrev pub dropping : System P M T → Handling
  dropping s = left_off (record s { conn = disconnect protocol config s.conn })

  -- update event
  abbrev pub update_event : System P M T → Handling
  update_event s =
      if man.finished s.manager
      then ended (record s { manager = io.set_end_time s.manager })
      else waits (not (s.conn.m_pending_resp == 0)) s

  -- Send out request when writable
  abbrev pub writable : EventType → System P M T → Handling
  writable e s =
      if e.is_write
      then after_fill update_event (fill_pipeline protocol config man out fuel s)
      else update_event s

  abbrev pub if_connected : (System P M T → Handling) → System P M T → Handling
  if_connected go_on s = if s.conn.m_connected then go_on s else left_off s

  abbrev pub after_process :
      (System P M T → Handling) → Processed protocol config man out → Handling
  after_process go_on (processed o h s) = if_connected go_on s
  after_process go_on (refused s) = if_connected go_on s
  after_process go_on crash = aborts
  after_process go_on fuel_spent = spent

  abbrev pub after_read : (System P M T → Handling) → ReadEnd → System P M T → Handling
  after_read go_on read_error s = dropping s
  after_read go_on dropped s = dropping s
  after_read go_on no_more s =
      if io.read_pending s.conn.m_protocol
      then after_process go_on (process_response protocol config man out fuel now s)
      else go_on s

  abbrev pub readable : EventType → System P M T → Handling
  readable e s =
      let (end, t, p) = io.read s.outside s.conn.m_protocol in
      if e.is_read
      then after_read (writable e) end
          (record s { conn = record s.conn { m_protocol = p }; outside = t })
      else writable e s

  -- Send if something remained in the buffer
  abbrev pub remaining : EventType → System P M T → Handling
  remaining e s =
      let (fails, t, p) = io.flush s.outside s.conn.m_protocol in
      let s1 = record s { conn = record s.conn { m_protocol = p }; outside = t } in
      if e.is_write && io.write_pending s.conn.m_protocol
      then (if fails then dropping s1 else readable e s1)
      else readable e s

  -- The assertion that the connection is there
  unfoldable pub with_connection : EventType → System P M T → Handling
  with_connection e s = if s.conn.m_connected then remaining e s else aborts

  -- process_first_request, or the test goes on.
  unfoldable pub first_request : System P M T → Filled × System P M T
  first_request s = fill_pipeline protocol config man out fuel (
      if man.get_reqs_processed s.manager == 0
      then record s { manager = io.set_start_time s.manager }
      else s)

  -- The response of connect
  abbrev pub connect_response : EventType → Option ℕ → System P M T → Handling
  connect_response e none s = left_off s
  connect_response e (some error) s =
      if error == 0
      then after_fill (with_connection e)
          (first_request (record s { conn = record s.conn { m_connected = true } }))
      else left_off s

  -- shard_connection::handle_event
  unfoldable pub handle_event : EventType → System P M T → Handling
  unfolding with_connection first_request
  handle_event e s =
      let (error, t) = io.so_error s.outside in
      if not s.conn.m_connected && ((e.is_write && not e.is_read) || io.unix_socket)
      then connect_response e error (record s { outside = t })
      else with_connection e s
