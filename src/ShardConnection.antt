-- ===== src/ShardConnection.antt =====
-- shard_connection.h and shard_connection.cpp: one connection, the queue of its requests, and its use of the
-- connections manager.
pub mod Fill
pub mod Handle
pub mod Setup
pub mod Order
pub mod Event
use memtier_skewsyn.Prelude.{
  ℕ, zero, suc, ◌+◌, ◌-◌, ◌%◌, Bool, true, false, not, ◌&&◌, List, [], ◌∷◌, ◌++◌, Option, none,
  some, Bytes, codes, bytes_eq, ltb, leb, ◌==◌, if◌then◌else◌, length,
}
use memtier_skewsyn.CLib.{c_str}
use memtier_skewsyn.Protocol.Base.{ProtocolResponse, Outcome, complete}

pub data RequestType : Type 0 where
  rt_unknown rt_set rt_get rt_wait rt_auth rt_select_db rt_cluster_slots : RequestType

-- struct request; the time is in microseconds.
pub record Request : Type 0 where
  pub m_type : RequestType
  pub m_sent_time : ℕ
  pub m_size : ℕ
  pub m_keys : ℕ

-- authentication_state, select_db_state and cluster_slots_state
pub data SetupState : Type 0 where
  setup_none setup_sent setup_done : SetupState

abbrev pub is_done : SetupState → Bool
is_done setup_done = true
is_done _ = false

-- What benchmark_config says of a connection.
pub record Config : Type 0 where
  pub authenticate : Option Bytes
  pub select_db : ℕ
  pub pipeline : ℕ
  pub reconnect_interval : ℕ

-- class abstract_protocol, as the connection uses it. `mbulk_array` is that of the mbulk value of the
-- response, and none where it is NULL.
pub record Protocol (P : Type 0) : Type 0 where
  pub parse_response : P → Outcome × P
  pub get_response : P → ProtocolResponse
  pub mbulk_array : P → Option (List ℕ)
  pub send_authenticate : Bytes → P → P
  pub send_select_db : ℕ → P → P
  pub send_cluster_slots : P → P
  -- evbuffer_drain of the whole of both buffers
  pub drain_buffers : P → P

-- class shard_connection, but its socket and its event
pub record Connection (P : Type 0) : Type 0 where
  pub m_protocol : P
  pub m_pipeline : List Request
  pub m_pending_resp : ℕ
  pub m_connected : Bool
  pub m_authentication : SetupState
  pub m_db_selection : SetupState
  pub m_cluster_slots : SetupState
  pub next_cycle_time : ℕ

-- class connections_manager. It makes requests by the send commands of the connection.
pub record Manager (P M : Type 0) : Type 0 where
  pub get_reqs_processed : M → ℕ
  pub inc_reqs_processed : M → M
  pub finished : M → Bool
  pub hold_pipeline : M → Bool
  pub handle_cluster_slots : ProtocolResponse → M → M
  pub handle_response : ℕ → Request → ProtocolResponse → M → M
  pub create_request : ℕ → M × Connection P → M × Connection P
  pub disconnect : M × Connection P → M × Connection P
  pub connect : M × Connection P → ℕ × M × Connection P

module _ {P : Type 0} where
  -- shard_connection::shard_connection
  unfoldable pub new_connection : P → Connection P
  new_connection protocol = record {
    m_protocol = protocol;
    m_pipeline = [];
    m_pending_resp = 0;
    m_connected = false;
    m_authentication = setup_done;
    m_db_selection = setup_done;
    m_cluster_slots = setup_done;
    next_cycle_time = 0;
  }

  -- shard_connection::push_req
  unfoldable pub push_req : Request → Connection P → Connection P
  push_req req c = record c {
    m_pipeline = c.m_pipeline ++ (req ∷ []);
    m_pending_resp = c.m_pending_resp + 1;
  }

  -- shard_connection::pop_req. The front of an empty queue, or a count below 0, is `none`.
  abbrev pop_from : List Request → Connection P → Option (Request × Connection P)
  pop_from [] c = none
  pop_from (req ∷ reqs) c =
      if c.m_pending_resp == 0
      then none
      else some (req, record c { m_pipeline = reqs; m_pending_resp = c.m_pending_resp - 1 })

  unfoldable pub pop_req : Connection P → Option (Request × Connection P)
  pop_req c = pop_from c.m_pipeline c

  -- shard_connection::is_conn_setup_done
  unfoldable pub is_conn_setup_done : Connection P → Bool
  is_conn_setup_done c =
      is_done c.m_authentication && is_done c.m_db_selection && is_done c.m_cluster_slots

  -- The new request of a command, and its place in the queue.
  unfoldable pub send_command : RequestType → ℕ → ℕ → (P → P × ℕ) → Connection P → Connection P
  unfolding push_req
  send_command type sent_time keys write c =
      let (protocol, cmd_size) = write c.m_protocol in
      push_req (record { m_type = type; m_sent_time = sent_time; m_size = cmd_size; m_keys = keys })
        (record c { m_protocol = protocol })

module _ {P : Type 0} (protocol : Protocol P) (config : Config) where
  abbrev credentials_of : Option Bytes → Bytes
  credentials_of none = []
  credentials_of (some s) = s

  send_authentication : ℕ → SetupState → Connection P → Connection P
  unfolding push_req
  send_authentication now setup_none c =
      record (push_req (record { m_type = rt_auth; m_sent_time = now; m_size = 0; m_keys = 0 })
        (record c {
          m_protocol = protocol.send_authenticate (credentials_of config.authenticate) c.m_protocol;
        })) { m_authentication = setup_sent }
  send_authentication now _ c = c

  send_db_selection : ℕ → SetupState → Connection P → Connection P
  unfolding push_req
  send_db_selection now setup_none c =
      record (push_req (record { m_type = rt_select_db; m_sent_time = now; m_size = 0; m_keys = 0 })
        (record c { m_protocol = protocol.send_select_db config.select_db c.m_protocol })) {
          m_db_selection = setup_sent;
        }
  send_db_selection now _ c = c

  send_slots : ℕ → SetupState → Connection P → Connection P
  unfolding push_req
  send_slots now setup_none c =
      record (push_req
        (record { m_type = rt_cluster_slots; m_sent_time = now; m_size = 0; m_keys = 0 })
        (record c { m_protocol = protocol.send_cluster_slots c.m_protocol })) {
          m_cluster_slots = setup_sent;
        }
  send_slots now _ c = c

  -- shard_connection::send_conn_setup_commands
  unfoldable pub send_conn_setup_commands : ℕ → Connection P → Connection P
  unfolding send_authentication send_db_selection send_slots
  send_conn_setup_commands now c =
      let c1 = send_authentication now c.m_authentication c in
      let c2 = send_db_selection now c1.m_db_selection c1 in send_slots now c2.m_cluster_slots c2

  -- shard_connection::disconnect, but the socket and the event
  unfoldable pub disconnect : Connection P → Connection P
  disconnect c = record c {
    m_protocol = protocol.drain_buffers c.m_protocol;
    m_connected = false;
    m_authentication = setup_done;
    m_db_selection = setup_done;
    m_cluster_slots = setup_done;
  }

  -- shard_connection::connect, but the socket and the event
  unfoldable pub connect : Connection P → Connection P
  connect c = record c {
    m_protocol = protocol.drain_buffers c.m_protocol;
    m_authentication = elim config.authenticate [ none ↦ setup_done | some s ↦ setup_none ];
    m_db_selection = if config.select_db == 0 then setup_done else setup_none;
  }
