-- ===== src/Cluster/Shards.antt =====
-- The connections of cluster_client, and the shard that each hash slot belongs to: connect, disconnect,
-- add_shard_connection and handle_cluster_slots.
use memtier_skewsyn.Prelude.{
  ◌>>=◌, ℕ, Bool, ◌&&◌, List, [], ◌∷◌, ◌++◌, Option, none, some, Bytes, bytes_eq, leb, ◌==◌,
  if◌then◌else◌, length, get_elem?, take,
}
use memtier_skewsyn.CLib.{to_u32, int_lt, strtol, c_str}
use memtier_skewsyn.Protocol.Base.{MbulkElement}
use memtier_skewsyn.ShardConnection as Connection
use memtier_skewsyn.ShardConnection.{Config, Protocol, setup_none, new_connection}
use memtier_skewsyn.Cluster.HashSlot.{max_cluster_hslot}

-- class shard_connection, as the cluster client uses it
pub record Shard (P : Type 0) : Type 0 where
  pub m_id : ℕ
  pub m_address : Bytes
  pub m_port : Bytes
  pub conn : Connection.Connection P

-- m_connections of client, and the members of cluster_client that go with it. The table of slots has 16384
-- places and arbitrary content at first.
pub record Shards (P : Type 0) : Type 0 where
  pub m_connections : List (Shard P)
  pub m_key_index_pools : List (List ℕ)
  pub m_slot_to_shard : ℕ → ℕ

-- e->mbulk_array[i]; `none` is, here and below, a failed assertion, or an access outside of an array or through NULL.
abbrev pub child : List MbulkElement → MbulkElement → ℕ → Option MbulkElement
child store e i = get_elem? e.mbulk_array i >>= λ id. get_elem? store id

-- strtol(e->value, NULL, 10), as an int
unfoldable pub slot_number : MbulkElement → Option ℕ
slot_number e = e.value >>= λ v. some (to_u32 (strtol v).0)

-- The copy of e->value with a zero byte behind it.
unfoldable pub text_of : MbulkElement → Option Bytes
text_of e = e.value >>= λ v. some (c_str (take e.value_len v))

module _ {P : Type 0} where
  -- The first connection with the address and the port.
  unfoldable pub find_shard : Bytes → Bytes → List (Shard P) → Option (Shard P)
  find_shard addr port [] = none
  find_shard addr port (sc ∷ scs) =
      let rest = find_shard addr port scs in
      if bytes_eq addr sc.m_address && bytes_eq port sc.m_port then some sc else rest

  -- The loop over the slots of a range of ints; a slot outside of the table is `none`.
  unfoldable pub update_range : ℕ → ℕ → ℕ → Shards P → Option (Shards P)
  update_range min_slot max_slot id s =
      if int_lt max_slot min_slot
      then some s
      else if leb min_slot max_slot && leb max_slot max_cluster_hslot
      then some (record s {
        m_slot_to_shard = λ j. if leb min_slot j && leb j max_slot then id else s.m_slot_to_shard j;
      })
      else none

module _ {P : Type 0} (protocol : Protocol P) (config : Config) (clone : P → P)
    (reaches : Bytes → Bytes → Bool) where
  -- shard_connection::connect behind the socket
  abbrev pub connected : Shard P → Shard P
  connected sc = record sc { conn = Connection.connect protocol config sc.conn }

  -- shard_connection::set_cluster_slots
  abbrev pub with_slots : Shard P → Shard P
  with_slots sc = record sc { conn = record sc.conn { m_cluster_slots = setup_none } }

  -- The connection that add_shard_connection makes, with its setup commands to be sent.
  abbrev pub new_shard : ℕ → P → Bytes → Bytes → Shard P
  new_shard id p address port = record {
    m_id = id;
    m_address = address;
    m_port = port;
    conn = record (new_connection (clone p)) {
      m_authentication = setup_none;
      m_db_selection = setup_none;
      m_cluster_slots = setup_none;
    };
  }

  -- cluster_client::add_shard_connection; `reaches` says whether the address is resolved and its socket made.
  -- The NULL that it returns otherwise fails the assertion of its caller.
  unfoldable pub add_shard_connection : Bytes → Bytes → Shards P → Option (Shard P × Shards P)
  add_shard_connection address port s = do
    main ← get_elem? s.m_connections 0
    let sc : Shard P =
        connected (new_shard (length s.m_connections) main.conn.m_protocol address port)
    let s' : Shards P = record s {
      m_connections = s.m_connections ++ (sc ∷ []);
      m_key_index_pools = s.m_key_index_pools ++ ([] ∷ []);
    }
    if length s'.m_connections == length s'.m_key_index_pools && reaches address port
        then some (sc, s')
        else none

  abbrev pub found_or_added :
      Bytes → Bytes → Shards P → Option (Shard P) → Option (Shard P × Shards P)
  found_or_added addr port s (some sc) = some (sc, s)
  found_or_added addr port s none = add_shard_connection addr port s

  -- The body of the loop of handle_cluster_slots
  unfoldable pub handle_shard : List MbulkElement → ℕ → Shards P → Option (Shards P)
  unfolding slot_number text_of find_shard add_shard_connection update_range
  handle_shard store id s = do
    shard ← get_elem? store id
    first_slot ← child store shard 0
    min_slot ← slot_number first_slot
    last_slot ← child store shard 1
    max_slot ← slot_number last_slot
    node ← child store shard 2
    addr_el ← child store node 0
    addr ← text_of addr_el
    port_el ← child store node 1
    port ← text_of port_el
    (sc, s') ← found_or_added addr port s (find_shard addr port s.m_connections)
    update_range min_slot max_slot sc.m_id s'

  -- cluster_client::handle_cluster_slots, for the children of the reply in the store of its elements
  unfoldable pub handle_cluster_slots : List MbulkElement → List ℕ → Shards P → Option (Shards P)
  unfolding handle_shard
  handle_cluster_slots store [] s = some s
  handle_cluster_slots store (id ∷ ids) s =
      handle_shard store id s >>= λ s'. handle_cluster_slots store ids s'

  -- client::connect on the main connection; `server` is the resolved address and port, and none where
  -- that fails. Its result is not used.
  abbrev pub base_connect : Option (Bytes × Bytes) → Shard P → Shard P
  base_connect none sc = sc
  base_connect (some (address, port)) sc =
      let sc' : Shard P = record sc { m_address = address; m_port = port } in
      if reaches address port then connected sc' else sc'

  -- cluster_client::connect
  unfoldable pub cluster_connect : Option (Bytes × Bytes) → Shards P → Option (Shards P)
  cluster_connect server s = elim s.m_connections [
    | [] ↦ none
    | sc ∷ scs ↦
        if length (sc ∷ scs) == length (s.m_key_index_pools ++ ([] ∷ []))
        then some (record s {
          m_connections = base_connect server (with_slots sc) ∷ scs;
          m_key_index_pools = s.m_key_index_pools ++ ([] ∷ []);
        })
        else none
  ]

  abbrev pub disconnected : Shard P → Shard P
  disconnected sc = record sc { conn = Connection.disconnect protocol config sc.conn }

  -- cluster_client::disconnect: only the main connection stays.
  unfoldable pub cluster_disconnect : Shards P → Option (Shards P)
  cluster_disconnect s = elim s.m_connections [
    | [] ↦ none
    | sc ∷ scs ↦ some (record s { m_connections = disconnected sc ∷ [] })
  ]
