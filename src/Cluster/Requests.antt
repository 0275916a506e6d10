-- ===== src/Cluster/Requests.antt =====
-- The requests of cluster_client: get_key_for_conn, create_request and hold_pipeline.
use memtier_skewsyn.Prelude.{
  ◌>>=◌, ℕ, zero, suc, ◌+◌, ◌/◌, ◌%◌, Bool, true, false, not, ◌&&◌, ◌||◌, List, [], ◌∷◌, ◌++◌,
  Option, none, some, Bytes, ltb, leb, ◌==◌, if◌then◌else◌, length, get_elem?, set, take,
}
use memtier_skewsyn.CLib.{u32_mod, to_u32}
use memtier_skewsyn.ObjGen.{Outside, Generator, Iter, key_text, get_key_index}
use memtier_skewsyn.ObjGen.Values.{get_value, get_expiry}
use memtier_skewsyn.Client.{ClientConfig, Command, send_wait, send_set, send_get, send_nothing}
use memtier_skewsyn.Cluster.HashSlot.{calc_hslot_crc16_cluster}

-- KEY_INDEX_QUEUE_MAX_SIZE
abbrev pub key_index_queue_max_size : ℕ
key_index_queue_max_size = 1000000

-- How get_key_for_conn ends: with a key index, or at the limit of requests; or by a key that is longer than the buffer
-- or a shard without a pool, which is an access outside of an array, or by an assertion of the generator; or for want
-- of fuel in the model.
pub data Found (S : Type 0) : Type 0 where
  found : ℕ → S → Found S
  at_limit : S → Found S
  crashed : Found S
  out_of_fuel : Found S

abbrev pub is_empty : List ℕ → Bool
is_empty [] = true
is_empty (_ ∷ _) = false

-- How create_request ends: with a call of the connection, which may be none, or by a failure.
pub data Requested (S : Type 0) : Type 0 where
  requested : Command → S → Requested S
  failed : Requested S
  no_fuel : Requested S

-- A round of the loop: the new key is for the connection, or goes to a pool.
pub data Drawn (S : Type 0) : Type 0 where
  mine : ℕ → S → Drawn S
  others : S → Drawn S
  crash : Drawn S

module _ (out : Outside) where
  -- class cluster_client, but its connections, and the members of client that it uses
  pub record ClusterClient : Type 0 where
    pub m_key_index_pools : List (List ℕ)
    pub m_slot_to_shard : ℕ → ℕ
    pub m_key_buffer : Bytes
    pub m_key_len : ℕ
    pub m_obj_gen : Generator out
    pub m_reqs_generated : ℕ
    pub m_set_ratio_count : ℕ
    pub m_get_ratio_count : ℕ
    pub m_tot_set_ops : ℕ
    pub m_tot_wait_ops : ℕ

module _ {out : Outside} where
  -- snprintf of the key into m_key_buffer, of 250 bytes
  unfoldable pub write_key : ℕ → ClusterClient out → ClusterClient out
  write_key key_index c =
      let text = key_text c.m_obj_gen.m_key_prefix key_index in
      record c { m_key_buffer = take 248 text; m_key_len = length text }

  abbrev pub counted : ClusterClient out → ClusterClient out
  counted c = record c { m_reqs_generated = (c.m_reqs_generated + 1) % u32_mod }

  -- The key goes to the pool of another shard, if that is not full.
  unfoldable pub stored : ℕ → ℕ → List ℕ → ClusterClient out → ClusterClient out
  stored key_index shard pool c =
      if ltb (length pool) key_index_queue_max_size
      then counted (record c {
        m_key_index_pools = set c.m_key_index_pools shard (pool ++ (key_index ∷ []));
      })
      else c

  -- m_slot_to_shard at the slot of the key that is written
  unfoldable pub shard_of : ClusterClient out → ℕ
  shard_of c = c.m_slot_to_shard (calc_hslot_crc16_cluster c.m_key_buffer)

  abbrev pub to_pool : ℕ → ClusterClient out → Option (List ℕ) → Drawn (ClusterClient out)
  to_pool key_index c none = crash
  to_pool key_index c (some pool) = others (stored key_index (shard_of c) pool c)

  abbrev pub placed : ℕ → ℕ → ClusterClient out → Drawn (ClusterClient out)
  placed conn_id key_index c =
      if ltb 248 c.m_key_len
      then crash
      else if shard_of c == conn_id
      then mine key_index (counted c)
      else to_pool key_index c (get_elem? c.m_key_index_pools (shard_of c))

  unfoldable pub drawn :
      ℕ → ClusterClient out → Option (ℕ × Generator out) → Drawn (ClusterClient out)
  unfolding write_key shard_of stored
  drawn conn_id c none = crash
  drawn conn_id c (some (key_index, g)) =
      placed conn_id key_index (write_key key_index (record c { m_obj_gen = g }))

module _ {out : Outside} (config : ClientConfig) where
  -- cluster_client::hold_pipeline; a connection without a pool is none.
  unfoldable pub cluster_hold_pipeline : ℕ → ClusterClient out → Option Bool
  cluster_hold_pipeline conn_id c =
      if config.requests == 0
      then some false
      else get_elem? c.m_key_index_pools conn_id >>= λ pool.
          some (is_empty pool && leb config.requests c.m_reqs_generated)

  abbrev pub limit_reached : ClusterClient out → Bool
  limit_reached c = ltb 0 config.requests && leb config.requests c.m_reqs_generated

  abbrev pub after_round :
      (ClusterClient out → Found (ClusterClient out))
      → Drawn (ClusterClient out)
      → Found (ClusterClient out)
  after_round go_on (mine key_index c) = found key_index c
  after_round go_on crash = crashed
  after_round go_on (others c) = elim (limit_reached c) [ true ↦ at_limit c | false ↦ go_on c ]

  -- The loop that generates keys, for `fuel` keys at most
  unfoldable pub generate_keys : ℕ → ℕ → Iter → ClusterClient out → Found (ClusterClient out)
  unfolding drawn
  generate_keys zero conn_id iter c = out_of_fuel
  generate_keys (suc fuel) conn_id iter c =
      after_round (λ c'. generate_keys fuel conn_id iter c')
        (drawn conn_id c (get_key_index out iter c.m_obj_gen))

  abbrev pub from_pool :
      ℕ → ℕ → Iter → ClusterClient out → Option (List ℕ) → Found (ClusterClient out)
  from_pool fuel conn_id iter c none = crashed
  from_pool fuel conn_id iter c (some []) = generate_keys fuel conn_id iter c
  from_pool fuel conn_id iter c (some (key_index ∷ pool)) =
      found key_index (record (write_key key_index c) {
        m_key_index_pools = set c.m_key_index_pools conn_id pool;
      })

  -- cluster_client::get_key_for_conn
  unfoldable pub get_key_for_conn : ℕ → ℕ → Iter → ClusterClient out → Found (ClusterClient out)
  unfolding generate_keys write_key
  get_key_for_conn fuel conn_id iter c =
      from_pool fuel conn_id iter c (get_elem? c.m_key_index_pools conn_id)

  -- The condition of a WAIT
  unfoldable pub cluster_wait_due : ClusterClient out → Bool
  cluster_wait_due c =
      not (config.wait_ratio.b == 0)
      && (c.m_tot_wait_ops == 0
          || ltb (config.wait_ratio.a / config.wait_ratio.b) (c.m_tot_set_ops / c.m_tot_wait_ops))

  abbrev cluster_waited :
      ClusterClient out → Option (ℕ × ℕ × Generator out) → Requested (ClusterClient out)
  cluster_waited c none = failed
  cluster_waited c (some (num_slaves, timeout, g)) =
      requested (send_wait num_slaves timeout)
        (counted (record c { m_obj_gen = g; m_tot_wait_ops = c.m_tot_wait_ops + 1 }))

  abbrev set_sent :
      ClusterClient out → Bytes × ℕ → Option (ℕ × Generator out) → Requested (ClusterClient out)
  set_sent c value none = failed
  set_sent c (value, value_len) (some (expiry, g)) =
      requested
        (send_set (record {
          m_key = c.m_key_buffer;
          m_key_len = c.m_key_len;
          m_value = value;
          m_value_len = value_len;
          m_expiry = to_u32 expiry;
        }))
        (record c {
          m_obj_gen = g;
          m_set_ratio_count = c.m_set_ratio_count + 1;
          m_tot_set_ops = c.m_tot_set_ops + 1;
        })

  abbrev set_value :
      ClusterClient out → Option (Bytes × ℕ × Generator out) → Requested (ClusterClient out)
  set_value c none = failed
  set_value c (some (value, value_len, g)) = set_sent c (value, value_len) (get_expiry out g)

  -- The set of a key that get_key_for_conn has found
  unfoldable pub cluster_set : Found (ClusterClient out) → Requested (ClusterClient out)
  unfolding get_value get_expiry
  cluster_set (found key_index c) = set_value c (get_value out key_index c.m_obj_gen)
  cluster_set (at_limit c) = requested send_nothing c
  cluster_set crashed = failed
  cluster_set out_of_fuel = no_fuel

  -- The get of a key that get_key_for_conn has found
  unfoldable pub cluster_get : Found (ClusterClient out) → Requested (ClusterClient out)
  cluster_get (found key_index c) =
      requested (send_get (take c.m_key_len c.m_key_buffer))
        (record c { m_get_ratio_count = c.m_get_ratio_count + 1 })
  cluster_get (at_limit c) = requested send_nothing c
  cluster_get crashed = failed
  cluster_get out_of_fuel = no_fuel

  -- cluster_client::create_request, with the call of the connection that it makes; `wait_args` draws the number of
  -- slaves and the timeout.
  unfoldable pub cluster_create_request :
      (Generator out → Option (ℕ × ℕ × Generator out))
      → ℕ
      → ℕ
      → ClusterClient out
      → Requested (ClusterClient out)
  unfolding cluster_wait_due cluster_set cluster_get get_key_for_conn
  cluster_create_request wait_args fuel conn_id c =
      if cluster_wait_due c
      then cluster_waited c (wait_args c.m_obj_gen)
      else if ltb c.m_set_ratio_count config.ratio.a
      then cluster_set (get_key_for_conn fuel conn_id config.set_iter c)
      else if ltb c.m_get_ratio_count config.ratio.b
      then cluster_get (get_key_for_conn fuel conn_id config.get_iter c)
      else requested send_nothing (record c { m_set_ratio_count = 0; m_get_ratio_count = 0 })
