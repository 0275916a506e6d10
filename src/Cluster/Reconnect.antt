-- ===== src/Cluster/Reconnect.antt =====
-- cluster_client::disconnect and connect, one after the other.
use memtier_skewsyn.Prelude.{
  ◌>>=◌, Bool, ◌<◌, ◌≡◌, refl, false, List, [], ◌∷◌, ◌++◌, Option, none, Bytes, ◌==◌, length, arith,
  length-append,
}
use memtier_skewsyn.ShardConnection.{Config, Protocol}
use memtier_skewsyn.Cluster.Shards.{Shard, Shards, cluster_connect, cluster_disconnect}
use memtier_skewsyn.Cluster.Addresses.{IsSound}

module _ {P : Type 0} (protocol : Protocol P) (config : Config) (clone : P → P)
    (reaches : Bytes → Bytes → Bool) where
  reconnect_at :
      (server : Option (Bytes × Bytes)) (scs : List (Shard P)) (s : Shards P)
      → s.m_connections ≡ scs
      → 0 < length s.m_key_index_pools
      → (cluster_disconnect protocol config clone reaches s
          >>= cluster_connect protocol config clone reaches server)
        ≡ none
  unfolding cluster_disconnect cluster_connect
  reconnect_at server [] s e h = rw e refl
  reconnect_at server (sc ∷ scs) s e h =
      rw
        (
          e,
          let z : (1 == length (s.m_key_index_pools ++ ([] ∷ []))) ≡ false =
                ground (arith, length-append s.m_key_index_pools ([] ∷ [])) in
              z,
        )
        refl

  -- A cluster client whose connections all have a pool of keys cannot connect again after it has disconnected: the
  -- pools stay when the connections go, and connect adds one more, so that its assertion on their numbers fails.
  pub reconnect-aborts :
      (server : Option (Bytes × Bytes)) (s : Shards P)
      → IsSound s
      → (cluster_disconnect protocol config clone reaches s
          >>= cluster_connect protocol config clone reaches server)
        ≡ none
  reconnect-aborts server s sound =
      reconnect_at server s.m_connections s refl (omega (arith, sound.pools, sound.main))
