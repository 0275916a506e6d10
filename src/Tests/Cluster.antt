-- ===== src/Tests/Cluster.antt =====
-- A cluster of two shards, and the generator of the other tests.
use memtier_skewsyn.Prelude.{
  ◌>>=◌, ℕ, zero, suc, ◌%◌, ◌^◌, ◌≤◌, ◌<◌, ◌≡◌, refl, sym, ap, true, List, [], ◌∷◌, some, none,
  arith, codes, ltb, if◌then◌else◌, length, get_or,
}
use mathlib.Core.Option.{some-injective}
use memtier_skewsyn.CLib.{print_u}
use memtier_skewsyn.Protocol.Base.{MbulkElement, new_array, new_value}
use memtier_skewsyn.ShardConnection.{new_connection}
use memtier_skewsyn.ObjGen.{key_iter}
use memtier_skewsyn.ObjGen.Draw.{CanDraw, IsGaussian}
use memtier_skewsyn.Client.{ClientConfig}
use memtier_skewsyn.Cluster.HashSlot.{crc16, calc_hslot_crc16_cluster}
use memtier_skewsyn.Cluster.Crc.{remainder_from, hslot-remainder}
use memtier_skewsyn.Cluster.Shards.{
  Shard, Shards, handle_cluster_slots, cluster_connect, cluster_disconnect,
}
use memtier_skewsyn.Cluster.Ranges.{SlotRange, HoldsRange, IsInTable, hold_none, hold_one, route}
use memtier_skewsyn.Cluster.Addresses.{At, IsSound, Routed}
use memtier_skewsyn.Cluster.Routes.{handle_cluster_slots-routes}
use memtier_skewsyn.Cluster.Reconnect.{reconnect-aborts}
use memtier_skewsyn.Cluster.Requests.{ClusterClient, cluster_hold_pipeline, get_key_for_conn}
use memtier_skewsyn.Cluster.Pools.{Pool, IsSharded}
use memtier_skewsyn.Cluster.Keys.{Answers, get_key_for_conn-Answers}
use memtier_skewsyn.Tests.ObjGen.{counting, generator}
use memtier_skewsyn.Tests.Client.{options}
use memtier_skewsyn.Tests.Shard.{listed, config}

-- The check value of the polynomial.
crc16_check : crc16 (codes "123456789") ≡ 0x31c3
unfolding crc16
crc16_check = refl

hslot-remainder_example :
    (calc_hslot_crc16_cluster (codes "foo") ≡ remainder_from 0 (codes "foo") % 2 ^ 14)
    × (calc_hslot_crc16_cluster (codes "foo") < 16384)
hslot-remainder_example = hslot-remainder (codes "foo") (omega arith)

-- The reply for one shard with the slots 0 to 99.
abbrev store : List MbulkElement
store =
    record new_array { mbulk_array = 1 ∷ 2 ∷ 3 ∷ [] }
    ∷ new_value (codes "0") 1
    ∷ new_value (codes "99") 2
    ∷ record new_array { mbulk_array = 4 ∷ 5 ∷ [] }
    ∷ new_value (codes "10.0.0.2") 8
    ∷ new_value (codes "7001") 4
    ∷ []

abbrev slots_0_99 : SlotRange
slots_0_99 = record { min_slot = 0; max_slot = 99; addr = codes "10.0.0.2"; port = codes "7001" }

slots_0_99-HoldsRange : HoldsRange store 0 slots_0_99
unfolding print_u
slots_0_99-HoldsRange = record {
  shard = record new_array { mbulk_array = 1 ∷ 2 ∷ 3 ∷ [] };
  node = record new_array { mbulk_array = 4 ∷ 5 ∷ [] };
  first_id = 1;
  last_id = 2;
  node_id = 3;
  addr_id = 4;
  port_id = 5;
  replicas = [];
  more = [];
  found = refl;
  parts = refl;
  first_text = record {
    element = new_value (codes "0") 1;
    found = refl;
    has_value = refl;
    has_len = refl;
  };
  last_text = record {
    element = new_value (codes "99") 2;
    found = refl;
    has_value = refl;
    has_len = refl;
  };
  node_found = refl;
  node_parts = refl;
  addr_text = record {
    element = new_value (codes "10.0.0.2") 8;
    found = refl;
    has_value = refl;
    has_len = refl;
  };
  port_text = record {
    element = new_value (codes "7001") 4;
    found = refl;
    has_value = refl;
    has_len = refl;
  };
}

slots_0_99-IsInTable : IsInTable slots_0_99
slots_0_99-IsInTable = record {
  ordered = omega arith;
  within = omega arith;
  addr_clean = refl;
  port_clean = refl;
}

abbrev main_only : Shards (List ℕ)
main_only = record {
  m_connections =
      record {
        m_id = 0;
        m_address = codes "10.0.0.1";
        m_port = codes "7000";
        conn = new_connection [];
      }
      ∷ [];
  m_key_index_pools = [] ∷ [];
  m_slot_to_shard = λ j. 0;
}

main_only-ids : (i : ℕ) (sc : Shard (List ℕ)) → At main_only.m_connections i sc → sc.m_id ≡ i
main_only-ids zero sc h = ap (λ (x : Shard (List ℕ)). x.m_id) (sym (some-injective _ _ h))
main_only-ids (suc i) sc h = absurd (cc)

main_only-distinct :
    (i j : ℕ) (a b : Shard (List ℕ))
    → At main_only.m_connections i a
    → At main_only.m_connections j b
    → i ≡ j
main_only-distinct zero zero a b h k = refl
main_only-distinct (suc i) j a b h k = absurd (cc)
main_only-distinct zero (suc j) a b h k = absurd (cc)

main_only-IsSound : IsSound main_only
main_only-IsSound = record {
  main = omega arith;
  pools = refl;
  ids = main_only-ids;
  distinct = λ i j a b h k same. main_only-distinct i j a b h k;
}

handle_cluster_slots-routes_example :
    (s' : Shards (List ℕ)) × (handle_cluster_slots listed config
        (λ p. p)
        (λ a p. true)
        store
        (0 ∷ [])
        main_only
      ≡ some s')
    × IsSound s'
    × ((i : ℕ) (sc : Shard (List ℕ)) → At main_only.m_connections i sc → At s'.m_connections i sc)
    × ((j : ℕ) → Routed main_only s' j (route (slots_0_99 ∷ []) j))
handle_cluster_slots-routes_example =
    handle_cluster_slots-routes listed config (λ p. p) (λ a p. true) store (0 ∷ [])
      (slots_0_99 ∷ []) main_only (λ a p. refl)
      (hold_one slots_0_99-HoldsRange slots_0_99-IsInTable hold_none) main_only-IsSound

reconnect-aborts_example :
    (cluster_disconnect listed config (λ p. p) (λ a p. true) main_only
      >>= cluster_connect listed config (λ p. p) (λ a p. true) none)
    ≡ none
reconnect-aborts_example =
    reconnect-aborts listed config (λ p. p) (λ a p. true) none main_only main_only-IsSound

-- The lower half of the slots belongs to the first connection.
abbrev halves : ℕ → ℕ
halves j = if ltb j 8192 then 0 else 1

abbrev cluster : (ℕ → ℕ) → ClusterClient counting
cluster table = record {
  m_key_index_pools = [] ∷ [] ∷ [];
  m_slot_to_shard = table;
  m_key_buffer = [];
  m_key_len = 0;
  m_obj_gen = generator;
  m_reqs_generated = 4;
  m_set_ratio_count = 0;
  m_get_ratio_count = 0;
  m_tot_set_ops = 0;
  m_tot_wait_ops = 0;
}

counting-IsGaussian : IsGaussian counting
counting-IsGaussian stddev median a b s h = h

generator_next : (i : ℕ) → get_or generator.m_next_key i 0 ≤ generator.m_key_max
generator_next zero = omega arith
generator_next (suc zero) = omega arith
generator_next (suc (suc i)) = omega arith

generator-CanDraw : CanDraw counting (key_iter 0) generator
generator-CanDraw = record {
  ordered = omega arith;
  bounded = omega arith;
  span = omega arith;
  call = omega arith;
  next = generator_next;
}

cluster_pools : (table : ℕ → ℕ) (j : ℕ) (pool : List ℕ) → Pool (cluster table) j pool → pool ≡ []
cluster_pools table zero pool h = sym (some-injective _ _ h)
cluster_pools table (suc zero) pool h = sym (some-injective _ _ h)
cluster_pools table (suc (suc j)) pool h = absurd (cc)

cluster-IsSharded :
    (table : ℕ → ℕ)
    → ((j : ℕ) → table j < 2)
    → IsSharded (key_iter 0) table (codes "memtier-") (cluster table)
cluster-IsSharded table h = record {
  table = refl;
  named = refl;
  can_draw = generator-CanDraw;
  pooled = h;
  sharded = λ j pool at. rw (cluster_pools table j pool at) tt;
}

-- A limit of ten requests, of which four are counted.
get_key_for_conn-Answers_example :
    Answers options
      (key_iter 0)
      halves
      (codes "memtier-")
      1
      (get_key_for_conn options 6 1 (key_iter 0) (cluster halves))
unfolding cluster_hold_pipeline
get_key_for_conn-Answers_example =
    get_key_for_conn-Answers options halves (codes "memtier-") (omega arith) counting-IsGaussian
      (key_iter 0) (omega arith) 1 (cluster halves) (omega arith) (omega arith) (omega arith) refl
      (cluster-IsSharded halves (λ j. ground arith))
      (λ j pool at. omega (arith, ap length (cluster_pools halves j pool at)))

abbrev endless : ClientConfig
endless = record options { requests = 0 }
