-- ===== src/Cluster/Keys.antt =====
-- cluster_client::get_key_for_conn gives every connection the keys of its own shard.
use mathlib.Core.Path.{subst}
use mathlib.Core.Option.{some-injective}
use memtier_skewsyn.Prelude.{
  ℕ, zero, suc, ◌+◌, ◌-◌, ◌<◌, ◌≤◌, ◌≡◌, refl, sym, ap, ◌∙◌, inl, inr, true, false, List, [], ◌∷◌,
  some, arith, Bytes, leb, ◌==◌, Bool-cases, length, length-set, get_elem?-set_cases,
  get_elem?-some, set, take, All,
}
use memtier_skewsyn.CLib.{u32_mod, c_str}
use memtier_skewsyn.ObjGen.{Outside, Iter, key_text, get_key_index}
use memtier_skewsyn.ObjGen.KeyText.{take_all}
use memtier_skewsyn.ObjGen.Draw.{IsGaussian, length-key_text}
use memtier_skewsyn.Client.{ClientConfig}
use memtier_skewsyn.Cluster.Requests.{
  ClusterClient, Found, found, at_limit, crashed, out_of_fuel, Drawn, mine, others, crash,
  write_key, drawn, after_round, generate_keys, from_pool, is_empty, cluster_hold_pipeline,
  get_key_for_conn, limit_reached,
}
use memtier_skewsyn.Cluster.Pools.{Belongs, Pool, HasRoom, IsSharded, RoundIs, round}

-- What get_key_for_conn gives a connection: a key of its shard, or none because the limit of requests is reached.
-- It does not fail.
abbrev pub Answers :
    {out : Outside} → ClientConfig → Iter → (ℕ → ℕ) → Bytes → ℕ → Found (ClusterClient out) → Type 0
Answers config iter slots prefix conn (found k c') =
    Belongs slots prefix conn k
    × (c'.m_key_buffer ≡ key_text prefix k)
    × IsSharded iter slots prefix c'
    × (c'.m_reqs_generated ≤ config.requests)
Answers config iter slots prefix conn (at_limit c') =
    IsSharded iter slots prefix c' × (c'.m_reqs_generated ≡ config.requests)
Answers config iter slots prefix conn crashed = ⊥
Answers config iter slots prefix conn out_of_fuel = ⊥

module _ {out : Outside} (config : ClientConfig) (slots : ℕ → ℕ) (prefix : Bytes)
    (short : length (c_str prefix) ≤ 228) (gauss : IsGaussian out) (iter : Iter)
    (small : config.requests < u32_mod) (conn : ℕ) where
  after_lem :
      (n : ℕ) (c : ClusterClient out) (go_on : ClusterClient out → Found (ClusterClient out))
      (d : Drawn (ClusterClient out))
      → c.m_reqs_generated + suc n ≡ config.requests
      → RoundIs iter slots prefix n conn c d
      → ((c' : ClusterClient out)
          → 0 < n
          → IsSharded iter slots prefix c'
          → HasRoom n c'
          → c'.m_reqs_generated + n ≡ config.requests
          → Answers config iter slots prefix conn (go_on c'))
      → Answers config iter slots prefix conn (after_round config go_on d)
  after_lem n c go_on (mine k c') e r more = (r.0, r.1, r.2, omega (arith, r.3))
  after_lem n c go_on crash e r more = absurd r
  after_lem n c go_on (others c') e r more = elim (Bool-cases (limit_reached config c')) [
    | inl stop ↦ rw (stop, after_round, Answers) (r.0, ground (arith, r.2, e))
    | inr on ↦ rw (on, after_round) (more c' (ground (arith, r.2, e)) r.0 r.1 (omega (arith, r.2)))
  ]

  -- As many keys as requests are left are enough.
  generate_lem :
      (n : ℕ) (c : ClusterClient out)
      → 0 < n
      → IsSharded iter slots prefix c
      → HasRoom n c
      → c.m_reqs_generated + n ≡ config.requests
      → Answers config iter slots prefix conn (generate_keys config n conn iter c)
  unfolding generate_keys
  generate_lem zero c h inv room e = elim h [ ]
  generate_lem (suc n) c h inv room e =
      after_lem n c (λ c'. generate_keys config n conn iter c')
        (drawn conn c (get_key_index out iter c.m_obj_gen)) e
        (round slots prefix short gauss iter c inv n conn room (omega (arith, e, small)))
        (λ c' p inv' room' e'. generate_lem n c' p inv' room' e')

  -- The first key of the connection's own pool
  module _ (c : ClusterClient out) (k : ℕ) (pool : List ℕ) (at : Pool c conn (k ∷ pool))
      (inv : IsSharded iter slots prefix c) where
    abbrev taken : ClusterClient out
    taken = record (write_key k c) { m_key_index_pools = set c.m_key_index_pools conn pool }

    taken-IsSharded : IsSharded iter slots prefix taken
    unfolding write_key
    taken-IsSharded = record {
      table = inv.table;
      named = inv.named;
      can_draw = inv.can_draw;
      pooled = λ j. omega (arith, inv.pooled j, length-set c.m_key_index_pools conn pool);
      sharded = λ j new h. elim (get_elem?-set_cases c.m_key_index_pools conn j pool new h) [
        | inl (e, f) ↦
            subst (λ xs. All (Belongs slots prefix j) xs) (sym f)
              (subst (λ i. All (Belongs slots prefix i) pool) (sym e)
                (inv.sharded conn (k ∷ pool) at).1)
        | inr old ↦ inv.sharded j new old
      ];
    }

    taken_text : taken.m_key_buffer ≡ key_text prefix k
    unfolding write_key
    taken_text =
        ap (λ p. take 248 (key_text p k)) inv.named
        ∙ take_all 248 (key_text prefix k)
            (length-key_text prefix k short (inv.sharded conn (k ∷ pool) at).0.1)

    taken_count : taken.m_reqs_generated ≡ c.m_reqs_generated
    unfolding write_key
    taken_count = refl

  pool_lem :
      (n : ℕ) (c : ClusterClient out) (pool : List ℕ)
      → Pool c conn pool
      → (is_empty pool ≡ true → 0 < n)
      → IsSharded iter slots prefix c
      → HasRoom n c
      → c.m_reqs_generated + n ≡ config.requests
      → Answers config iter slots prefix conn (from_pool config n conn iter c (some pool))
  pool_lem n c [] at h inv room e = generate_lem n c (h refl) inv room e
  pool_lem n c (k ∷ pool) at h inv room e = (
    (inv.sharded conn (k ∷ pool) at).0,
    taken_text c k pool at inv,
    taken-IsSharded c k pool at inv,
    omega (arith, taken_count c k pool at inv, e),
  )

  held_lem :
      (c : ClusterClient out) (pool : List ℕ)
      → 0 < config.requests
      → Pool c conn pool
      → cluster_hold_pipeline config conn c ≡ some false
      → is_empty pool ≡ true
      → c.m_reqs_generated < config.requests
  unfolding cluster_hold_pipeline
  held_lem c pool pos at h empty =
      let limited : (config.requests == 0) ≡ false = ground arith in
      let free : some (leb config.requests c.m_reqs_generated) ≡ some false =
        rw (limited, at, empty) at h in
      ground (arith, some-injective _ _ free)

  -- For a prefix of keys of 228 bytes at most, a range of keys that random_range can take, an iterator for which
  -- get_key_index keeps its assertions (for normal keys: a range of one key, one of three at least and the median
  -- 0, or a median strictly inside of it), and a floating point loop that gives no key above the range: with a limit
  -- of requests below 2 ^ 32 that is not reached, and room in the pools for the requests that are left, a connection
  -- that does not hold back gets a key whose hash slot belongs to it, or none because the limit is reached while keys
  -- for others were found: as many keys as requests are left are enough. The key stands whole in the buffer, each pool
  -- still holds keys of its own connection only, and no more requests are counted than the limit.
  pub get_key_for_conn-Answers :
      (c : ClusterClient out)
      → 0 < config.requests
      → c.m_reqs_generated ≤ config.requests
      → conn < length c.m_key_index_pools
      → cluster_hold_pipeline config conn c ≡ some false
      → IsSharded iter slots prefix c
      → HasRoom (config.requests - c.m_reqs_generated) c
      → Answers config iter slots prefix conn
          (get_key_for_conn config (config.requests - c.m_reqs_generated) conn iter c)
  unfolding get_key_for_conn
  get_key_for_conn-Answers c pos le lt free inv room =
      let (pool, at) = get_elem?-some c.m_key_index_pools conn lt in
      rw at (
        pool_lem (config.requests - c.m_reqs_generated) c pool at
          (λ empty. omega (arith, held_lem c pool pos at free empty)) inv room (omega arith))
