-- ===== src/Cluster/Pools.antt =====
-- A round of the loop of cluster_client::get_key_for_conn, and the pools of keys.
use mathlib.Core.Path.{subst}
use memtier_skewsyn.Prelude.{
  ℕ, suc, ◌+◌, ◌%◌, ◌<◌, ◌≤◌, ◌≡◌, ◌≢◌, refl, sym, ap, ◌∙◌, inl, inr, true, false, List, [], ◌∷◌,
  ◌++◌, some, arith, Bytes, ltb, ◌==◌, Bool-cases, length, length-append, length-set, get_elem?,
  get_elem?-set_cases, get_elem?-some, All-end, ==_iff, set, All, mod-eq_of_lt,
}
use memtier_skewsyn.CLib.{u32_mod, u64_mod, c_str}
use memtier_skewsyn.ObjGen.{Outside, Iter, key_text, get_key_index}
use memtier_skewsyn.ObjGen.KeyText.{take_all}
use memtier_skewsyn.ObjGen.Draw.{CanDraw, IsGaussian, Draws, draws, length-key_text}
use memtier_skewsyn.Cluster.HashSlot.{calc_hslot_crc16_cluster}
use memtier_skewsyn.Cluster.Requests.{
  ClusterClient, Drawn, mine, others, crash, key_index_queue_max_size, write_key, counted, stored,
  shard_of, placed, drawn,
}

-- The shard of a key
abbrev pub home : (ℕ → ℕ) → Bytes → ℕ → ℕ
home slots prefix k = slots (calc_hslot_crc16_cluster (key_text prefix k))

abbrev pub Belongs : (ℕ → ℕ) → Bytes → ℕ → ℕ → Type 0
Belongs slots prefix j k = (home slots prefix k ≡ j) × (k < u64_mod)

-- The connection's pool
abbrev pub Pool : {out : Outside} → ClusterClient out → ℕ → List ℕ → Type 0
Pool c j pool = get_elem? c.m_key_index_pools j ≡ some pool

-- Every pool has room for n keys more.
abbrev pub HasRoom : {out : Outside} → ℕ → ClusterClient out → Type 0
HasRoom n c = (j : ℕ) (pool : List ℕ) → Pool c j pool → length pool + n ≤ key_index_queue_max_size

-- The keys in the pools are those of their shards, every slot has a pool, and the generator can draw.
pub record IsSharded {out : Outside} (iter : Iter) (slots : ℕ → ℕ) (prefix : Bytes)
    (c : ClusterClient out) : Type 0 where
  pub table : c.m_slot_to_shard ≡ slots
  pub named : c.m_obj_gen.m_key_prefix ≡ prefix
  pub can_draw : CanDraw out iter c.m_obj_gen
  pub pooled : (j : ℕ) → slots j < length c.m_key_index_pools
  pub sharded : (j : ℕ) (pool : List ℕ) → Pool c j pool → All (Belongs slots prefix j) pool

-- What a round of the loop does: the key is that of the connection, or goes to the pool of its shard.
abbrev pub RoundIs :
    {out : Outside}
    → Iter
    → (ℕ → ℕ)
    → Bytes
    → ℕ
    → ℕ
    → ClusterClient out
    → Drawn (ClusterClient out)
    → Type 0
RoundIs iter slots prefix n conn c (mine k c') =
    Belongs slots prefix conn k
    × (c'.m_key_buffer ≡ key_text prefix k)
    × IsSharded iter slots prefix c'
    × (c'.m_reqs_generated ≡ c.m_reqs_generated + 1)
RoundIs iter slots prefix n conn c (others c') =
    IsSharded iter slots prefix c' × HasRoom n c' × (c'.m_reqs_generated ≡ c.m_reqs_generated + 1)
RoundIs iter slots prefix n conn c crash = ⊥

module _ {out : Outside} (slots : ℕ → ℕ) (prefix : Bytes) (short : length (c_str prefix) ≤ 228)
    (gauss : IsGaussian out) (iter : Iter) where
  -- The client with the new key in its buffer
  module _ (c : ClusterClient out) (inv : IsSharded iter slots prefix c) where
    pub draw : Draws out iter c.m_obj_gen
    draw = draws out gauss iter c.m_obj_gen inv.can_draw

    abbrev pub key : ℕ
    key = draw.index

    key-lt : key < u64_mod
    key-lt = omega (arith, draw.small, inv.can_draw.bounded)

    abbrev text : Bytes
    text = key_text prefix key

    abbrev wrote : ClusterClient out
    wrote = record c { m_obj_gen = draw.after; m_key_buffer = text; m_key_len = length text }

    prefix_lem : draw.after.m_key_prefix ≡ prefix
    prefix_lem = draw.prefix ∙ inv.named

    write_lem : write_key key (record c { m_obj_gen = draw.after }) ≡ wrote
    unfolding write_key
    write_lem =
        rw
          (prefix_lem, take_all 248 (key_text prefix key) (length-key_text prefix key short key-lt))
          refl

    shard_lem : shard_of wrote ≡ home slots prefix key
    unfolding shard_of
    shard_lem i = inv.table i (calc_hslot_crc16_cluster text)

    wrote-IsSharded : IsSharded iter slots prefix (counted wrote)
    wrote-IsSharded = record {
      table = inv.table;
      named = prefix_lem;
      can_draw = draw.can_draw;
      pooled = inv.pooled;
      sharded = inv.sharded;
    }

    -- The key in the pool of its shard
    module _ (pool : List ℕ) (at : Pool c (home slots prefix key) pool) where
      abbrev filled : ClusterClient out
      filled = counted (record wrote {
        m_key_index_pools = set c.m_key_index_pools (home slots prefix key) (pool ++ (key ∷ []));
      })

      filled-IsSharded : IsSharded iter slots prefix filled
      filled-IsSharded = record {
        table = inv.table;
        named = prefix_lem;
        can_draw = draw.can_draw;
        pooled = λ j. omega (
          arith,
          inv.pooled j,
          length-set c.m_key_index_pools (home slots prefix key) (pool ++ (key ∷ [])),
        );
        sharded = λ j new h.
            elim (get_elem?-set_cases c.m_key_index_pools (home slots prefix key) j
              (pool ++ (key ∷ [])) new h) [
                | inl (e, f) ↦
                    subst (λ xs. All (Belongs slots prefix j) xs) (sym f)
                      (All-end (Belongs slots prefix j) pool key
                        (subst (λ i. All (Belongs slots prefix i) pool) (sym e)
                          (inv.sharded (home slots prefix key) pool at))
                        (sym e, key-lt))
                | inr old ↦ inv.sharded j new old
              ];
      }

    not_long : ltb 248 (length text) ≡ false
    not_long = ground (arith, length-key_text prefix key short key-lt)

    drawn_lem :
        (conn : ℕ) → drawn conn c (get_key_index out iter c.m_obj_gen) ≡ placed conn key wrote
    unfolding drawn
    drawn_lem conn = rw draw.gives (ap (placed conn key) write_lem)

    -- The key stays out of a full pool.
    stored-IsSharded :
        (pool : List ℕ)
        → Pool c (home slots prefix key) pool
        → IsSharded iter slots prefix (stored key (home slots prefix key) pool wrote)
    unfolding stored
    stored-IsSharded pool at = elim (Bool-cases (ltb (length pool) key_index_queue_max_size)) [
      | inl e ↦ rw e (filled-IsSharded pool at)
      | inr e ↦ rw e (record {
        table = inv.table;
        named = prefix_lem;
        can_draw = draw.can_draw;
        pooled = inv.pooled;
        sharded = inv.sharded;
      })
    ]

    -- A key of another connection
    pub other_round :
        (conn : ℕ)
        → home slots prefix key ≢ conn
        → (c' : ClusterClient out) × (drawn conn c (get_key_index out iter c.m_obj_gen) ≡ others c')
          × IsSharded iter slots prefix c'
    other_round conn differs =
        let (pool, at) =
          get_elem?-some c.m_key_index_pools (home slots prefix key) (inv.pooled _) in
        let no : (home slots prefix key == conn) ≡ false = ground arith in
        (
          stored key (home slots prefix key) pool wrote,
          drawn_lem conn ∙ rw (not_long, shard_lem, no, at, shard_lem) refl,
          stored-IsSharded pool at,
        )

    module _ (n conn : ℕ) (room : HasRoom (suc n) c) (few : suc c.m_reqs_generated < u32_mod) where
      no_wrap : (c.m_reqs_generated + 1) % u32_mod ≡ c.m_reqs_generated + 1
      no_wrap = mod-eq_of_lt (omega (arith, few))

      module _ (pool : List ℕ) (at : Pool c (home slots prefix key) pool) where
        stored_lem : stored key (home slots prefix key) pool wrote ≡ filled pool at
        unfolding stored
        stored_lem =
            rw
              (let z : ltb (length pool) key_index_queue_max_size ≡ true =
                  ground (arith, room (home slots prefix key) pool at) in
                z)
              refl

        filled-HasRoom : HasRoom n (filled pool at)
        filled-HasRoom j new h =
            elim (get_elem?-set_cases c.m_key_index_pools (home slots prefix key) j
              (pool ++ (key ∷ [])) new h) [
                | inl (e, f) ↦ omega (
                  arith,
                  ap length f,
                  length-append pool (key ∷ []),
                  room (home slots prefix key) pool at,
                )
                | inr old ↦ omega (arith, room j new old)
              ]

      placed_lem : RoundIs iter slots prefix n conn c (placed conn key wrote)
      placed_lem =
          rw (not_long, shard_lem)
            (elim (Bool-cases (home slots prefix key == conn)) [
              | inl e ↦ rw e (((==_iff _ _).0 e, key-lt), refl, wrote-IsSharded, no_wrap)
              | inr e ↦
                  let (pool, at) =
                    get_elem?-some c.m_key_index_pools (home slots prefix key) (inv.pooled _) in
                  rw (e, at, shard_lem, stored_lem pool at)
                    (filled-IsSharded pool at, filled-HasRoom pool at, no_wrap)
            ])

      pub round :
          RoundIs iter slots prefix n conn c (drawn conn c (get_key_index out iter c.m_obj_gen))
      round = rw (drawn_lem conn) placed_lem
