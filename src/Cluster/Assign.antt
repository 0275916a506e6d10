-- ===== src/Cluster/Assign.antt =====
-- What the body of the loop of cluster_client::handle_cluster_slots does for a range.
use mathlib.Core.Path.{subst}
use memtier_skewsyn.Prelude.{
  ◌>>=◌, ℕ, ◌≡◌, refl, sym, ap, ◌∙◌, inl, inr, Bool, true, false, ◌&&◌, List, [], ◌∷◌, ◌++◌, Option,
  none, some, Bytes, leb, ◌==◌, if◌then◌else◌, length, arith, ◌⊎◌, Option-cases, length-append,
}
use memtier_skewsyn.CLib.{int_lt}
use memtier_skewsyn.Protocol.Base.{MbulkElement}
use memtier_skewsyn.ShardConnection.{Config, Protocol}
use memtier_skewsyn.Cluster.Shards.{
  Shard, Shards, find_shard, found_or_added, connected, new_shard, add_shard_connection,
  update_range, handle_shard,
}
use memtier_skewsyn.Cluster.Ranges.{SlotRange, IsInTable, covers}
use memtier_skewsyn.Cluster.Addresses.{
  At, HasAddress, IsSound, Keeps, Keeps-append, At_end, At_append, main_of, find_found, find_none,
}

module _ {P : Type 0} (protocol : Protocol P) (config : Config) (clone : P → P)
    (reaches : Bytes → Bytes → Bool) where
  abbrev pub handle : List MbulkElement → ℕ → Shards P → Option (Shards P)
  handle = handle_shard protocol config clone reaches

  -- The rest of the body, once the element is read.
  abbrev pub assigned : SlotRange → Shards P → Option (Shards P)
  assigned r s =
      found_or_added protocol config clone reaches r.addr r.port s
        (find_shard r.addr r.port s.m_connections)
      >>= λ (sc, s'). update_range r.min_slot r.max_slot sc.m_id s'

  -- What a range does to the connections and the slots.
  pub record Assigns (r : SlotRange) (s : Shards P) : Type 0 where
    pub after : Shards P
    pub shard : Shard P
    pub gives : assigned r s ≡ some after
    pub sound : IsSound after
    pub keeps : Keeps s.m_connections after.m_connections
    pub at : At after.m_connections shard.m_id shard
    pub address : HasAddress shard r.addr r.port
    pub slots :
        (j : ℕ) → after.m_slot_to_shard j ≡ (if covers r j then shard.m_id else s.m_slot_to_shard j)

  update_range_lem :
      (r : SlotRange) (id : ℕ) (s : Shards P)
      → IsInTable r
      → update_range r.min_slot r.max_slot id s
        ≡ some (record s { m_slot_to_shard = λ j. if covers r j then id else s.m_slot_to_shard j })
  unfolding update_range
  update_range_lem r id s t =
      rw
        (
          let z : int_lt r.max_slot r.min_slot ≡ false = ground (arith, t.ordered, t.within) in z,
          let z : leb r.min_slot r.max_slot && leb r.max_slot 16383 ≡ true =
                ground (arith, t.ordered, t.within) in
              z,
        )
        refl

  module _ (r : SlotRange) (s : Shards P) (reach : (a p : Bytes) → reaches a p ≡ true)
      (t : IsInTable r) (sound : IsSound s) where
    old_shard : (sc : Shard P) → find_shard r.addr r.port s.m_connections ≡ some sc → Assigns r s
    old_shard sc e =
        let (i, at, has) = find_found r.addr r.port s.m_connections sc e in
        record {
          after = record s {
            m_slot_to_shard = λ j. if covers r j then sc.m_id else s.m_slot_to_shard j;
          };
          shard = sc;
          gives = rw (e, update_range_lem r sc.m_id s t) refl;
          sound = record {
            main = sound.main;
            pools = sound.pools;
            ids = sound.ids;
            distinct = sound.distinct;
          };
          keeps = λ i sc h. h;
          at = subst (λ k. At s.m_connections k sc) (sym (sound.ids i sc at)) at;
          address = has;
          slots = λ j. refl;
        }

    abbrev fresh : Shard P → Shard P
    fresh main = connected protocol config clone reaches (
        new_shard protocol config clone reaches (length s.m_connections) main.conn.m_protocol r.addr
          r.port)

    abbrev grown : Shard P → Shards P
    grown main = record s {
      m_connections = s.m_connections ++ (fresh main ∷ []);
      m_key_index_pools = s.m_key_index_pools ++ ([] ∷ []);
    }

    added :
        (main : Shard P)
        → At s.m_connections 0 main
        → add_shard_connection protocol config clone reaches r.addr r.port s
          ≡ some (fresh main, grown main)
    unfolding add_shard_connection
    added main at =
        rw
          (
            at,
            reach r.addr r.port,
            let z : (length (s.m_connections ++ (fresh main ∷ []))
                      == length (s.m_key_index_pools ++ ([] ∷ [])))
                    ≡ true =
                  ground (
                    arith,
                    length-append s.m_connections (fresh main ∷ []),
                    length-append s.m_key_index_pools ([] ∷ []),
                    sound.pools,
                  ) in
                z,
          )
          refl

    -- Two connections of the grown list with the same address are one.
    grown-distinct :
        (main : Shard P) (i j : ℕ) (a b : Shard P)
        → find_shard r.addr r.port s.m_connections ≡ none
        → At s.m_connections i a ⊎ ((i ≡ length s.m_connections) × (a ≡ fresh main))
        → At s.m_connections j b ⊎ ((j ≡ length s.m_connections) × (b ≡ fresh main))
        → HasAddress a b.m_address b.m_port
        → i ≡ j
    grown-distinct main i j a b e (inl ha) (inl hb) same = sound.distinct i j a b ha hb same
    grown-distinct main i j a b e (inr (p, f)) (inr (q, g)) same = p ∙ sym q
    grown-distinct main i j a b e (inl ha) (inr (q, g)) same = absurd (
        find_none r.addr r.port s.m_connections i a e ha
          (same.0 ∙ ap (λ (y : Shard P). y.m_address) g, same.1 ∙ ap (λ (y : Shard P). y.m_port) g))
    grown-distinct main i j a b e (inr (p, f)) (inl hb) same = absurd (
        find_none r.addr r.port s.m_connections j b e hb (
          sym same.0 ∙ ap (λ (y : Shard P). y.m_address) f,
          sym same.1 ∙ ap (λ (y : Shard P). y.m_port) f,
        ))

    grown-IsSound :
        (main : Shard P) → find_shard r.addr r.port s.m_connections ≡ none → IsSound (grown main)
    grown-IsSound main e = record {
      main = omega (arith, length-append s.m_connections (fresh main ∷ []));
      pools = omega (
        arith,
        length-append s.m_connections (fresh main ∷ []),
        length-append s.m_key_index_pools ([] ∷ []),
        sound.pools,
      );
      ids = λ i sc h. elim (At_append s.m_connections (fresh main) i sc h) [
        | inl at ↦ sound.ids i sc at
        | inr (last, is_fresh) ↦ ap (λ (y : Shard P). y.m_id) is_fresh ∙ sym last
      ];
      distinct = λ i j a b ha hb.
          grown-distinct main i j a b e (At_append s.m_connections (fresh main) i a ha)
            (At_append s.m_connections (fresh main) j b hb);
    }

    new_one :
        (main : Shard P)
        → At s.m_connections 0 main
        → find_shard r.addr r.port s.m_connections ≡ none
        → Assigns r s
    new_one main at e = record {
      after = record (grown main) {
        m_slot_to_shard = λ j. if covers r j then length s.m_connections else s.m_slot_to_shard j;
      };
      shard = fresh main;
      gives =
          rw (e, added main at, update_range_lem r (length s.m_connections) (grown main) t) refl;
      sound =
          let g = grown-IsSound main e in
          record { main = g.main; pools = g.pools; ids = g.ids; distinct = g.distinct };
      keeps = Keeps-append s.m_connections (fresh main ∷ []);
      at = At_end s.m_connections (fresh main);
      address = (refl, refl);
      slots = λ j. refl;
    }

    pub assigns : Assigns r s
    assigns = elim (Option-cases (find_shard r.addr r.port s.m_connections)) [
      | inl e ↦ let (main, at) = main_of s.m_connections sound.main in new_one main at e
      | inr (sc, e) ↦ old_shard sc e
    ]
