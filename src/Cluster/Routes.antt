-- ===== src/Cluster/Routes.antt =====
-- What cluster_client::handle_cluster_slots makes of a reply, against the ranges that the reply stands for.
use memtier_skewsyn.Prelude.{
  ℕ, ◌≡◌, refl, ◌∙◌, inl, inr, Bool, true, List, Option, none, some, Bytes, if◌then◌else◌, arith,
  Bool-cases,
}
use memtier_skewsyn.Protocol.Base.{MbulkElement}
use memtier_skewsyn.ShardConnection.{Config, Protocol}
use memtier_skewsyn.Cluster.Shards.{Shard, Shards, handle_shard, handle_cluster_slots}
use memtier_skewsyn.Cluster.Ranges.{
  SlotRange, HoldsRange, IsInTable, Hold, hold_none, hold_one, covers, route, slot_number_lem,
  text_of_lem, child_lem,
}
use memtier_skewsyn.Cluster.Addresses.{At, IsSound, Routed, Keeps}
use memtier_skewsyn.Cluster.Assign.{handle, assigned, Assigns, assigns}

module _ {P : Type 0} (protocol : Protocol P) (config : Config) (clone : P → P)
    (reaches : Bytes → Bytes → Bool) where
  handle_shard_lem :
      (store : List MbulkElement) (id : ℕ) (r : SlotRange) (s : Shards P)
      → HoldsRange store id r
      → IsInTable r
      → handle protocol config clone reaches store id s ≡ assigned protocol config clone reaches r s
  unfolding handle_shard
  handle_shard_lem store id r s h t =
      rw
        (
          h.found,
          child_lem store h.shard h.first_text.element 0 h.first_id (rw h.parts refl)
              h.first_text.found,
          slot_number_lem h.first_text.element r.min_slot h.first_text.has_value
              (omega (arith, t.ordered, t.within)),
          child_lem store h.shard h.last_text.element 1 h.last_id (rw h.parts refl)
              h.last_text.found,
          slot_number_lem h.last_text.element r.max_slot h.last_text.has_value
              (omega (arith, t.within)),
          child_lem store h.shard h.node 2 h.node_id (rw h.parts refl) h.node_found,
          child_lem store h.node h.addr_text.element 0 h.addr_id (rw h.node_parts refl)
              h.addr_text.found,
          text_of_lem h.addr_text.element r.addr h.addr_text.has_value h.addr_text.has_len
              t.addr_clean,
          child_lem store h.node h.port_text.element 1 h.port_id (rw h.node_parts refl)
              h.port_text.found,
          text_of_lem h.port_text.element r.port h.port_text.has_value h.port_text.has_len
              t.port_clean,
        )
        refl

  module _ (store : List MbulkElement) (reach : (a p : Bytes) → reaches a p ≡ true) where
    -- What a reply does.
    record Enters (ids : List ℕ) (rs : List SlotRange) (s : Shards P) : Type 0 where
      after : Shards P
      gives : handle_cluster_slots protocol config clone reaches store ids s ≡ some after
      sound : IsSound after
      keeps : Keeps s.m_connections after.m_connections
      routed : (j : ℕ) → Routed s after j (route rs j)

    Routed-cons :
        (r : SlotRange) (rs : List SlotRange) (s : Shards P)
        (a : Assigns protocol config clone reaches r s) (after : Shards P) (j : ℕ)
        → Keeps a.after.m_connections after.m_connections
        → (o : Option SlotRange) → Routed a.after after j o
        → Routed s after j
            (elim o [ some r' ↦ some r' | none ↦ if covers r j then some r else none ])
    Routed-cons r rs s a after j keeps (some r') routed = routed
    Routed-cons r rs s a after j keeps none routed = elim (Bool-cases (covers r j)) [
      | inl e ↦
          rw e (a.shard, rw (routed ∙ a.slots j, e) (keeps a.shard.m_id a.shard a.at), a.address)
      | inr e ↦ rw e (rw e at (routed ∙ a.slots j))
    ]

    enters :
        (ids : List ℕ) (rs : List SlotRange) (s : Shards P)
        → Hold store ids rs
        → IsSound s
        → Enters ids rs s
    unfolding handle_cluster_slots
    enters ids rs s hold_none sound = record {
      after = s;
      gives = refl;
      sound = sound;
      keeps = λ i sc h. h;
      routed = λ j. refl;
    }
    enters ids rs s (hold_one {id = id} {r = r} {ids = ids'} {rs = rs'} h t more) sound =
        let a = assigns protocol config clone reaches r s reach t sound in
        let n = enters ids' rs' a.after more a.sound in
        record {
          after = n.after;
          gives = rw (handle_shard_lem store id r s h t, a.gives) n.gives;
          sound = n.sound;
          keeps = λ i sc at. n.keeps i sc (a.keeps i sc at);
          routed = λ j. Routed-cons r rs' s a n.after j n.keeps (route rs' j) (n.routed j);
        }

  -- A reply of CLUSTER SLOTS with a list of ranges of slots in the table, whose nodes can all be reached, is taken
  -- without failure. Afterwards every slot that some range covers belongs to a connection with the address of the last
  -- such range, the others belong to what they did; the connections that were there keep their places, every
  -- connection has its place for its id, a pool of keys, and an address of its own.
  pub handle_cluster_slots-routes :
      (store : List MbulkElement) (ids : List ℕ) (rs : List SlotRange) (s : Shards P)
      → ((a p : Bytes) → reaches a p ≡ true)
      → Hold store ids rs
      → IsSound s
      → (s' : Shards P) × (handle_cluster_slots protocol config clone reaches store ids s ≡ some s')
        × IsSound s'
        × ((i : ℕ) (sc : Shard P) → At s.m_connections i sc → At s'.m_connections i sc)
        × ((j : ℕ) → Routed s s' j (route rs j))
  handle_cluster_slots-routes store ids rs s reach hold sound =
      let n = enters store reach ids rs s hold sound in
      (n.after, n.gives, n.sound, n.keeps, n.routed)
