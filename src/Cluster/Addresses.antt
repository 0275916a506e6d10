-- ===== src/Cluster/Addresses.antt =====
-- The connections of a cluster client by their addresses.
use mathlib.Core.Path.{subst}
use mathlib.Core.Option.{some-injective}
use memtier_skewsyn.Prelude.{
  ℕ, zero, suc, ◌<◌, ◌≡◌, refl, sym, ap, ◌↔◌, inl, inr, Bool, true, ◌&&◌, List, [], ◌∷◌, ◌++◌,
  Option, none, some, Bytes, bytes_eq, bytes_eq_iff, length, get_elem?, arith, ◌⊎◌, Bool-cases,
}
use memtier_skewsyn.Cluster.Shards.{Shard, Shards, find_shard}
use memtier_skewsyn.Cluster.Ranges.{SlotRange}

module _ {P : Type 0} where
  abbrev pub At : List (Shard P) → ℕ → Shard P → Type 0
  At scs i sc = get_elem? scs i ≡ some sc

  abbrev pub HasAddress : Shard P → Bytes → Bytes → Type 0
  HasAddress sc addr port = (sc.m_address ≡ addr) × (sc.m_port ≡ port)

  -- Every connection knows its place, has a pool of keys, and is the only one with its address.
  pub record IsSound (s : Shards P) : Type 0 where
    pub main : 0 < length s.m_connections
    pub pools : length s.m_key_index_pools ≡ length s.m_connections
    pub ids : (i : ℕ) (sc : Shard P) → At s.m_connections i sc → sc.m_id ≡ i
    pub distinct :
        (i j : ℕ) (a b : Shard P)
        → At s.m_connections i a
        → At s.m_connections j b
        → HasAddress a b.m_address b.m_port
        → i ≡ j

  -- The slot is that of a connection with the address of the range.
  abbrev pub Serves : Shards P → ℕ → SlotRange → Type 0
  Serves s j r =
      (sc : Shard P) × At s.m_connections (s.m_slot_to_shard j) sc × HasAddress sc r.addr r.port

  abbrev pub Routed : Shards P → Shards P → ℕ → Option SlotRange → Type 0
  Routed s s' j none = s'.m_slot_to_shard j ≡ s.m_slot_to_shard j
  Routed s s' j (some r) = Serves s' j r

  abbrev pub Keeps : List (Shard P) → List (Shard P) → Type 0
  Keeps old new = (i : ℕ) (sc : Shard P) → At old i sc → At new i sc

  pub At-lt : (scs : List (Shard P)) (i : ℕ) (sc : Shard P) → At scs i sc → i < length scs
  At-lt [] i sc h = absurd (cc)
  At-lt (x ∷ scs) zero sc h = omega arith
  At-lt (x ∷ scs) (suc i) sc h = omega (arith, At-lt scs i sc h)

  pub Keeps-append : (scs more : List (Shard P)) → Keeps scs (scs ++ more)
  Keeps-append [] more i sc h = absurd (cc)
  Keeps-append (x ∷ scs) more zero sc h = h
  Keeps-append (x ∷ scs) more (suc i) sc h = Keeps-append scs more i sc h

  pub At_end : (scs : List (Shard P)) (sc : Shard P) → At (scs ++ (sc ∷ [])) (length scs) sc
  At_end [] sc = refl
  At_end (x ∷ scs) sc = At_end scs sc

  -- What stands in a list with one more element.
  pub At_append :
      (scs : List (Shard P)) (x : Shard P) (i : ℕ) (sc : Shard P)
      → At (scs ++ (x ∷ [])) i sc
      → At scs i sc ⊎ ((i ≡ length scs) × (sc ≡ x))
  At_append [] x zero sc h = inr (refl, cc)
  At_append [] x (suc i) sc h = absurd (cc)
  At_append (y ∷ scs) x zero sc h = inl h
  At_append (y ∷ scs) x (suc i) sc h = elim (At_append scs x i sc h) [
    | inl a ↦ inl a
    | inr (e, f) ↦ inr (ap suc e, f)
  ]

  pub main_of : (scs : List (Shard P)) → 0 < length scs → (sc : Shard P) × At scs 0 sc
  main_of [] h = elim h [ ]
  main_of (sc ∷ scs) h = (sc, refl)

module _ {P : Type 0} where
  abbrev same_address : Bytes → Bytes → Shard P → Bool
  same_address addr port sc = bytes_eq addr sc.m_address && bytes_eq port sc.m_port

  same_address_iff :
      (addr port : Bytes) (sc : Shard P)
      → (same_address addr port sc ≡ true) ↔ HasAddress sc addr port
  same_address_iff addr port sc =
      ground (arith, bytes_eq_iff addr sc.m_address, bytes_eq_iff port sc.m_port)

  pub find_found :
      (addr port : Bytes) (scs : List (Shard P)) (sc : Shard P)
      → find_shard addr port scs ≡ some sc
      → (i : ℕ) × At scs i sc × HasAddress sc addr port
  unfolding find_shard
  find_found addr port [] sc h = absurd (cc)
  find_found addr port (x ∷ scs) sc h = elim (Bool-cases (same_address addr port x)) [
    | inl e ↦
        let is_x : some x ≡ some sc = rw e at h in
        (
          0,
          is_x,
          subst (λ y. HasAddress y addr port) (some-injective x sc is_x)
              ((same_address_iff addr port x).0 e),
        )
    | inr e ↦ let (i, at, has) = find_found addr port scs sc (rw e at h) in (suc i, at, has)
  ]

  pub find_none :
      (addr port : Bytes) (scs : List (Shard P)) (i : ℕ) (sc : Shard P)
      → find_shard addr port scs ≡ none
      → At scs i sc
      → ¬ HasAddress sc addr port
  unfolding find_shard
  find_none addr port [] i sc h at = absurd (cc)
  find_none addr port (x ∷ scs) zero sc h at = elim (Bool-cases (same_address addr port x)) [
    | inl e ↦ let z : some x ≡ none = rw e at h in absurd (cc)
    | inr e ↦ λ has. cc (
        (same_address_iff addr port x).1
          (subst (λ y. HasAddress y addr port) (sym (some-injective x sc at)) has))
  ]
  find_none addr port (x ∷ scs) (suc i) sc h at = elim (Bool-cases (same_address addr port x)) [
    | inl e ↦ let z : some x ≡ none = rw e at h in absurd (cc)
    | inr e ↦ find_none addr port scs i sc (rw e at h) at
  ]
