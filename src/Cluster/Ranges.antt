-- ===== src/Cluster/Ranges.antt =====
-- The ranges that a reply of CLUSTER SLOTS stands for, and its elements in the store.
use memtier_skewsyn.Prelude.{
  ℕ, ◌<◌, ◌≤◌, ◌^◌, ◌≡◌, refl, ap, Bool, ◌&&◌, List, [], ◌∷◌, Option, none, some, Bytes, leb,
  if◌then◌else◌, length, get_elem?, take-length, arith, mod-eq_of_lt,
}
use memtier_skewsyn.CLib.{c_str, print_u}
use memtier_skewsyn.CLib.Decimal.{strtol-print_u_end}
use memtier_skewsyn.Protocol.Base.{MbulkElement}
use memtier_skewsyn.Cluster.Shards.{child, slot_number, text_of}

-- A range of slots and the address of the node that serves it.
pub record SlotRange : Type 0 where
  pub min_slot : ℕ
  pub max_slot : ℕ
  pub addr : Bytes
  pub port : Bytes

-- The element of index `id` holds the text.
pub record HoldsText (store : List MbulkElement) (id : ℕ) (text : Bytes) : Type 0 where
  pub element : MbulkElement
  pub found : get_elem? store id ≡ some element
  pub has_value : element.value ≡ some text
  pub has_len : element.value_len ≡ length text

-- The element of index `id` is a shard of CLUSTER SLOTS: two slots, and a node of an address, a port and more.
pub record HoldsRange (store : List MbulkElement) (id : ℕ) (r : SlotRange) : Type 0 where
  pub shard : MbulkElement
  pub node : MbulkElement
  pub first_id : ℕ
  pub last_id : ℕ
  pub node_id : ℕ
  pub addr_id : ℕ
  pub port_id : ℕ
  pub replicas : List ℕ
  pub more : List ℕ
  pub found : get_elem? store id ≡ some shard
  pub parts : shard.mbulk_array ≡ first_id ∷ last_id ∷ node_id ∷ replicas
  pub first_text : HoldsText store first_id (print_u r.min_slot)
  pub last_text : HoldsText store last_id (print_u r.max_slot)
  pub node_found : get_elem? store node_id ≡ some node
  pub node_parts : node.mbulk_array ≡ addr_id ∷ port_id ∷ more
  pub addr_text : HoldsText store addr_id r.addr
  pub port_text : HoldsText store port_id r.port

pub record IsInTable (r : SlotRange) : Type 0 where
  pub ordered : r.min_slot ≤ r.max_slot
  pub within : r.max_slot < 16384
  pub addr_clean : c_str r.addr ≡ r.addr
  pub port_clean : c_str r.port ≡ r.port

-- The element holds the range, and the range is in the table.
pub data Hold (store : List MbulkElement) : List ℕ → List SlotRange → Type 0 where
  hold_none : Hold store [] []
  hold_one :
      {id : ℕ} {r : SlotRange} {ids : List ℕ} {rs : List SlotRange}
      → HoldsRange store id r
      → IsInTable r
      → Hold store ids rs
      → Hold store (id ∷ ids) (r ∷ rs)

-- The range that the table has for a slot when all ranges are entered: the last that covers it.
abbrev pub covers : SlotRange → ℕ → Bool
covers r j = leb r.min_slot j && leb j r.max_slot

abbrev pub route : List SlotRange → ℕ → Option SlotRange
route [] j = none
route (r ∷ rs) j = elim (route rs j) [
  | some r' ↦ some r'
  | none ↦ if covers r j then some r else none
]

pub slot_number_lem :
    (e : MbulkElement) (n : ℕ) → e.value ≡ some (print_u n) → n < 2 ^ 31 → slot_number e ≡ some n
unfolding slot_number
slot_number_lem e n h k =
    rw (h, strtol-print_u_end n (omega arith)) (ap some (mod-eq_of_lt (omega arith)))

pub text_of_lem :
    (e : MbulkElement) (s : Bytes)
    → e.value ≡ some s
    → e.value_len ≡ length s
    → c_str s ≡ s
    → text_of e ≡ some s
unfolding text_of
text_of_lem e s h k c = rw (h, k, take-length s, c) refl

pub child_lem :
    (store : List MbulkElement) (e x : MbulkElement) (i id : ℕ)
    → get_elem? e.mbulk_array i ≡ some id
    → get_elem? store id ≡ some x
    → child store e i ≡ some x
child_lem store e x i id h k = rw h k
