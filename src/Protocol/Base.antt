-- ===== src/Protocol/Base.antt =====
-- protocol.h and protocol.cpp: what the three protocols share.
pub mod Levels
pub mod Ends
use memtier_skewsyn.Prelude.{
  ℕ, zero, suc, ◌+◌, ◌-◌, ◌*◌, ◌%◌, Bool, true, false, List, [], ◌∷◌, ◌++◌, Option, none, some,
  Bytes, ◌==◌, if◌then◌else◌, length, get_elem?, set, ◌≡◌,
}
use memtier_skewsyn.CLib.{u32_mod}

-- class protocol_response. A pointer to a string is its bytes or none; `m_mbulk_value` is the index of
-- an element in the store of `MbulkElement`s.
pub record ProtocolResponse : Type 0 where
  pub m_status : Option Bytes
  pub m_value : Option Bytes
  pub m_mbulk_value : Option ℕ
  pub m_value_len : ℕ
  pub m_total_len : ℕ
  pub m_hits : ℕ
  pub m_error : Bool

-- protocol_response::clear; freed strings are gone with their last pointer.
abbrev pub cleared : ProtocolResponse
cleared = record {
  m_status = none;
  m_value = none;
  m_mbulk_value = none;
  m_value_len = 0;
  m_total_len = 0;
  m_hits = 0;
  m_error = false;
}

abbrev pub set_error : Bool → ProtocolResponse → ProtocolResponse
set_error error r = record r { m_error = error }

abbrev pub set_status : Bytes → ProtocolResponse → ProtocolResponse
set_status status r = record r { m_status = some status }

abbrev pub set_value : Bytes → ℕ → ProtocolResponse → ProtocolResponse
set_value value value_len r = record r { m_value = some value; m_value_len = value_len }

abbrev pub set_total_len : ℕ → ProtocolResponse → ProtocolResponse
set_total_len total_len r = record r { m_total_len = total_len }

abbrev pub incr_hits : ProtocolResponse → ProtocolResponse
incr_hits r = record r { m_hits = (r.m_hits + 1) % u32_mod }

abbrev pub set_mbulk_value : ℕ → ProtocolResponse → ProtocolResponse
set_mbulk_value element r = record r { m_mbulk_value = some element }

-- struct mbulk_element; the children are indices in the store.
pub record MbulkElement : Type 0 where
  pub value : Option Bytes
  pub value_len : ℕ
  pub mbulk_array : List ℕ

abbrev pub new_array : MbulkElement
new_array = record { value = none; value_len = 0; mbulk_array = [] }

abbrev pub new_value : Bytes → ℕ → MbulkElement
new_value val len = record { value = some val; value_len = len; mbulk_array = [] }

-- struct mbulk_level; the count is unsigned.
pub record MbulkLevel : Type 0 where
  pub mbulk_count : ℕ
  pub mbulk : ℕ

-- A multi bulk reply under construction: the store of elements, and the open levels, the last first.
pub record Mbulk : Type 0 where
  pub store : List MbulkElement
  pub levels : List MbulkLevel

push_child : ℕ → Option MbulkElement → ℕ → List MbulkElement → List MbulkElement
push_child parent none child store = store
push_child parent (some e) child store =
    set store parent (record e { mbulk_array = e.mbulk_array ++ (child ∷ []) })

-- protocol_response::add_mbulk_value of a new element. It takes back() of the open levels, so that redis_protocol
-- ends before it where no level is open.
add_to_levels : MbulkElement → List MbulkElement → List MbulkLevel → Mbulk
add_to_levels element store [] = record { store = store ++ (element ∷ []); levels = [] }
add_to_levels element store (cur ∷ outer) =
    let grown = push_child cur.mbulk (get_elem? store cur.mbulk) (length store) store in
    let count = (cur.mbulk_count + u32_mod - 1) % u32_mod in
    record {
      store = grown ++ (element ∷ []);
      levels = if count == 0 then outer else record cur { mbulk_count = count } ∷ outer;
    }

unfoldable pub add_mbulk_value : MbulkElement → Mbulk → Mbulk
unfolding add_to_levels push_child
add_mbulk_value element m = add_to_levels element m.store m.levels

-- protocol_response::add_mbulk_array
unfoldable pub add_mbulk_array : ℕ → Mbulk → Mbulk
unfolding add_mbulk_value
add_mbulk_array count m =
    let m' = add_mbulk_value new_array m in
    record m' { levels = record { mbulk_count = count; mbulk = length m.store } ∷ m'.levels }

-- What parse_response returns (1, 0, -1), or how it fails to return.
pub data Outcome : Type 0 where
  complete incomplete failed : Outcome
  -- an assertion failed
  aborted : Outcome
  -- a write outside of an array
  overrun : Outcome
  -- the rounds of the model ran out
  exhausted : Outcome

-- One round of the loop in a parse_response: it returns, or goes round again.
pub data Round {ℓ} (S : Type ℓ) : Type ℓ where
  returns : Outcome → S → Round S
  again : S → Round S

unfoldable pub loop {ℓ} : {S : Type ℓ} → (S → Round S) → ℕ → S → Outcome × S
loop round zero s = (exhausted, s)
loop round (suc f) s = elim (round s) [ returns o s' ↦ (o, s') | again s' ↦ loop round f s' ]

module _ {ℓ} {S : Type ℓ} (round : S → Round S) (f : ℕ) (s : S) {s' : S} where
  pub loop_returns : {o : Outcome} → round s ≡ returns o s' → loop round (suc f) s ≡ (o, s')
  unfolding loop
  loop_returns e = rw (e, loop)

  pub loop_again : round s ≡ again s' → loop round (suc f) s ≡ loop round f s'
  unfolding loop
  loop_again e = rw (e, loop)
