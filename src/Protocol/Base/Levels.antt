-- ===== src/Protocol/Base/Levels.antt =====
-- What the calls of protocol_response leave of the open levels of a multi bulk reply.
use memtier_skewsyn.Prelude.{
  ℕ, suc, ◌<◌, ◌≡◌, refl, ap, List, [], ◌∷◌, arith, ◌==◌, if◌then◌else◌, length, ◌++◌, some,
  get_elem?, set,
}
use memtier_skewsyn.CLib.{u32_mod}
use memtier_skewsyn.Protocol.Base.{
  MbulkElement, MbulkLevel, Mbulk, new_array, add_mbulk_value, add_to_levels, push_child,
  add_mbulk_array,
}

abbrev pub level : ℕ → ℕ → MbulkLevel
level c id = record { mbulk_count = c; mbulk = id }

-- A level that has got one more of `suc c` elements is gone if that was the last.
abbrev pub popped : ℕ → ℕ → List MbulkLevel → List MbulkLevel
popped c id outer = if c == 0 then outer else level c id ∷ outer

add_to_levels-popped :
    (e : MbulkElement) (store : List MbulkElement) (levels : List MbulkLevel) (c id : ℕ)
    (outer : List MbulkLevel)
    → levels ≡ level (suc c) id ∷ outer
    → suc c < u32_mod
    → (add_to_levels e store levels).levels ≡ popped c id outer
unfolding add_to_levels
add_to_levels-popped e store [] c id outer h small = cc
add_to_levels-popped e store (x ∷ xs) c id outer h small = ground arith

module _ (m : Mbulk) (c id : ℕ) (outer : List MbulkLevel)
    (top : m.levels ≡ level (suc c) id ∷ outer) (small : suc c < u32_mod) where
  pub add_mbulk_value-levels : (e : MbulkElement) → (add_mbulk_value e m).levels ≡ popped c id outer
  unfolding add_mbulk_value
  add_mbulk_value-levels e = add_to_levels-popped e m.store m.levels c id outer top small

  pub add_mbulk_array-levels :
      (n : ℕ) → (add_mbulk_array n m).levels ≡ level n (length m.store) ∷ popped c id outer
  unfolding add_mbulk_array
  add_mbulk_array-levels n = ap (◌∷◌ (level n (length m.store))) (add_mbulk_value-levels new_array)

pub add_mbulk_array-top :
    (m : Mbulk) (n : ℕ)
    → (add_mbulk_array n m).levels ≡ level n (length m.store) ∷ (add_mbulk_value new_array m).levels
unfolding add_mbulk_array
add_mbulk_array-top m n = refl

-- The store with the new element, in whose parent its place is added.
pub add_mbulk_value-store :
    (m : Mbulk) (c id : ℕ) (outer : List MbulkLevel)
    → m.levels ≡ level c id ∷ outer
    → (parent : MbulkElement) → get_elem? m.store id ≡ some parent
    → (e : MbulkElement)
    → (add_mbulk_value e m).store
      ≡ set m.store id (record parent { mbulk_array = parent.mbulk_array ++ (length m.store ∷ []) })
        ++ (e ∷ [])
unfolding add_mbulk_value add_to_levels push_child
add_mbulk_value-store m c id outer top parent at e = rw (top, at) refl

pub add_mbulk_array-store :
    (m : Mbulk) (n : ℕ) → (add_mbulk_array n m).store ≡ (add_mbulk_value new_array m).store
unfolding add_mbulk_array
add_mbulk_array-store m n = refl
