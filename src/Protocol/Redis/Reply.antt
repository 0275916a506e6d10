-- ===== src/Protocol/Redis/Reply.antt =====
-- Multi bulk replies of the Redis protocol: their grammar and their wire format, and what
-- protocol_response makes of them.
use memtier_skewsyn.Prelude.{
  ℕ, suc, ◌+◌, ◌<◌, ◌≤◌, ◌≡◌, refl, ◌∙◌, false, List, ◌∷◌, ◌++◌, arith, Bytes, length,
  length-append,
}
use memtier_skewsyn.CLib.{u32_mod, c_str}
use memtier_skewsyn.Evbuffer.{has_crlf}
use memtier_skewsyn.Protocol.Base.{MbulkLevel, Mbulk, new_value, add_mbulk_value, add_mbulk_array}
use memtier_skewsyn.Protocol.Base.Levels.{
  level, popped, add_mbulk_value-levels, add_mbulk_array-levels,
}
use memtier_skewsyn.Protocol.Redis.Single.{header}

-- An element of an array reply: an integer, a bulk, or an array of at least one element.
mutual
  pub data Item : Type 0 where
    int : Bytes → Item
    bulk : Bytes → Item
    arr : Items → Item

  pub data Items : Type 0 where
    one : Item → Items
    more : Item → Items → Items

unfoldable pub count : Items → ℕ
count (one x) = 1
count (more x xs) = suc (count xs)

-- The bytes of an element, in front of what follows.
unfoldable mutual
  pub encode : Item → Bytes → Bytes
  encode (int v) rest = b':' ∷ (v ++ (b'\r' ∷ b'\n' ∷ rest))
  encode (bulk v) rest = header b'$' (length v) ++ (b'\r' ∷ b'\n' ∷ (v ++ (b'\r' ∷ b'\n' ∷ rest)))
  encode (arr xs) rest = header b'*' (count xs) ++ (b'\r' ∷ b'\n' ∷ encode_all xs rest)

  pub encode_all : Items → Bytes → Bytes
  encode_all (one x) rest = encode x rest
  encode_all (more x xs) rest = encode x (encode_all xs rest)

-- An integer's text holds no line break and no zero byte, and lengths fit in 32 bits.
abbrev mutual
  pub IsSent : Item → Type 0
  IsSent (int v) = (has_crlf (b':' ∷ v) ≡ false) × (c_str v ≡ v)
  IsSent (bulk v) = length v + 2 < u32_mod
  IsSent (arr xs) = (count xs < u32_mod) × AreSent xs

  pub AreSent : Items → Type 0
  AreSent (one x) = IsSent x
  AreSent (more x xs) = IsSent x × AreSent xs

-- The calls of protocol_response that an element stands for.
unfoldable mutual
  pub build : Item → Mbulk → Mbulk
  build (int v) m = add_mbulk_value (new_value v (length v)) m
  build (bulk v) m = add_mbulk_value (new_value v (length v)) m
  build (arr xs) m = build_all xs (add_mbulk_array (count xs) m)

  pub build_all : Items → Mbulk → Mbulk
  build_all (one x) m = build x m
  build_all (more x xs) m = build_all xs (build x m)

-- How many lines of the parser an element takes.
unfoldable mutual
  pub rounds : Item → ℕ
  rounds (int v) = 1
  rounds (bulk v) = 1
  rounds (arr xs) = suc (rounds_all xs)

  pub rounds_all : Items → ℕ
  rounds_all (one x) = rounds x
  rounds_all (more x xs) = rounds x + rounds_all xs

mutual
  unfolding rounds rounds_all encode encode_all

  pub rounds-le : (x : Item) (rest : Bytes) → rounds x + length rest ≤ length (encode x rest)
  rounds-le (int v) rest = omega (arith, length-append v (b'\r' ∷ b'\n' ∷ rest))
  rounds-le (bulk v) rest = omega (
    arith,
    length-append (header b'$' (length v)) (b'\r' ∷ b'\n' ∷ (v ++ (b'\r' ∷ b'\n' ∷ rest))),
    length-append v (b'\r' ∷ b'\n' ∷ rest),
  )
  rounds-le (arr xs) rest = omega (
    arith,
    length-append (header b'*' (count xs)) (b'\r' ∷ b'\n' ∷ encode_all xs rest),
    rounds_all-le xs rest,
  )

  pub rounds_all-le :
      (xs : Items) (rest : Bytes) → rounds_all xs + length rest ≤ length (encode_all xs rest)
  rounds_all-le (one x) rest = rounds-le x rest
  rounds_all-le (more x xs) rest =
      omega (arith, rounds-le x (encode_all xs rest), rounds_all-le xs rest)

pub count-more : (x : Item) (xs : Items) → count (more x xs) ≡ suc (count xs)
unfolding count
count-more x xs = refl

count_pos : (xs : Items) → 0 < count xs
unfolding count
count_pos (one x) = omega arith
count_pos (more x xs) = omega arith

pub popped_count :
    (xs : Items) (id : ℕ) (outer : List MbulkLevel)
    → popped (count xs) id outer ≡ level (count xs) id ∷ outer
popped_count xs id outer = ground (arith, count_pos xs)

-- An element closes one place of the last level, and the elements of an array close its level.
mutual
  unfolding build build_all count

  pub build-levels :
      (x : Item) (m : Mbulk) (c id : ℕ) (outer : List MbulkLevel)
      → IsSent x
      → m.levels ≡ level (suc c) id ∷ outer
      → suc c < u32_mod
      → (build x m).levels ≡ popped c id outer
  build-levels (int v) m c id outer sent top small = add_mbulk_value-levels m c id outer top small _
  build-levels (bulk v) m c id outer sent top small =
      add_mbulk_value-levels m c id outer top small _
  build-levels (arr xs) m c id outer (fits, sent) top small =
      build_all-levels xs (add_mbulk_array (count xs) m) (length m.store) (popped c id outer) fits
        sent (add_mbulk_array-levels m c id outer top small (count xs))

  pub build_all-levels :
      (xs : Items) (m : Mbulk) (id : ℕ) (outer : List MbulkLevel)
      → count xs < u32_mod
      → AreSent xs
      → m.levels ≡ level (count xs) id ∷ outer
      → (build_all xs m).levels ≡ outer
  build_all-levels (one x) m id outer fits sent top = build-levels x m 0 id outer sent top fits
  build_all-levels (more x xs) m id outer fits (sent, rest) top =
      build_all-levels xs (build x m) id outer (omega arith) rest
        (build-levels x m (count xs) id outer sent top fits ∙ popped_count xs id outer)
