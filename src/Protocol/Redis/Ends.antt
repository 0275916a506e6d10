-- ===== src/Protocol/Redis/Ends.antt =====
-- redis_protocol::parse_response returns, whatever is in its buffer.
use memtier_skewsyn.Prelude.{
  ℕ, suc, ◌+◌, ◌%◌, ◌<◌, ◌≤◌, ◌≡◌, refl, Bool, if◌then◌else◌, inl, inr, ◌||◌, List, [], ◌∷◌, arith,
  Bytes, leb, ◌==◌, length,
}
use memtier_skewsyn.CLib.{first, minus_one, u32_mod}
use memtier_skewsyn.Evbuffer.{Evbuffer, IsEvbuffer}
use memtier_skewsyn.Protocol.Base.{Round, MbulkLevel, add_mbulk_array}
use memtier_skewsyn.Protocol.Base.Ends.{
  IsAnswer, KeptBelow, if_KeptBelow, loop_keeps, readln_cases, drain-le, remove-le,
}
use memtier_skewsyn.Protocol.Redis.{
  Redis, ResponseState, rs_initial, rs_read_bulk, rs_read_mbulk, number_after, initial_line,
  after_value_in, after_value, with_level, round_initial, mbulk_bulk, mbulk_line, round_mbulk,
  round_bulk, round_in, round, parse_response,
}

-- What a call has before it at most: a line takes a round, and a bulk the last one.
abbrev left_of : ResponseState → Bytes → ℕ
left_of rs_read_bulk buf = 0
left_of _ buf = suc (length buf)

abbrev measure : Redis → ℕ
measure p = left_of p.m_response_state p.m_read_buf

measure-le : (st : ResponseState) (buf : Bytes) → left_of st buf ≤ suc (length buf)
measure-le rs_initial buf = omega arith
measure-le rs_read_bulk buf = omega arith
measure-le rs_read_mbulk buf = omega arith

-- While the elements of an array are read, a level is open.
abbrev HasLevel : ResponseState → List MbulkLevel → Type 0
HasLevel rs_read_mbulk [] = ⊥
HasLevel _ _ = Unit

abbrev pub IsOpened : Redis → Type 0
IsOpened p = HasLevel p.m_response_state p.mbulk.levels

HasLevel-cons :
    (st : ResponseState) (ls : List MbulkLevel) {l : MbulkLevel} {outer : List MbulkLevel}
    → ls ≡ l ∷ outer
    → HasLevel st ls
HasLevel-cons rs_initial ls e = tt
HasLevel-cons rs_read_bulk ls e = tt
HasLevel-cons rs_read_mbulk ls e = rw e tt

abbrev Ends : ℕ → Round Redis → Type 0
Ends = KeptBelow IsAnswer IsOpened measure

if_Ends : (k : ℕ) (b : Bool) (x y : Round Redis) → Ends k x → Ends k y → Ends k (if b then x else y)
if_Ends = if_KeptBelow IsAnswer IsOpened measure

initial_line-Ends :
    (line : Bytes) (p : Redis) (k : ℕ)
    → length p.m_read_buf + 1 < k
    → IsOpened p
    → Ends k (initial_line line p)
unfolding initial_line
initial_line-Ends line p k lt o =
    if_Ends k (first line == b'*') _ _
      (if_Ends k (number_after line == minus_one) _ _ (tt, o) (omega (arith, lt), tt))
      (if_Ends k (first line == b'$') _ _
        (if_Ends k (number_after line == minus_one) _ _ (tt, o) (omega (arith, lt), tt))
        (if_Ends k (first line == b'+' || first line == b'-' || first line == b':') _ _ (tt, o)
          (tt, o)))

after_value-Ends :
    (levels : List MbulkLevel) (p : Redis) (k : ℕ)
    → p.mbulk.levels ≡ levels
    → length p.m_read_buf + 1 < k
    → Ends k (after_value_in levels p)
unfolding after_value_in
after_value-Ends [] p k e lt = (tt, tt)
after_value-Ends (_ ∷ _) p k e lt = (
  let le = measure-le p.m_response_state p.m_read_buf in omega (arith, le, lt),
  HasLevel-cons p.m_response_state p.mbulk.levels e,
)

with_level-Ends :
    (levels : List MbulkLevel) (p : Redis) (r : Round Redis) (k : ℕ)
    → HasLevel rs_read_mbulk levels
    → Ends k r
    → Ends k (with_level levels p r)
with_level-Ends [] p r k o e = absurd o
with_level-Ends (_ ∷ _) p r k o e = e

module _ (ev : Evbuffer) (h : IsEvbuffer ev) where
  module _ (p : Redis) (k : ℕ) (lt : length p.m_read_buf + 1 < k) (o : IsOpened p)
      (has : HasLevel rs_read_mbulk p.mbulk.levels) where
    mbulk_bulk-Ends : (n : ℕ) → Ends k (mbulk_bulk ev (record p { m_bulk_len = n }))
    unfolding mbulk_bulk after_value
    mbulk_bulk-Ends n =
        if_Ends k (leb ((n + 2) % u32_mod) (ev.get_length p.m_read_buf)) _ _
          (with_level-Ends p.mbulk.levels _ _ k has (
            after_value-Ends _ _ k refl (
              let x = drain-le ev h (ev.remove p.m_read_buf n).1 2 in
              let y = remove-le ev h p.m_read_buf n in omega (arith, x, y, lt))))
          (tt, o)

    mbulk_line-Ends : (line : Bytes) → Ends k (mbulk_line ev line p)
    unfolding mbulk_line after_value add_mbulk_array
    mbulk_line-Ends line =
        if_Ends k (first line == b'*') _ _
          (with_level-Ends p.mbulk.levels _ _ k has (omega (arith, lt), tt))
          (if_Ends k (first line == b':') _ _
            (with_level-Ends p.mbulk.levels _ _ k has (after_value-Ends _ _ k refl lt))
            (if_Ends k (first line == b'$') _ _ (mbulk_bulk-Ends (number_after line))
              (let le = measure-le p.m_response_state p.m_read_buf in omega (arith, le, lt), o)))

  round-Ends :
      (st : ResponseState) (p : Redis)
      → p.m_response_state ≡ st
      → HasLevel st p.mbulk.levels
      → Ends (left_of st p.m_read_buf) (round_in ev st p)
  unfolding round_in round_initial round_mbulk round_bulk
  round-Ends rs_initial p s o = elim (readln_cases ev h p.m_read_buf) [
    | inl e ↦ rw (e, round_initial) (tt, rw s tt)
    | inr (line, rest, e, le) ↦
        rw (e, round_initial) (initial_line-Ends line _ _ (omega (arith, le)) (rw s tt))
  ]
  round-Ends rs_read_mbulk p s o = elim (readln_cases ev h p.m_read_buf) [
    | inl e ↦ rw (e, round_mbulk) (tt, rw s o)
    | inr (line, rest, e, le) ↦
        rw (e, round_mbulk) (mbulk_line-Ends _ _ (omega (arith, le)) (rw s o) o line)
  ]
  round-Ends rs_read_bulk p s o =
      if_Ends 0 (leb ((p.m_bulk_len + 2) % u32_mod) (ev.get_length p.m_read_buf)) _ _ (tt, tt)
        (tt, rw s tt)

  -- In every state of the parser in which a level is open while it reads the elements of an array, and with every
  -- content of the buffer, parse_response returns 1, 0 or -1, in a state that is such again: the rounds that the
  -- model allows are enough, and no element is added where no level is open. That no call of evbuffer fails and
  -- that memory does not run out is taken for granted.
  pub redis-answers :
      (p : Redis) → IsOpened p → IsAnswer (parse_response ev p).0 × IsOpened (parse_response ev p).1
  unfolding parse_response round
  redis-answers p o =
      loop_keeps IsAnswer IsOpened measure (round ev)
        (λ s i. round-Ends s.m_response_state s refl i) (suc (suc (length p.m_read_buf))) p
        (let le = measure-le p.m_response_state p.m_read_buf in omega (arith, le)) o
