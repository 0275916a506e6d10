-- ===== src/Client/Totals.antt =====
-- The totals of run_stats are those of its seconds.
use memtier_skewsyn.Prelude.{
  ℕ, suc, ◌+◌, ◌<◌, ◌≤◌, ◌≡◌, refl, inl, inr, List, [], ◌∷◌, ◌++◌, arith, ltb, Bool-cases, length,
  All, All-end, ltb→lt,
}
use memtier_skewsyn.Client.Stats.{
  OneSecond, reset, merge_second, RunStats, new_stats, set_start_time, set_end_time,
  seconds_between, roll_cur_stats, update_get_op, update_set_op, update_wait_op,
}
use memtier_skewsyn.Client.Merge.{sum_seconds, summarize, average}

-- The operations, bytes and latencies of a second
abbrev pub ops_of : OneSecond → ℕ
ops_of s = s.m_ops_get + s.m_ops_set + s.m_ops_wait

abbrev pub bytes_of : OneSecond → ℕ
bytes_of s = s.m_bytes_get + s.m_bytes_set

abbrev pub latency_of : OneSecond → ℕ
latency_of s = s.m_total_get_latency + s.m_total_set_latency + s.m_total_wait_latency

-- Their sums over a list
abbrev pub total : (OneSecond → ℕ) → List OneSecond → ℕ
total f [] = 0
total f (s ∷ ss) = f s + total f ss

pub total-append :
    (f : OneSecond → ℕ) (xs ys : List OneSecond) → total f (xs ++ ys) ≡ total f xs + total f ys
total-append f [] ys = omega arith
total-append f (x ∷ xs) ys = omega (arith, total-append f xs ys)

-- A sum that merging adds up
abbrev pub IsAdditive : (OneSecond → ℕ) → Type 0
IsAdditive f = (s t : OneSecond) → f (merge_second s t) ≡ f s + f t

pub ops-IsAdditive : IsAdditive ops_of
ops-IsAdditive s t = omega arith

pub bytes-IsAdditive : IsAdditive bytes_of
bytes-IsAdditive s t = omega arith

pub latency-IsAdditive : IsAdditive latency_of
latency-IsAdditive s t = omega arith

pub sum_seconds-total :
    (f : OneSecond → ℕ) (t : OneSecond) (ss : List OneSecond)
    → IsAdditive f
    → f (sum_seconds t ss) ≡ f t + total f ss
unfolding sum_seconds
sum_seconds-total f t [] h = omega arith
sum_seconds-total f t (s ∷ ss) h = omega (arith, sum_seconds-total f (merge_second t s) ss h, h t s)

-- A response that is counted, with its time
pub data Op : Type 0 where
  get_op : ℕ → ℕ → ℕ → ℕ → ℕ → Op
  set_op : ℕ → ℕ → ℕ → Op
  wait_op : ℕ → ℕ → Op

-- All seconds of the list are before the second, and in order.
abbrev pub Before : ℕ → List OneSecond → Type 0
Before n ss = All (λ s. s.m_second < n) ss

abbrev pub Ascending : List OneSecond → Type 0
Ascending [] = Unit
Ascending (s ∷ ss) = All (λ t. s.m_second < t.m_second) ss × Ascending ss

pub Ascending-end :
    (ss : List OneSecond) (s : OneSecond)
    → Ascending ss
    → Before s.m_second ss
    → Ascending (ss ++ (s ∷ []))
Ascending-end [] s a b = (tt, tt)
Ascending-end (x ∷ ss) s a b =
    (All-end (λ t. x.m_second < t.m_second) ss s a.0 b.0, Ascending-end ss s a.1 b.1)

Before-le : (n m : ℕ) (ss : List OneSecond) → n ≤ m → Before n ss → Before m ss
Before-le n m [] h b = tt
Before-le n m (s ∷ ss) h b = (omega (arith, b.0), Before-le n m ss h b.1)

-- The bytes and the latency of an operation, and their sums
abbrev pub op_bytes : Op → ℕ
op_bytes (get_op ts bytes latency hits misses) = bytes
op_bytes (set_op ts bytes latency) = bytes
op_bytes (wait_op ts latency) = 0

abbrev pub op_latency : Op → ℕ
op_latency (get_op ts bytes latency hits misses) = latency
op_latency (set_op ts bytes latency) = latency
op_latency (wait_op ts latency) = latency

abbrev pub sum_of : (Op → ℕ) → List Op → ℕ
sum_of f [] = 0
sum_of f (op ∷ ops) = f op + sum_of f ops

module _ (bucket : ℕ → ℕ) where
  abbrev pub counted_op : Op → RunStats → RunStats
  counted_op (get_op ts bytes latency hits misses) s =
      update_get_op bucket ts bytes latency hits misses s
  counted_op (set_op ts bytes latency) s = update_set_op bucket ts bytes latency s
  counted_op (wait_op ts latency) s = update_wait_op bucket ts latency s

  -- The last operation comes first in the list.
  unfoldable pub counted_ops : List Op → RunStats → RunStats
  counted_ops [] s = s
  counted_ops (op ∷ ops) s = counted_op op (counted_ops ops s)

-- The totals are the sums over the seconds, with the current one, and the seconds are in order.
record Agrees (n b l : ℕ) (s : RunStats) : Type 0 where
  ops : n ≡ total ops_of s.m_stats + ops_of s.m_cur_stats
  bytes : b ≡ total bytes_of s.m_stats + bytes_of s.m_cur_stats
  latency : l ≡ total latency_of s.m_stats + latency_of s.m_cur_stats
  m_ops : s.m_ops ≡ n
  m_bytes : s.m_bytes ≡ b
  m_latency : s.m_latency ≡ l
  before : Before s.m_cur_stats.m_second s.m_stats
  ascending : Ascending s.m_stats

roll-Agrees : (ts n b l : ℕ) (s : RunStats) → Agrees n b l s → Agrees n b l (roll_cur_stats ts s)
unfolding roll_cur_stats
roll-Agrees ts n b l s a =
    elim (Bool-cases (ltb s.m_cur_stats.m_second (seconds_between s.m_start_time ts))) [
      | inl e ↦
          let lt = ltb→lt s.m_cur_stats.m_second (seconds_between s.m_start_time ts) e in
          rw e (record {
            ops = omega (arith, a.ops, total-append ops_of s.m_stats (s.m_cur_stats ∷ []));
            bytes = omega (arith, a.bytes, total-append bytes_of s.m_stats (s.m_cur_stats ∷ []));
            latency =
                omega (arith, a.latency, total-append latency_of s.m_stats (s.m_cur_stats ∷ []));
            m_ops = a.m_ops;
            m_bytes = a.m_bytes;
            m_latency = a.m_latency;
            before =
                All-end (λ t. t.m_second < seconds_between s.m_start_time ts) s.m_stats
                  s.m_cur_stats
                  (Before-le s.m_cur_stats.m_second (seconds_between s.m_start_time ts) s.m_stats
                    (omega (arith, lt)) a.before)
                  lt;
            ascending = Ascending-end s.m_stats s.m_cur_stats a.ascending a.before;
          })
      | inr e ↦ rw e a
    ]

module _ (bucket : ℕ → ℕ) where
  op-Agrees :
      (op : Op) (n b l : ℕ) (s : RunStats)
      → Agrees n b l s
      → Agrees (suc n) (op_bytes op + b) (op_latency op + l) (counted_op bucket op s)
  unfolding update_get_op update_set_op update_wait_op
  op-Agrees (get_op ts bytes latency hits misses) n b l s a =
      let r = roll-Agrees ts n b l s a in
      record {
        ops = omega (arith, r.ops);
        bytes = omega (arith, r.bytes);
        latency = omega (arith, r.latency);
        m_ops = omega (arith, r.m_ops);
        m_bytes = omega (arith, r.m_bytes);
        m_latency = omega (arith, r.m_latency);
        before = r.before;
        ascending = r.ascending;
      }
  op-Agrees (set_op ts bytes latency) n b l s a =
      let r = roll-Agrees ts n b l s a in
      record {
        ops = omega (arith, r.ops);
        bytes = omega (arith, r.bytes);
        latency = omega (arith, r.latency);
        m_ops = omega (arith, r.m_ops);
        m_bytes = omega (arith, r.m_bytes);
        m_latency = omega (arith, r.m_latency);
        before = r.before;
        ascending = r.ascending;
      }
  op-Agrees (wait_op ts latency) n b l s a =
      let r = roll-Agrees ts n b l s a in
      record {
        ops = omega (arith, r.ops);
        bytes = omega (arith, r.bytes);
        latency = omega (arith, r.latency);
        m_ops = omega (arith, r.m_ops);
        m_bytes = omega (arith, r.m_bytes);
        m_latency = omega (arith, r.m_latency);
        before = r.before;
        ascending = r.ascending;
      }

  ops-Agrees :
      (t0 : ℕ) (ops : List Op)
      → Agrees
          (length ops)
          (sum_of op_bytes ops)
          (sum_of op_latency ops)
          (counted_ops bucket ops (set_start_time t0 new_stats))
  unfolding counted_ops
  ops-Agrees t0 [] = record {
    ops = refl;
    bytes = refl;
    latency = refl;
    m_ops = refl;
    m_bytes = refl;
    m_latency = refl;
    before = tt;
    ascending = tt;
  }
  ops-Agrees t0 (op ∷ ops) =
      op-Agrees op _ _ _ (counted_ops bucket ops (set_start_time t0 new_stats)) (ops-Agrees t0 ops)

  -- After any responses between the start and the end of a run, the summary counts as many operations as there were
  -- responses, and so does the total that the statistics keep themselves; the bytes of both are the sum of those of
  -- the responses, the average latency of the summary is the sum of the latencies over their number, and the seconds
  -- of the list are ascending. The clock may go back.
  pub summarize-totals :
      (t0 t1 : ℕ) (ops : List Op)
      → let s = set_end_time t1 (counted_ops bucket ops (set_start_time t0 new_stats)) in
        ((summarize s).ops ≡ length ops)
        × (s.m_ops ≡ length ops)
        × ((summarize s).bytes ≡ sum_of op_bytes ops)
        × (s.m_bytes ≡ sum_of op_bytes ops)
        × ((summarize s).latency ≡ average (sum_of op_latency ops) (length ops))
        × (s.m_latency ≡ sum_of op_latency ops)
        × Ascending s.m_stats
  unfolding summarize set_end_time
  summarize-totals t0 t1 ops =
      let s = counted_ops bucket ops (set_start_time t0 new_stats) in
      let a = ops-Agrees t0 ops in
      let l = s.m_stats ++ (s.m_cur_stats ∷ []) in
      let n : (summarize (set_end_time t1 s)).ops ≡ length ops = omega (
        arith,
        a.ops,
        total-append ops_of s.m_stats (s.m_cur_stats ∷ []),
        sum_seconds-total ops_of (reset 0) l ops-IsAdditive,
      ) in
      let y : latency_of (sum_seconds (reset 0) l) ≡ sum_of op_latency ops = omega (
        arith,
        a.latency,
        total-append latency_of s.m_stats (s.m_cur_stats ∷ []),
        sum_seconds-total latency_of (reset 0) l latency-IsAdditive,
      ) in
      (
        n,
        a.m_ops,
        omega (
          arith,
          a.bytes,
          total-append bytes_of s.m_stats (s.m_cur_stats ∷ []),
          sum_seconds-total bytes_of (reset 0) l bytes-IsAdditive,
        ),
        a.m_bytes,
        (λ i. average (y i) (n i)),
        a.m_latency,
        Ascending-end s.m_stats s.m_cur_stats a.ascending a.before,
      )
