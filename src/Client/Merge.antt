-- ===== src/Client/Merge.antt =====
-- run_stats::merge and summarize of client.cpp.
use memtier_skewsyn.Prelude.{
  ℕ, ◌+◌, ◌/◌, Bool, true, false, List, [], ◌∷◌, ◌++◌, ltb, ◌==◌, if◌then◌else◌,
}
use memtier_skewsyn.Client.Stats.{OneSecond, reset, merge_second, LatencyMap, RunStats}

-- The first second of the list that has the number of the other is merged with it; the Boolean says whether there is
-- one.
unfoldable pub merge_into : OneSecond → List OneSecond → Bool × List OneSecond
merge_into other [] = (false, [])
merge_into other (s ∷ ss) =
    let (merged, rest) = merge_into other ss in
    if s.m_second == other.m_second then (true, merge_second s other ∷ ss) else (merged, s ∷ rest)

-- The loop of run_stats::merge over the seconds of the other; the Boolean says whether one is new.
unfoldable pub merge_seconds : Bool → List OneSecond → List OneSecond → Bool × List OneSecond
unfolding merge_into
merge_seconds new_stats [] ss = (new_stats, ss)
merge_seconds new_stats (other ∷ others) ss =
    let (merged, ss') = merge_into other ss in
    let n = if merged then new_stats else true in
    merge_seconds n others (if merged then ss' else ss ++ (other ∷ []))

-- std::sort by one_second_stats_predicate
unfoldable pub insert_second : OneSecond → List OneSecond → List OneSecond
insert_second x [] = x ∷ []
insert_second x (s ∷ ss) =
    let rest = insert_second x ss in if ltb s.m_second x.m_second then s ∷ rest else x ∷ s ∷ ss

unfoldable pub sort_seconds : List OneSecond → List OneSecond
unfolding insert_second
sort_seconds [] = []
sort_seconds (s ∷ ss) = insert_second s (sort_seconds ss)

abbrev pub merged_maps : LatencyMap → LatencyMap → LatencyMap
merged_maps m other k = m k + other k

-- run_stats::merge, for the times that timeval_factorial_average gives
unfoldable pub merge_stats : ℕ → ℕ → RunStats → RunStats → RunStats
unfolding merge_seconds sort_seconds
merge_stats start_time end_time other s =
    let (new_stats, ss) = merge_seconds false other.m_stats s.m_stats in
    record s {
      m_start_time = start_time;
      m_end_time = end_time;
      m_stats = if new_stats then sort_seconds ss else ss;
      m_bytes = s.m_bytes + other.m_bytes;
      m_ops = s.m_ops + other.m_ops;
      m_get_latency_map = merged_maps s.m_get_latency_map other.m_get_latency_map;
      m_set_latency_map = merged_maps s.m_set_latency_map other.m_set_latency_map;
      m_wait_latency_map = merged_maps s.m_wait_latency_map other.m_wait_latency_map;
    }

-- The loop of run_stats::summarize
unfoldable pub sum_seconds : OneSecond → List OneSecond → OneSecond
sum_seconds total [] = total
sum_seconds total (s ∷ ss) = sum_seconds (merge_second total s) ss

-- The whole numbers of the totals that run_stats::summarize makes: the operations, the bytes, and the averages of the
-- latencies, in whole microseconds, which it divides by 1000.
pub record Summary : Type 0 where
  pub ops_set : ℕ
  pub ops_get : ℕ
  pub ops_wait : ℕ
  pub ops : ℕ
  pub bytes : ℕ
  pub latency_set : ℕ
  pub latency_get : ℕ
  pub latency_wait : ℕ
  pub latency : ℕ

abbrev pub average : ℕ → ℕ → ℕ
average total ops = if ltb 0 ops then total / ops else 0

unfoldable pub summarize : RunStats → Summary
unfolding sum_seconds
summarize s =
    let t = sum_seconds (reset 0) s.m_stats in
    let ops = t.m_ops_get + t.m_ops_set + t.m_ops_wait in
    record {
      ops_set = t.m_ops_set;
      ops_get = t.m_ops_get;
      ops_wait = t.m_ops_wait;
      ops = ops;
      bytes = t.m_bytes_get + t.m_bytes_set;
      latency_set = average t.m_total_set_latency t.m_ops_set;
      latency_get = average t.m_total_get_latency t.m_ops_get;
      latency_wait = average t.m_total_wait_latency t.m_ops_wait;
      latency =
          average (t.m_total_get_latency + t.m_total_set_latency + t.m_total_wait_latency) ops;
    }
