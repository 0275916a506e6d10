-- ===== src/Client/Stats.antt =====
-- run_stats of client.cpp: the operations of each second, the totals, and their merging.
use memtier_skewsyn.Prelude.{
  ℕ, ◌+◌, ◌-◌, ◌/◌, ◌%◌, ◌^◌, List, [], ◌∷◌, ◌++◌, ltb, ◌==◌, if◌then◌else◌,
}
use memtier_skewsyn.CLib.{u32_mod, u64_mod, to_u32}

-- struct one_second_stats. The counters of 64 bits are not reduced to their words.
pub record OneSecond : Type 0 where
  pub m_second : ℕ
  pub m_bytes_get : ℕ
  pub m_bytes_set : ℕ
  pub m_ops_get : ℕ
  pub m_ops_set : ℕ
  pub m_ops_wait : ℕ
  pub m_get_hits : ℕ
  pub m_get_misses : ℕ
  pub m_total_get_latency : ℕ
  pub m_total_set_latency : ℕ
  pub m_total_wait_latency : ℕ

-- one_second_stats::reset
abbrev pub reset : ℕ → OneSecond
reset second = record {
  m_second = second;
  m_bytes_get = 0;
  m_bytes_set = 0;
  m_ops_get = 0;
  m_ops_set = 0;
  m_ops_wait = 0;
  m_get_hits = 0;
  m_get_misses = 0;
  m_total_get_latency = 0;
  m_total_set_latency = 0;
  m_total_wait_latency = 0;
}

-- one_second_stats::merge
abbrev pub merge_second : OneSecond → OneSecond → OneSecond
merge_second s other = record s {
  m_bytes_get = s.m_bytes_get + other.m_bytes_get;
  m_bytes_set = s.m_bytes_set + other.m_bytes_set;
  m_ops_get = s.m_ops_get + other.m_ops_get;
  m_ops_set = s.m_ops_set + other.m_ops_set;
  m_ops_wait = s.m_ops_wait + other.m_ops_wait;
  m_get_hits = (s.m_get_hits + other.m_get_hits) % u32_mod;
  m_get_misses = (s.m_get_misses + other.m_get_misses) % u32_mod;
  m_total_get_latency = s.m_total_get_latency + other.m_total_get_latency;
  m_total_set_latency = s.m_total_set_latency + other.m_total_set_latency;
  m_total_wait_latency = s.m_total_wait_latency + other.m_total_wait_latency;
}

-- A latency_map: how often each key occurs. The keys are floating point; a number stands for each.
abbrev pub LatencyMap : Type 0
LatencyMap = ℕ → ℕ

abbrev pub counted_at : ℕ → LatencyMap → LatencyMap
counted_at k m j = if j == k then m j + 1 else m j

-- class run_stats, but the rates of its totals. Times are in microseconds; the total of latencies, a sum of whole
-- numbers, is one.
pub record RunStats : Type 0 where
  pub m_start_time : ℕ
  pub m_end_time : ℕ
  pub m_bytes : ℕ
  pub m_ops : ℕ
  pub m_latency : ℕ
  pub m_stats : List OneSecond
  pub m_cur_stats : OneSecond
  pub m_get_latency_map : LatencyMap
  pub m_set_latency_map : LatencyMap
  pub m_wait_latency_map : LatencyMap

abbrev pub new_stats : RunStats
new_stats = record {
  m_start_time = 0;
  m_end_time = 0;
  m_bytes = 0;
  m_ops = 0;
  m_latency = 0;
  m_stats = [];
  m_cur_stats = reset 0;
  m_get_latency_map = λ k. 0;
  m_set_latency_map = λ k. 0;
  m_wait_latency_map = λ k. 0;
}

-- ts_diff, as the bit pattern of a long long
abbrev pub ts_diff : ℕ → ℕ → ℕ
ts_diff a b = (b % u64_mod + u64_mod - a % u64_mod) % u64_mod

-- ts_diff(a, b) / 1000000 as an unsigned int; the division is that of signed numbers.
unfoldable pub seconds_between : ℕ → ℕ → ℕ
seconds_between a b =
    let d = ts_diff a b in
    if ltb d (2 ^ 63)
    then to_u32 (d / 1000000)
    else (u32_mod - to_u32 ((u64_mod - d) / 1000000)) % u32_mod

-- run_stats::set_start_time
abbrev pub set_start_time : ℕ → RunStats → RunStats
set_start_time now s = record s { m_start_time = now }

-- run_stats::set_end_time
unfoldable pub set_end_time : ℕ → RunStats → RunStats
set_end_time now s = record s { m_end_time = now; m_stats = s.m_stats ++ (s.m_cur_stats ∷ []) }

-- run_stats::roll_cur_stats
unfoldable pub roll_cur_stats : ℕ → RunStats → RunStats
unfolding seconds_between
roll_cur_stats ts s =
    let sec = seconds_between s.m_start_time ts in
    if ltb s.m_cur_stats.m_second sec
    then record s { m_stats = s.m_stats ++ (s.m_cur_stats ∷ []); m_cur_stats = reset sec }
    else s

-- `bucket` is the key of a latency: get_2_meaningful_digits of its milliseconds.
module _ (bucket : ℕ → ℕ) where
  -- run_stats::update_get_op, but the list of latencies
  unfoldable pub update_get_op : ℕ → ℕ → ℕ → ℕ → ℕ → RunStats → RunStats
  unfolding roll_cur_stats
  update_get_op ts bytes latency hits misses s =
      let r = roll_cur_stats ts s in
      record r {
        m_cur_stats = record r.m_cur_stats {
          m_bytes_get = r.m_cur_stats.m_bytes_get + bytes;
          m_ops_get = r.m_cur_stats.m_ops_get + 1;
          m_get_hits = (r.m_cur_stats.m_get_hits + hits) % u32_mod;
          m_get_misses = (r.m_cur_stats.m_get_misses + misses) % u32_mod;
          m_total_get_latency = r.m_cur_stats.m_total_get_latency + latency;
        };
        m_bytes = r.m_bytes + bytes;
        m_ops = r.m_ops + 1;
        m_latency = r.m_latency + latency;
        m_get_latency_map = counted_at (bucket latency) r.m_get_latency_map;
      }

  -- run_stats::update_set_op, but the list of latencies
  unfoldable pub update_set_op : ℕ → ℕ → ℕ → RunStats → RunStats
  unfolding roll_cur_stats
  update_set_op ts bytes latency s =
      let r = roll_cur_stats ts s in
      record r {
        m_cur_stats = record r.m_cur_stats {
          m_bytes_set = r.m_cur_stats.m_bytes_set + bytes;
          m_ops_set = r.m_cur_stats.m_ops_set + 1;
          m_total_set_latency = r.m_cur_stats.m_total_set_latency + latency;
        };
        m_bytes = r.m_bytes + bytes;
        m_ops = r.m_ops + 1;
        m_latency = r.m_latency + latency;
        m_set_latency_map = counted_at (bucket latency) r.m_set_latency_map;
      }

  -- run_stats::update_wait_op
  unfoldable pub update_wait_op : ℕ → ℕ → RunStats → RunStats
  unfolding roll_cur_stats
  update_wait_op ts latency s =
      let r = roll_cur_stats ts s in
      record r {
        m_cur_stats = record r.m_cur_stats {
          m_ops_wait = r.m_cur_stats.m_ops_wait + 1;
          m_total_wait_latency = r.m_cur_stats.m_total_wait_latency + latency;
        };
        m_ops = r.m_ops + 1;
        m_latency = r.m_latency + latency;
        m_wait_latency_map = counted_at (bucket latency) r.m_wait_latency_map;
      }

-- run_stats::get_duration, get_total_bytes, get_total_ops and get_total_latency
abbrev pub get_duration : RunStats → ℕ
get_duration s = s.m_cur_stats.m_second
