-- ===== src/Client/Responses.antt =====
-- The arrays of latencies of client.cpp, and client::handle_response, finished and set_end_time.
pub mod Counts
use memtier_skewsyn.Prelude.{
  ℕ, ◌+◌, ◌-◌, ◌%◌, Bool, true, false, not, ◌&&◌, ◌||◌, List, [], ◌∷◌, Option, none, some, ltb, leb,
  ◌==◌, if◌then◌else◌, length, set,
}
use memtier_skewsyn.CLib.{u32_mod, to_u32}
use memtier_skewsyn.Protocol.Base.{ProtocolResponse}
use memtier_skewsyn.ShardConnection.{
  Request, RequestType, rt_unknown, rt_set, rt_get, rt_wait, rt_auth, rt_select_db,
  rt_cluster_slots,
}
use memtier_skewsyn.Client.Stats.{
  RunStats, ts_diff, set_end_time, update_get_op, update_set_op, update_wait_op, get_duration,
}

-- getLatencies with getArrayIndex, or setLatencies with setArrayIndex
pub record Latencies : Type 0 where
  pub latencies : Option (List ℕ)
  pub array_index : ℕ

-- The index was taken; the program has ended; or the write is past the end of the array.
pub data Recorded : Type 0 where
  recorded : Latencies → Recorded
  death : Recorded
  overrun : Recorded

-- `max_entries` is MAX_ENTRIES, which run_benchmark sets before it allocates the arrays.
module _ (max_entries : ℕ) where
  abbrev record_at : List ℕ → ℕ → ℕ → Recorded
  record_at array latency index =
      if ltb max_entries index
      then death
      else if ltb index (length array)
      then recorded (record {
        latencies = some (set array index latency);
        array_index = (index + 1) % u32_mod;
      })
      else overrun

  -- The first lines of update_get_op and of update_set_op
  abbrev recorded_in : Option (List ℕ) → ℕ → Latencies → Recorded
  recorded_in none latency l = recorded l
  recorded_in (some array) latency l = record_at array latency l.array_index

  unfoldable pub record_latency : ℕ → Latencies → Recorded
  record_latency latency l = recorded_in l.latencies latency l

-- The statistics of a client, and the arrays that all share
pub record Counters : Type 0 where
  pub m_stats : RunStats
  pub get_latencies : Latencies
  pub set_latencies : Latencies

module _ (max_entries : ℕ) (bucket : ℕ → ℕ) where
  abbrev get_counted : ℕ → Request → ProtocolResponse → Counters → Recorded → Option Counters
  get_counted timestamp request r c (recorded l) = some (record c {
    get_latencies = l;
    m_stats =
        update_get_op bucket timestamp ((request.m_size + r.m_total_len) % u32_mod)
          (to_u32 (ts_diff request.m_sent_time timestamp)) r.m_hits
          ((request.m_keys + u32_mod - r.m_hits) % u32_mod) c.m_stats;
  })
  get_counted timestamp request r c death = none
  get_counted timestamp request r c overrun = none

  abbrev set_counted : ℕ → Request → ProtocolResponse → Counters → Recorded → Option Counters
  set_counted timestamp request r c (recorded l) = some (record c {
    set_latencies = l;
    m_stats =
        update_set_op bucket timestamp ((request.m_size + r.m_total_len) % u32_mod)
          (to_u32 (ts_diff request.m_sent_time timestamp)) c.m_stats;
  })
  set_counted timestamp request r c death = none
  set_counted timestamp request r c overrun = none

  -- client::handle_response by the type of the request. The end of the program, a refused assertion and a write past
  -- an array are `none`.
  abbrev handle_type : RequestType → ℕ → Request → ProtocolResponse → Counters → Option Counters
  handle_type rt_get timestamp request r c =
      get_counted timestamp request r c (
        record_latency max_entries (to_u32 (ts_diff request.m_sent_time timestamp)) c.get_latencies)
  handle_type rt_set timestamp request r c =
      set_counted timestamp request r c (
        record_latency max_entries (to_u32 (ts_diff request.m_sent_time timestamp)) c.set_latencies)
  handle_type rt_wait timestamp request r c = some (record c {
    m_stats =
        update_wait_op bucket timestamp (to_u32 (ts_diff request.m_sent_time timestamp)) c.m_stats;
  })
  handle_type rt_unknown timestamp request r c = none
  handle_type rt_auth timestamp request r c = none
  handle_type rt_select_db timestamp request r c = none
  handle_type rt_cluster_slots timestamp request r c = none

  unfoldable pub handle_response : ℕ → Request → ProtocolResponse → Counters → Option Counters
  handle_response timestamp request r c = handle_type request.m_type timestamp request r c

-- client::set_end_time; the Boolean is m_end_set.
unfoldable pub set_end_once : ℕ → Bool → RunStats → Bool × RunStats
unfolding set_end_time
set_end_once now m_end_set s = if m_end_set then (true, s) else (true, set_end_time now s)

-- What client::finished reads, but the statistics
pub record Limits : Type 0 where
  pub master_finished : Bool
  pub config_file : Bool
  pub requests : ℕ
  pub test_time : ℕ

-- client::finished
unfoldable pub finished : Limits → ℕ → RunStats → Bool
finished l m_reqs_processed s =
    if not l.master_finished
    then false
    else if l.config_file
    then true
    else (ltb 0 l.requests && leb l.requests m_reqs_processed)
      || (ltb 0 l.test_time && leb l.test_time (get_duration s))
