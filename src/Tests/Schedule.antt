-- ===== src/Tests/Schedule.antt =====
-- A schedule of two intervals, and four rounds of its master thread. Whole numbers stand for the doubles.
use memtier_skewsyn.Prelude.{ℕ, ◌*◌, ◌≡◌, refl, List, [], ◌∷◌, Option, some, arith, Bytes, codes}
use memtier_skewsyn.CLib.{strtoul, strtol, scan_u}
use memtier_skewsyn.Benchmark.{BenchmarkConfig, zero_config}
use memtier_skewsyn.Benchmark.Master.{
  Floats, Interval, Schedule, scheduled, parse_config_file, Master, breaks, master_round, Runs,
  starts, passes, first_state, scan_header, scan_interval,
}
use memtier_skewsyn.Benchmark.Paced.{IsPaced, start_master-IsPaced}

abbrev floats : Floats
floats = record {
  D = ℕ;
  zero_double = 0;
  scan_lf = scan_u;
  first_qps = λ goal skew threads clients. goal * skew;
  other_qps = λ goal skew threads clients. goal;
}

abbrev cycles : ℕ → ℕ
cycles n = n

abbrev config : BenchmarkConfig
config = record zero_config { config_file = some (codes "skewed.cfg"); threads = 1; clients = 2 }

abbrev file : Option (List Bytes)
file = some (codes "2 3" ∷ codes "5 100 2" ∷ codes "7 200 1" ∷ [])

abbrev interval : ℕ → ℕ → ℕ → Interval floats
interval t r s = record { time_to_run = t; requests_per_second = r; skew_factor = s }

abbrev schedule : Schedule floats
schedule = record {
  intervals = interval 5 100 2 ∷ interval 7 200 1 ∷ [];
  server_threads = 3;
  goal = 100;
  skew = 2;
  qps_per_client = 200 ∷ 100 ∷ 100 ∷ [];
}

file_read : parse_config_file floats file config ≡ scheduled schedule
unfolding parse_config_file scan_header scan_interval scan_u strtoul strtol
file_read = refl

abbrev begun : Master floats
begun = first_state floats cycles 1 schedule (interval 5 100 2)

abbrev moved_on : Master floats
moved_on = record {
  schedule = record schedule { goal = 200; skew = 1; qps_per_client = 200 ∷ 200 ∷ 200 ∷ [] };
  current_interval = 1;
  next_interval_time = 15;
}

rounds : Runs floats cycles 2 begun (8 ∷ 3 ∷ []) moved_on
unfolding master_round
rounds = passes _ begun _ _ 8 (passes _ begun _ _ 3 (starts begun) refl) refl

last_round :
    master_round floats cycles 2 16 moved_on ≡ breaks (record moved_on { current_interval = 2 })
unfolding master_round
last_round = refl

start_master-IsPaced_example :
    IsPaced floats cycles 2 1 schedule.intervals 16 (master_round floats cycles 2 16 moved_on)
start_master-IsPaced_example =
    start_master-IsPaced floats cycles 2 1 file config schedule (interval 5 100 2) moved_on 16
      (8 ∷ 3 ∷ []) file_read refl (omega arith, (omega arith, tt)) (omega arith)
      (omega arith, (omega arith, (omega arith, tt))) rounds
