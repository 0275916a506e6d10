-- ===== src/Benchmark/Master.antt =====
-- parse_config_file and start_master of memtier_benchmark.cpp: the schedule of a synthetic workload.
use memtier_skewsyn.Prelude.{
  ◌>>=◌, ℕ, zero, suc, ◌+◌, ◌-◌, ◌*◌, ◌%◌, ◌≡◌, not, ◌++◌, List, [], ◌∷◌, Option, none, some, Bytes,
  ltb, ◌==◌, if◌then◌else◌, length, replicate, get_elem?,
}
use memtier_skewsyn.CLib.{
  strtoul, strtol, skip_space, read_sign, is_digit, first, to_u32, u64_mod, int_lt,
}
use memtier_skewsyn.Benchmark.{BenchmarkConfig}

-- The doubles: %lf of sscanf, and the rates of the clients of the first server thread and of the others,
-- from the goal, the skew, the number of server threads and that of clients.
pub record Floats : Type 1 where
  pub D : Type 0
  pub zero_double : D
  pub scan_lf : Bytes → Option (D × Bytes)
  pub first_qps : D → D → ℕ → ℕ → D
  pub other_qps : D → D → ℕ → ℕ → D

-- An integer directive of sscanf that converts as `convert` does
abbrev scan_with : (Bytes → ℕ × Bytes) → Bytes → Option (ℕ × Bytes)
scan_with convert s =
    let (minus, digits) = read_sign (skip_space s) in
    if is_digit (first digits) then some (convert s) else none

-- "%zu %d": what is not there leaves its variable as it was.
unfoldable pub scan_header : Bytes → ℕ → ℕ × ℕ
scan_header buffer server_threads = elim (scan_with strtoul buffer) [
  | none ↦ (0, server_threads)
  | some (n, rest) ↦ elim (scan_with strtol rest) [
    | none ↦ (n, server_threads)
    | some (t, _) ↦ (n, to_u32 t)
  ]
]

module _ (fl : Floats) where
  -- struct Interval
  pub record Interval : Type 0 where
    pub time_to_run : ℕ
    pub requests_per_second : fl.D
    pub skew_factor : fl.D

  -- "%ld %lf %lf"; `none` leaves a member as new[] left it.
  unfoldable pub scan_interval : Bytes → Option Interval
  scan_interval buffer = do
    t ← scan_with strtol buffer
    r ← fl.scan_lf t.1
    s ← fl.scan_lf r.1
    some (record { time_to_run = t.0; requests_per_second = r.0; skew_factor = s.0 })

  -- The globals intervals, currGoalQPS, currentSkew and qpsPerClient, with cfg->server_threads
  pub record Schedule : Type 0 where
    pub intervals : List Interval
    pub server_threads : ℕ
    pub goal : fl.D
    pub skew : fl.D
    pub qps_per_client : List fl.D

  -- How parse_config_file ends: without a file, with -1, with members or intervals that no line has set, or
  -- with a schedule
  pub data ConfigFile : Type 0 where
    no_file : List fl.D → ConfigFile
    unreadable unset : ConfigFile
    scheduled : Schedule → ConfigFile

  -- The lines of the intervals; fgets fails where there is none left.
  abbrev pub read_intervals :
      ℕ → List Bytes → List Interval → (List Interval → ConfigFile) → ConfigFile
  read_intervals zero buffers found next = next found
  read_intervals (suc n) [] found next = unreadable
  read_intervals (suc n) (b ∷ buffers) found next = elim (scan_interval b) [
    | none ↦ unset
    | some i ↦ read_intervals n buffers (found ++ (i ∷ [])) next
  ]

  -- How often a loop runs for an int i from 1 below n
  abbrev pub others : ℕ → ℕ
  others n = if int_lt 1 n then n - 1 else 0

  abbrev pub first_schedule : ℕ → ℕ → List Interval → ConfigFile
  first_schedule server_threads clients [] = unset
  first_schedule server_threads clients (i ∷ is) =
      let goal = i.requests_per_second in
      let skew = i.skew_factor in
      scheduled (record {
        intervals = i ∷ is;
        server_threads = server_threads;
        goal = goal;
        skew = skew;
        qps_per_client =
            fl.first_qps goal skew server_threads clients
            ∷ replicate (others server_threads) (fl.other_qps goal skew server_threads clients);
      })

  -- What is read from a file of these lines, each shorter than the buffer
  unfoldable pub parse_lines : List Bytes → BenchmarkConfig → ConfigFile
  unfolding scan_header scan_interval
  parse_lines [] c = unreadable
  parse_lines (header ∷ buffers) c =
      let (n, server_threads) = scan_header header c.server_threads in
      read_intervals n buffers [] (first_schedule server_threads (to_u32 (c.threads * c.clients)))

  -- parse_config_file. A file is `none` if it does not open.
  unfoldable pub parse_config_file : Option (List Bytes) → BenchmarkConfig → ConfigFile
  unfolding parse_lines
  parse_config_file file c = elim c.config_file [
    | none ↦
        no_file
          (replicate (if int_lt 0 c.server_threads then c.server_threads else 0) fl.zero_double)
    | some _ ↦ elim file [ none ↦ unreadable | some lines ↦ parse_lines lines c ]
  ]

  -- start_master: the schedule, currentInterval and nextIntervalTime
  pub record Master : Type 0 where
    pub schedule : Schedule
    pub current_interval : ℕ
    pub next_interval_time : ℕ

  -- How a round of the loop ends
  pub data Round : Type 0 where
    goes_on : Master → Round
    breaks : Master → Round
    outside : Round

  -- qpsPerClient[0], and the others in order; `none` is an access outside of the vector.
  abbrev pub fill : ℕ → fl.D → List fl.D → Option (List fl.D)
  fill zero q qs = some qs
  fill (suc n) q [] = none
  fill (suc n) q (_ ∷ qs) = elim (fill n q qs) [ none ↦ none | some rest ↦ some (q ∷ rest) ]

  abbrev pub set_qps : ℕ → ℕ → Schedule → Option (List fl.D)
  set_qps clients n s = elim s.qps_per_client [
    | [] ↦ none
    | _ ∷ qs ↦ elim (fill (others n) (fl.other_qps s.goal s.skew n clients) qs) [
      | none ↦ none
      | some rest ↦ some (fl.first_qps s.goal s.skew n clients ∷ rest)
    ]
  ]

  -- Cycles::fromNanoseconds of PerfUtils is `cycles`.
  module _ (cycles : ℕ → ℕ) (clients : ℕ) where
    -- One round, at the clock `now`
    unfoldable pub master_round : ℕ → Master → Round
    master_round now m =
        if not (ltb m.next_interval_time now)
        then goes_on m
        else let m1 = record m { current_interval = suc m.current_interval } in
          if suc m.current_interval == length m.schedule.intervals
          then breaks m1
          else elim (get_elem? m.schedule.intervals (suc m.current_interval)) [
            | none ↦ outside
            | some i ↦
                let s = record m.schedule { goal = i.requests_per_second; skew = i.skew_factor } in
                elim (set_qps clients s.server_threads s) [
                  | none ↦ outside
                  | some qps ↦ goes_on (record {
                    schedule = record s { qps_per_client = qps };
                    current_interval = suc m.current_interval;
                    next_interval_time = (now + cycles i.time_to_run) % u64_mod;
                  })
                ]
          ]

    -- The clocks that the rounds read, as a relation of the states before and behind them
    pub data Runs : Master → List ℕ → Master → Type 0 where
      starts : (m : Master) → Runs m [] m
      passes :
          (m n p : Master) (clocks : List ℕ) (now : ℕ)
          → Runs m clocks n
          → master_round now n ≡ goes_on p
          → Runs m (now ∷ clocks) p

  -- The state at the clock `now`, in front of the loop
  abbrev pub first_state : (ℕ → ℕ) → ℕ → Schedule → Interval → Master
  first_state cycles now s i = record {
    schedule = s;
    current_interval = 0;
    next_interval_time = (now + cycles i.time_to_run) % u64_mod;
  }
