-- ===== src/Benchmark/Args.antt =====
-- The switch of config_parse_args in memtier_benchmark.cpp, one function for each group of its cases.
use memtier_skewsyn.Prelude.{
  ℕ, ◌+◌, ◌%◌, ◌^◌, Bool, true, false, not, ◌&&◌, ◌||◌, List, [], ◌∷◌, some, Bytes, codes, bytes_eq,
  ltb, ◌==◌, if◌then◌else◌, length, get_or,
}
use memtier_skewsyn.CLib.{strtoul, first, to_u32, int_lt, minus_one}
use memtier_skewsyn.Config.{
  config_range, range_is_defined, config_ratio, ratio_is_defined, weight_list, assign,
  list_is_defined,
}
use memtier_skewsyn.Benchmark.{
  BenchmarkConfig, Opt, o_debug, o_show_config, o_hide_histogram, o_distinct_client_seed,
  o_random_data, o_data_verify, o_verify_only, o_skew_level, o_server_threads, o_config_file,
  o_ir_distribution, o_log_dir, o_videos, o_video_path, o_log_qps_file, o_log_latency_file,
  o_server, o_unix_socket, o_port, o_protocol, o_out_file, o_client_stats, o_run_count, o_requests,
  o_clients, o_threads, o_test_time, o_ratio, o_pipeline, o_data_size, o_data_offset,
  o_data_size_range, o_data_size_list, o_expiry_range, o_data_size_pattern, o_data_import,
  o_randomize,
}

-- How config_parse_args goes on: with the configuration so far, by `return -1`, or by exit(0).
pub data Parsed : Type 0 where
  go_on : BenchmarkConfig → Parsed
  refused exits : Parsed

abbrev pub refuse_if : Bool → BenchmarkConfig → Parsed
refuse_if bad c = if bad then refused else go_on c

-- *endptr != '\0'
abbrev pub trailing : Bytes → Bool
trailing endptr = not (first endptr == 0)

-- (unsigned int) strtoul, or the int that is the same pattern, and the test of endptr
abbrev pub number : Bytes → ℕ × Bool
number optarg = let (n, endptr) = strtoul optarg in (to_u32 n, trailing endptr)

-- strtoull, on 64 bits
abbrev pub long_number : Bytes → ℕ × Bool
long_number optarg = let (n, endptr) = strtoul optarg in (n, trailing endptr)

-- Options that are read as a number, and refused when that is 0
abbrev pub positive : Bytes → (ℕ → BenchmarkConfig) → Parsed
positive optarg set = let (n, bad) = number optarg in refuse_if (n == 0 || bad) (set n)

abbrev pub next_flag : ℕ → ℕ
next_flag n = to_u32 (n + 1)

abbrev pub one_of : List Bytes → Bytes → Bool
one_of [] s = false
one_of (name ∷ names) s = bytes_eq s name || one_of names s

abbrev pub protocols : List Bytes
protocols = codes "memcache_text" ∷ codes "memcache_binary" ∷ codes "redis" ∷ []

abbrev pub distributions : List Bytes
distributions = codes "NONE" ∷ codes "POISSON" ∷ codes "UNIFORM" ∷ []

abbrev key_letter : ℕ → Bool
key_letter c = c == b'R' || c == b'S' || c == b'G' || c == b'P'

abbrev pub key_pattern_fits : Bytes → Bool
key_pattern_fits s =
    length s == 3 && get_or s 1 0 == b':' && key_letter (first s) && key_letter (get_or s 2 0)

abbrev pub size_pattern_fits : Bytes → Bool
size_pattern_fits s = length s == 1 && (first s == b'R' || first s == b'S')

-- The options of the skewed and synthetic workloads
abbrev pub parse_workload : Opt → BenchmarkConfig → Parsed
parse_workload (o_skew_level optarg) c =
    let (n, bad) = number optarg in refuse_if (int_lt n 1 || bad) (record c { skew_level = n })
parse_workload (o_server_threads optarg) c =
    let (n, bad) = number optarg in refuse_if (int_lt n 1 || bad) (record c { server_threads = n })
parse_workload (o_config_file optarg) c = go_on (record c { config_file = some optarg })
parse_workload (o_ir_distribution optarg) c =
    refuse_if (not (one_of distributions optarg)) (record c { ir_distribution = some optarg })
parse_workload (o_log_dir optarg) c = go_on (record c { log_dir = some optarg })
parse_workload (o_videos optarg) c =
    let (n, bad) = number optarg in refuse_if bad (record c { num_videos = n })
parse_workload (o_video_path optarg) c = go_on (record c { video_dir = some optarg })
parse_workload (o_log_qps_file optarg) c = go_on (record c { log_qps_file = some optarg })
parse_workload (o_log_latency_file optarg) c = go_on (record c { log_latency_file = some optarg })
parse_workload _ c = refused

-- The options of the server and of the files written; the rest is handed on.
abbrev pub parse_server : Opt → BenchmarkConfig → Parsed
parse_server (o_server optarg) c = go_on (record c { server = some optarg })
parse_server (o_unix_socket optarg) c = go_on (record c { unix_socket = some optarg })
parse_server (o_port optarg) c =
    let (n, endptr) = strtoul optarg in
    let port = n % 2 ^ 16 in
    refuse_if (port == 0 || ltb 65535 port || trailing endptr) (record c { port = port })
parse_server (o_protocol optarg) c =
    refuse_if (not (one_of protocols optarg)) (record c { protocol = some optarg })
parse_server (o_out_file optarg) c = go_on (record c { out_file = some optarg })
parse_server (o_client_stats optarg) c = go_on (record c { client_stats = some optarg })
parse_server (o_run_count optarg) c = positive optarg λ n. record c { run_count = n }
parse_server o_debug c = go_on (record c { debug = next_flag c.debug })
parse_server o_show_config c = go_on (record c { show_config = next_flag c.show_config })
parse_server o_hide_histogram c = go_on (record c { hide_histogram = next_flag c.hide_histogram })
parse_server o_distinct_client_seed c =
    go_on (record c { distinct_client_seed = next_flag c.distinct_client_seed })
parse_server (o_randomize drawn) c = go_on (record c { randomize = to_u32 drawn })
parse_server o c = parse_workload o c

-- The options of the test
abbrev pub parse_test : Opt → BenchmarkConfig → Parsed
parse_test (o_requests optarg) c =
    if bytes_eq optarg (codes "allkeys")
    then go_on (record c { requests = minus_one })
    else let (n, bad) = number optarg in
      if n == 0 || bad
      then refused
      else refuse_if (not (c.test_time == 0)) (record c { requests = n })
parse_test (o_clients optarg) c = positive optarg λ n. record c { clients = n }
parse_test (o_threads optarg) c = positive optarg λ n. record c { threads = n }
parse_test (o_test_time optarg) c =
    let (n, bad) = number optarg in
    if n == 0 || bad
    then refused
    else refuse_if (not (c.requests == 0)) (record c { test_time = n })
parse_test (o_ratio optarg) c =
    let ratio = config_ratio optarg in
    refuse_if (not (ratio_is_defined ratio)) (record c { ratio = ratio })
parse_test (o_pipeline optarg) c = positive optarg λ n. record c { pipeline = n }
parse_test o c = parse_server o c

-- The options of objects and imported data
abbrev pub parse_object : Opt → BenchmarkConfig → Parsed
parse_object (o_data_size optarg) c = positive optarg λ n. record c { data_size = n }
parse_object o_random_data c = go_on (record c { random_data = true })
parse_object (o_data_offset optarg) c =
    let (n, bad) = number optarg in refuse_if bad (record c { data_offset = n })
parse_object (o_data_size_range optarg) c =
    let range = config_range optarg in
    refuse_if (not (range_is_defined range) || int_lt range.min 1)
      (record c { data_size_range = range })
parse_object (o_data_size_list optarg) c =
    let l = assign c.data_size_list (weight_list optarg) in
    refuse_if (not (list_is_defined l)) (record c { data_size_list = l })
parse_object (o_expiry_range optarg) c =
    let range = config_range optarg in
    refuse_if (not (range_is_defined range)) (record c { expiry_range = range })
parse_object (o_data_size_pattern optarg) c =
    refuse_if (not (size_pattern_fits optarg)) (record c { data_size_pattern = some optarg })
parse_object (o_data_import optarg) c = go_on (record c { data_import = some optarg })
parse_object o_data_verify c = go_on (record c { data_verify = true })
parse_object o_verify_only c = go_on (record c { verify_only = true; data_verify = true })
parse_object o c = parse_test o c
