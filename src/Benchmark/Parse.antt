-- ===== src/Benchmark/Parse.antt =====
-- config_parse_args of memtier_benchmark.cpp: its loop over the options, the rest of its switch, and what
-- follows the loop.
use memtier_skewsyn.Prelude.{
  ℕ, Bool, true, false, not, ◌&&◌, ◌||◌, List, [], ◌∷◌, Option, none, some, Bytes, codes, bytes_eq,
  ltb, ◌==◌, if◌then◌else◌,
}
use memtier_skewsyn.CLib.{to_u32, int_lt}
use memtier_skewsyn.Config.{config_range, range_is_defined, config_ratio, ratio_is_defined}
use memtier_skewsyn.Benchmark.{
  BenchmarkConfig, DistributionType, dist_none, dist_poisson, dist_uniform, is_named, is_set, Opt,
  o_help, o_version, o_blocking, o_cluster_mode, o_key_prefix, o_reconnect_interval,
  o_multi_key_get, o_authenticate, o_select_db, o_generate_keys, o_no_expiry, o_key_minimum,
  o_key_maximum, o_key_stddev, o_key_median, o_key_pattern, o_wait_ratio, o_num_slaves,
  o_wait_timeout, o_json_out_file,
}
use memtier_skewsyn.Benchmark.Args.{
  Parsed, go_on, refused, exits, refuse_if, trailing, number, positive, long_number,
  key_pattern_fits, parse_object,
}

-- strtof is the one of the C library, its result converted to unsigned int.
module _ (strtof : Bytes → ℕ × Bytes) where
  -- The options of keys, WAIT and what stands among them
  abbrev pub parse_keys : Opt → BenchmarkConfig → Parsed
  parse_keys (o_key_prefix optarg) c = go_on (record c { key_prefix = some optarg })
  parse_keys (o_key_minimum optarg) c =
      let (n, bad) = long_number optarg in refuse_if (ltb n 1 || bad) (record c { key_minimum = n })
  parse_keys (o_key_maximum optarg) c =
      let (n, bad) = long_number optarg in refuse_if (ltb n 1 || bad) (record c { key_maximum = n })
  parse_keys (o_key_stddev optarg) c =
      let (n, endptr) = strtof optarg in
      refuse_if (to_u32 n == 0 || trailing endptr) (record c { key_stddev = to_u32 n })
  parse_keys (o_key_median optarg) c =
      let (n, endptr) = strtof optarg in
      refuse_if (to_u32 n == 0 || trailing endptr) (record c { key_median = to_u32 n })
  parse_keys (o_key_pattern optarg) c =
      refuse_if (not (key_pattern_fits optarg)) (record c { key_pattern = some optarg })
  parse_keys (o_wait_ratio optarg) c =
      let ratio = config_ratio optarg in
      refuse_if (not (ratio_is_defined ratio)) (record c { wait_ratio = ratio })
  parse_keys (o_num_slaves optarg) c =
      let range = config_range optarg in
      refuse_if (not (range_is_defined range)) (record c { num_slaves = range })
  parse_keys (o_wait_timeout optarg) c =
      let range = config_range optarg in
      refuse_if (not (range_is_defined range)) (record c { wait_timeout = range })
  parse_keys (o_json_out_file optarg) c = go_on (record c { json_out_file = some optarg })
  parse_keys o_cluster_mode c = go_on (record c { cluster_mode = true })
  parse_keys (o_reconnect_interval optarg) c =
      positive optarg λ n. record c { reconnect_interval = n }
  parse_keys (o_multi_key_get optarg) c =
      let (n, bad) = number optarg in
      refuse_if (not (int_lt 0 n) || bad) (record c { multi_key_get = n })
  parse_keys (o_authenticate optarg) c = go_on (record c { authenticate = some optarg })
  parse_keys (o_select_db optarg) c =
      let (n, bad) = number optarg in refuse_if (int_lt n 0 || bad) (record c { select_db = n })
  parse_keys o_generate_keys c = go_on (record c { generate_keys = true })
  parse_keys o_no_expiry c = go_on (record c { no_expiry = true })
  parse_keys o c = parse_object o c

  -- The switch
  unfoldable pub parse_option : Opt → BenchmarkConfig → Parsed
  parse_option o_help c = refused
  parse_option o_version c = exits
  parse_option o_blocking c = go_on (record c { blocking = true })
  parse_option o c = parse_keys o c

  -- The loop of getopt_long
  unfoldable pub parse_options : List Opt → BenchmarkConfig → Parsed
  parse_options [] c = go_on c
  parse_options (o ∷ os) c = elim (parse_option o c) [
    | go_on c' ↦ parse_options os c'
    | refused ↦ refused
    | exits ↦ exits
  ]

-- verify_cluster_option
unfoldable pub verify_cluster_option : BenchmarkConfig → Bool
verify_cluster_option c =
    if not (c.reconnect_interval == 0)
    then false
    else if not (c.multi_key_get == 0)
    then false
    else if ratio_is_defined c.wait_ratio
    then false
    else if is_set c.protocol && not (is_named (codes "redis") c.protocol)
    then false
    else true

-- cfg->distType, and whether the name is one of those supported
abbrev pub dist_of : Option Bytes → Option DistributionType
dist_of none = some dist_none
dist_of (some s) =
    if bytes_eq s (codes "NONE")
    then some dist_none
    else if bytes_eq s (codes "POISSON")
    then some dist_poisson
    else if bytes_eq s (codes "UNIFORM")
    then some dist_uniform
    else none

abbrev pub or_else : Option Bytes → Bytes → Option Bytes
or_else none s = some s
or_else (some t) s = some t

-- The skew level and the server threads; `none` where a skew level stands alone.
abbrev pub with_skew : BenchmarkConfig → Option BenchmarkConfig
with_skew c =
    if c.skew_level == 0
    then some (record c {
      skew_level = 1;
      server_threads = if int_lt 1 c.server_threads then c.server_threads else 1;
    })
    else if c.server_threads == 0
    then none
    else some c

abbrev pub with_logs : BenchmarkConfig → BenchmarkConfig
with_logs c = record c {
  log_dir = or_else c.log_dir (codes "./latency_throughput_log");
  log_qps_file = or_else c.log_qps_file (codes "throughput.log");
}

abbrev pub check_videos : BenchmarkConfig → Parsed
check_videos c =
    if int_lt 0 c.num_videos
    then (if not (c.num_videos == 1) then refused else refuse_if (not (is_set c.video_dir)) c)
    else go_on c

-- What follows the loop
unfoldable pub finish_args : BenchmarkConfig → Parsed
unfolding verify_cluster_option
finish_args c =
    if c.cluster_mode && not (verify_cluster_option c) then refused else elim (with_skew c) [
      | none ↦ refused
      | some c1 ↦ elim (dist_of c1.ir_distribution) [
        | none ↦ refused
        | some dist ↦ check_videos (
            with_logs (record c1 {
              master_finished = not (is_set c1.config_file) || c1.master_finished;
              dist_type = dist;
            }))
      ]
    ]

unfoldable pub config_parse_args :
    (strtof : Bytes → ℕ × Bytes) → List Opt → BenchmarkConfig → Parsed
unfolding parse_options finish_args
config_parse_args strtof os c = elim (parse_options strtof os c) [
  | go_on c' ↦ finish_args c'
  | refused ↦ refused
  | exits ↦ exits
]
