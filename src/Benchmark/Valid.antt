-- ===== src/Benchmark/Valid.antt =====
-- The options that config_parse_args accepts.
use memtier_skewsyn.Prelude.{
  ℕ, ◌%◌, ◌^◌, ◌<◌, ◌≡◌, refl, ◌⊎◌, Bool, true, false, not, List, [], ◌∷◌, Option, none, some,
  Bytes, arith,
}
use memtier_skewsyn.CLib.{strtoul, minus_one, int_lt, u32_mod, to_u32}
use memtier_skewsyn.Config.{ConfigRange, config_range, range_is_defined}
use memtier_skewsyn.Benchmark.{
  BenchmarkConfig, Opt, o_help, o_version, o_blocking, o_debug, o_show_config, o_hide_histogram,
  o_distinct_client_seed, o_random_data, o_data_verify, o_verify_only, o_generate_keys, o_no_expiry,
  o_cluster_mode, o_skew_level, o_server_threads, o_config_file, o_ir_distribution, o_log_dir,
  o_videos, o_video_path, o_log_qps_file, o_log_latency_file, o_server, o_unix_socket, o_port,
  o_protocol, o_out_file, o_client_stats, o_run_count, o_requests, o_clients, o_threads,
  o_test_time, o_ratio, o_pipeline, o_data_size, o_data_offset, o_data_size_range, o_data_size_list,
  o_expiry_range, o_data_size_pattern, o_data_import, o_key_prefix, o_key_minimum, o_key_maximum,
  o_key_stddev, o_key_median, o_key_pattern, o_reconnect_interval, o_multi_key_get, o_authenticate,
  o_select_db, o_wait_ratio, o_num_slaves, o_wait_timeout, o_json_out_file, o_randomize,
}
use memtier_skewsyn.Benchmark.Args.{
  Parsed, go_on, refused, exits, refuse_if, one_of, protocols, distributions, key_pattern_fits,
  size_pattern_fits, parse_workload, parse_server, parse_test, parse_object, number,
}
use memtier_skewsyn.Benchmark.Parse.{parse_keys, parse_option, parse_options}

abbrev pub Fits : (Bytes → Bool) → Option Bytes → Type 0
Fits test none = Unit
Fits test (some s) = test s ≡ true

-- The fields that are read later, so that an option that sets another one keeps the record.
pub record Fields (port requests clients threads test_time : ℕ)
    (protocol ir_distribution key_pattern data_size_pattern : Option Bytes)
    (verify_only data_verify : Bool) (data_size_range : ConfigRange) : Type 0 where
  pub port_fits : port < 2 ^ 16
  pub requests_fit : requests < u32_mod
  pub clients_fit : clients < u32_mod
  pub threads_fit : threads < u32_mod
  pub protocol_known : Fits (one_of protocols) protocol
  pub distribution_known : Fits (one_of distributions) ir_distribution
  pub key_pattern_fit : Fits key_pattern_fits key_pattern
  pub size_pattern_fit : Fits size_pattern_fits data_size_pattern
  pub verify_implied : verify_only ≡ true → data_verify ≡ true
  pub exclusive : (requests ≡ 0) ⊎ ((test_time ≡ 0) ⊎ (requests ≡ minus_one))
  pub range_positive :
      range_is_defined data_size_range ≡ true → int_lt data_size_range.min 1 ≡ false

abbrev pub IsValid : BenchmarkConfig → Type 0
IsValid c =
    Fields c.port c.requests c.clients c.threads c.test_time c.protocol c.ir_distribution
      c.key_pattern c.data_size_pattern c.verify_only c.data_verify c.data_size_range

abbrev pub Accepts : (BenchmarkConfig → Type 0) → Parsed → Type 0
Accepts P (go_on c) = P c
Accepts P refused = Unit
Accepts P exits = Unit

refuse_if-Accepts :
    (P : BenchmarkConfig → Type 0)
    → (bad : Bool) (c : BenchmarkConfig) → (bad ≡ false → P c)
    → Accepts P (refuse_if bad c)
refuse_if-Accepts P true c h = tt
refuse_if-Accepts P false c h = h refl

u32_small : (n : ℕ) → to_u32 n < u32_mod
u32_small n = omega arith

of_refuted : (b : Bool) → not b ≡ false → b ≡ true
of_refuted true h = refl
of_refuted false h = ground arith

parse_workload-IsValid :
    (o : Opt) (c : BenchmarkConfig) → IsValid c → Accepts IsValid (parse_workload o c)
parse_workload-IsValid (o_skew_level optarg) c v = refuse_if-Accepts IsValid _ _ λ _. v
parse_workload-IsValid (o_server_threads optarg) c v = refuse_if-Accepts IsValid _ _ λ _. v
parse_workload-IsValid (o_config_file optarg) c v = v
parse_workload-IsValid (o_ir_distribution optarg) c v =
    refuse_if-Accepts IsValid _ (record c { ir_distribution = some optarg }) ground arith
parse_workload-IsValid (o_log_dir optarg) c v = v
parse_workload-IsValid (o_videos optarg) c v = refuse_if-Accepts IsValid _ _ λ _. v
parse_workload-IsValid (o_video_path optarg) c v = v
parse_workload-IsValid (o_log_qps_file optarg) c v = v
parse_workload-IsValid (o_log_latency_file optarg) c v = v
parse_workload-IsValid _ c v = tt

parse_server-IsValid :
    (o : Opt) (c : BenchmarkConfig) → IsValid c → Accepts IsValid (parse_server o c)
parse_server-IsValid (o_server optarg) c v = v
parse_server-IsValid (o_unix_socket optarg) c v = v
parse_server-IsValid (o_port optarg) c v =
    refuse_if-Accepts IsValid _ (record c { port = (strtoul optarg).0 % 2 ^ 16 }) ground arith
parse_server-IsValid (o_protocol optarg) c v =
    refuse_if-Accepts IsValid _ (record c { protocol = some optarg }) ground arith
parse_server-IsValid (o_out_file optarg) c v = v
parse_server-IsValid (o_client_stats optarg) c v = v
parse_server-IsValid (o_run_count optarg) c v = refuse_if-Accepts IsValid _ _ λ _. v
parse_server-IsValid o_debug c v = v
parse_server-IsValid o_show_config c v = v
parse_server-IsValid o_hide_histogram c v = v
parse_server-IsValid o_distinct_client_seed c v = v
parse_server-IsValid (o_randomize drawn) c v = v
parse_server-IsValid o c v = parse_workload-IsValid o c v

parse_test-IsValid : (o : Opt) (c : BenchmarkConfig) → IsValid c → Accepts IsValid (parse_test o c)
parse_test-IsValid (o_requests optarg) c v = ground arith
parse_test-IsValid (o_clients optarg) c v =
    refuse_if-Accepts IsValid _ (record c { clients = (number optarg).0 }) ground arith
parse_test-IsValid (o_threads optarg) c v =
    refuse_if-Accepts IsValid _ (record c { threads = (number optarg).0 }) ground arith
parse_test-IsValid (o_test_time optarg) c v = ground arith
parse_test-IsValid (o_ratio optarg) c v = refuse_if-Accepts IsValid _ _ λ _. v
parse_test-IsValid (o_pipeline optarg) c v = refuse_if-Accepts IsValid _ _ λ _. v
parse_test-IsValid o c v = parse_server-IsValid o c v

parse_object-IsValid :
    (o : Opt) (c : BenchmarkConfig) → IsValid c → Accepts IsValid (parse_object o c)
parse_object-IsValid (o_data_size optarg) c v = refuse_if-Accepts IsValid _ _ λ _. v
parse_object-IsValid o_random_data c v = v
parse_object-IsValid (o_data_offset optarg) c v = refuse_if-Accepts IsValid _ _ λ _. v
parse_object-IsValid (o_data_size_range optarg) c v =
    refuse_if-Accepts IsValid _ (record c { data_size_range = config_range optarg }) ground arith
parse_object-IsValid (o_data_size_list optarg) c v = refuse_if-Accepts IsValid _ _ λ _. v
parse_object-IsValid (o_expiry_range optarg) c v = refuse_if-Accepts IsValid _ _ λ _. v
parse_object-IsValid (o_data_size_pattern optarg) c v =
    refuse_if-Accepts IsValid _ (record c { data_size_pattern = some optarg }) ground arith
parse_object-IsValid (o_data_import optarg) c v = v
parse_object-IsValid o_data_verify c v = ground arith
parse_object-IsValid o_verify_only c v = ground arith
parse_object-IsValid o c v = parse_test-IsValid o c v

-- What is said of an option carries over to what follows it.
pub then-Accepts :
    (P Q : BenchmarkConfig → Type 0)
    → (next : BenchmarkConfig → Parsed) (r : Parsed) → Accepts P r
    → ((c : BenchmarkConfig) → P c → Accepts Q (next c))
    → Accepts Q (elim r [ go_on c ↦ next c | refused ↦ refused | exits ↦ exits ])
then-Accepts P Q next (go_on c) h k = k c h
then-Accepts P Q next refused h k = tt
then-Accepts P Q next exits h k = tt

module _ (strtof : Bytes → ℕ × Bytes) where
  parse_keys-IsValid :
      (o : Opt) (c : BenchmarkConfig) → IsValid c → Accepts IsValid (parse_keys strtof o c)
  parse_keys-IsValid (o_key_prefix optarg) c v = v
  parse_keys-IsValid (o_key_minimum optarg) c v = refuse_if-Accepts IsValid _ _ λ _. v
  parse_keys-IsValid (o_key_maximum optarg) c v = refuse_if-Accepts IsValid _ _ λ _. v
  parse_keys-IsValid (o_key_stddev optarg) c v = refuse_if-Accepts IsValid _ _ λ _. v
  parse_keys-IsValid (o_key_median optarg) c v = refuse_if-Accepts IsValid _ _ λ _. v
  parse_keys-IsValid (o_key_pattern optarg) c v =
      refuse_if-Accepts IsValid _ (record c { key_pattern = some optarg }) ground arith
  parse_keys-IsValid (o_wait_ratio optarg) c v = refuse_if-Accepts IsValid _ _ λ _. v
  parse_keys-IsValid (o_num_slaves optarg) c v = refuse_if-Accepts IsValid _ _ λ _. v
  parse_keys-IsValid (o_wait_timeout optarg) c v = refuse_if-Accepts IsValid _ _ λ _. v
  parse_keys-IsValid (o_json_out_file optarg) c v = v
  parse_keys-IsValid o_cluster_mode c v = v
  parse_keys-IsValid (o_reconnect_interval optarg) c v = refuse_if-Accepts IsValid _ _ λ _. v
  parse_keys-IsValid (o_multi_key_get optarg) c v = refuse_if-Accepts IsValid _ _ λ _. v
  parse_keys-IsValid (o_authenticate optarg) c v = v
  parse_keys-IsValid (o_select_db optarg) c v = refuse_if-Accepts IsValid _ _ λ _. v
  parse_keys-IsValid o_generate_keys c v = v
  parse_keys-IsValid o_no_expiry c v = v
  parse_keys-IsValid o c v = parse_object-IsValid o c v

  parse_option-IsValid :
      (o : Opt) (c : BenchmarkConfig) → IsValid c → Accepts IsValid (parse_option strtof o c)
  unfolding parse_option
  parse_option-IsValid o_help c v = tt
  parse_option-IsValid o_version c v = tt
  parse_option-IsValid o_blocking c v = v
  parse_option-IsValid o c v = parse_keys-IsValid o c v

  pub parse_options-IsValid :
      (os : List Opt) (c : BenchmarkConfig)
      → IsValid c
      → Accepts IsValid (parse_options strtof os c)
  unfolding parse_options
  parse_options-IsValid [] c v = v
  parse_options-IsValid (o ∷ os) c v =
      then-Accepts IsValid IsValid (parse_options strtof os) (parse_option strtof o c)
        (parse_option-IsValid o c v) λ c' w. parse_options-IsValid os c' w
