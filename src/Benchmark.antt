-- ===== src/Benchmark.antt =====
-- memtier_benchmark.cpp and memtier_benchmark.h: the main program. Here, the configuration and the options
-- of the command line.
pub mod Args
pub mod Parse
pub mod Valid
pub mod Defaults
pub mod Start
pub mod Ready
pub mod Defaulted
pub mod Safe
pub mod Runs
pub mod Latency
pub mod ConfigJson
pub mod ConfigText
pub mod Master
pub mod Rated
pub mod Paced
use memtier_skewsyn.Prelude.{
  ℕ, Bool, true, false, List, [], ◌∷◌, Option, none, some, Bytes, codes, bytes_eq,
}
use memtier_skewsyn.CLib.{first}
use memtier_skewsyn.Config.{ConfigRange, ConfigRatio, WeightList, empty_list}

-- DistributionType of generator.h
pub data DistributionType : Type 0 where
  dist_none dist_poisson dist_uniform : DistributionType

-- struct benchmark_config, without server_addr (resolved in main), next_client_idx (kept by the clients) and
-- resolve_on_connect. An int is its 32-bit pattern, a null pointer `none`. key_stddev and key_median are
-- doubles that are only ever set to an unsigned int. master_finished is a global of the program.
pub record BenchmarkConfig : Type 0 where
  pub server : Option Bytes
  pub port : ℕ
  pub unix_socket : Option Bytes
  pub protocol : Option Bytes
  pub out_file : Option Bytes
  pub client_stats : Option Bytes
  pub run_count : ℕ
  pub debug : ℕ
  pub show_config : ℕ
  pub hide_histogram : ℕ
  pub distinct_client_seed : ℕ
  pub randomize : ℕ
  pub requests : ℕ
  pub clients : ℕ
  pub threads : ℕ
  pub test_time : ℕ
  pub ratio : ConfigRatio
  pub pipeline : ℕ
  pub data_size : ℕ
  pub data_offset : ℕ
  pub random_data : Bool
  pub data_size_range : ConfigRange
  pub data_size_list : WeightList
  pub data_size_pattern : Option Bytes
  pub expiry_range : ConfigRange
  pub data_import : Option Bytes
  pub data_verify : Bool
  pub verify_only : Bool
  pub generate_keys : Bool
  pub key_prefix : Option Bytes
  pub key_minimum : ℕ
  pub key_maximum : ℕ
  pub key_stddev : ℕ
  pub key_median : ℕ
  pub key_pattern : Option Bytes
  pub reconnect_interval : ℕ
  pub multi_key_get : ℕ
  pub authenticate : Option Bytes
  pub select_db : ℕ
  pub no_expiry : Bool
  pub wait_ratio : ConfigRatio
  pub num_slaves : ConfigRange
  pub wait_timeout : ConfigRange
  pub json_out_file : Option Bytes
  pub cluster_mode : Bool
  pub blocking : Bool
  pub skew_level : ℕ
  pub server_threads : ℕ
  pub config_file : Option Bytes
  pub ir_distribution : Option Bytes
  pub dist_type : DistributionType
  pub log_dir : Option Bytes
  pub log_qps_file : Option Bytes
  pub log_latency_file : Option Bytes
  pub num_videos : ℕ
  pub video_dir : Option Bytes
  pub master_finished : Bool

abbrev zero_range : ConfigRange
zero_range = record { min = 0; max = 0 }

abbrev zero_ratio : ConfigRatio
zero_ratio = record { a = 0; b = 0 }

-- memset in main
abbrev pub zero_config : BenchmarkConfig
zero_config = record {
  server = none;
  port = 0;
  unix_socket = none;
  protocol = none;
  out_file = none;
  client_stats = none;
  run_count = 0;
  debug = 0;
  show_config = 0;
  hide_histogram = 0;
  distinct_client_seed = 0;
  randomize = 0;
  requests = 0;
  clients = 0;
  threads = 0;
  test_time = 0;
  ratio = zero_ratio;
  pipeline = 0;
  data_size = 0;
  data_offset = 0;
  random_data = false;
  data_size_range = zero_range;
  data_size_list = empty_list;
  data_size_pattern = none;
  expiry_range = zero_range;
  data_import = none;
  data_verify = false;
  verify_only = false;
  generate_keys = false;
  key_prefix = none;
  key_minimum = 0;
  key_maximum = 0;
  key_stddev = 0;
  key_median = 0;
  key_pattern = none;
  reconnect_interval = 0;
  multi_key_get = 0;
  authenticate = none;
  select_db = 0;
  no_expiry = false;
  wait_ratio = zero_ratio;
  num_slaves = zero_range;
  wait_timeout = zero_range;
  json_out_file = none;
  cluster_mode = false;
  blocking = false;
  skew_level = 0;
  server_threads = 0;
  config_file = none;
  ir_distribution = none;
  dist_type = dist_none;
  log_dir = none;
  log_qps_file = none;
  log_latency_file = none;
  num_videos = 0;
  video_dir = none;
  master_finished = false;
}

-- What getopt_long finds, one option after the other: its name and its optarg. o_randomize carries the
-- number that random() draws for it.
pub data Opt : Type 0 where
  o_help o_version o_blocking o_debug o_show_config o_hide_histogram o_distinct_client_seed : Opt
  o_random_data o_data_verify o_verify_only o_generate_keys o_no_expiry o_cluster_mode o_unknown :
      Opt
  o_skew_level o_server_threads o_config_file o_ir_distribution o_log_dir o_videos : Bytes → Opt
  o_video_path o_log_qps_file o_log_latency_file o_server o_unix_socket o_port : Bytes → Opt
  o_protocol o_out_file o_client_stats o_run_count o_requests o_clients o_threads : Bytes → Opt
  o_test_time o_ratio o_pipeline o_data_size o_data_offset o_data_size_range : Bytes → Opt
  o_data_size_list o_expiry_range o_data_size_pattern o_data_import o_key_prefix : Bytes → Opt
  o_key_minimum o_key_maximum o_key_stddev o_key_median o_key_pattern : Bytes → Opt
  o_reconnect_interval o_multi_key_get o_authenticate o_select_db o_wait_ratio : Bytes → Opt
  o_num_slaves o_wait_timeout o_json_out_file : Bytes → Opt
  o_randomize : ℕ → Opt

-- strcmp(s, name) == 0 for a string that may be a null pointer, which is no name
abbrev pub is_named : Bytes → Option Bytes → Bool
is_named name none = false
is_named name (some s) = bytes_eq s name

abbrev pub is_set {ℓ} : {A : Type ℓ} → Option A → Bool
is_set none = false
is_set (some _) = true
