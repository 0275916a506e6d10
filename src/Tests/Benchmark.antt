-- ===== src/Tests/Benchmark.antt =====
-- The main program at concrete options.
use memtier_skewsyn.Prelude.{
  ℕ, ◌*◌, ◌%◌, ◌≡◌, ◌↔◌, refl, List, [], ◌∷◌, ◌++◌, Option, none, some, arith, Bytes, codes, true,
  false, length, map,
}
use memtier_skewsyn.CLib.{strtoul, print_u, minus_one, u32_mod}
use memtier_skewsyn.Benchmark.{
  BenchmarkConfig, zero_config, Opt, is_named, o_clients, o_threads, o_data_import, o_verify_only,
  o_port,
}
use memtier_skewsyn.Config.{print, printed}
use memtier_skewsyn.JsonHandler.{JsonHandler, new_handler, finish}
use memtier_skewsyn.JsonHandler.Tree.{render, strip}
use memtier_skewsyn.Benchmark.ConfigText.{option_names, AreWritten}
use memtier_skewsyn.Benchmark.ConfigJson.{
  configuration, config_print_to_json, config_print_to_json-render,
}
use memtier_skewsyn.Benchmark.Args.{refused, go_on}
use memtier_skewsyn.Benchmark.Parse.{parse_option, parse_options, finish_args, config_parse_args}
use memtier_skewsyn.Benchmark.Ready.{IsAccepted, config_parse_args-IsAccepted}
use memtier_skewsyn.Benchmark.Defaults.{config_init_defaults}
use memtier_skewsyn.Benchmark.Defaulted.{IsReady, client_count, config_init_defaults-none}
use memtier_skewsyn.Benchmark.Start.{Host, start}
use memtier_skewsyn.Benchmark.Safe.{Passes, IsConfigured, start-Starts}
use memtier_skewsyn.Benchmark.Runs.{extremes, Least, Greatest, extremes-Ends}
use memtier_skewsyn.Benchmark.Latency.{Mark, Row, process_results}

abbrev no_floats : Bytes → ℕ × Bytes
no_floats optarg = (0, optarg)

-- -c 10 -t 2 --data-import=dump.csv --verify-only -p 7000
abbrev options : List Opt
options =
    o_clients (codes "10")
    ∷ o_threads (codes "2")
    ∷ o_data_import (codes "dump.csv")
    ∷ o_verify_only
    ∷ o_port (codes "7000")
    ∷ []

abbrev accepted : BenchmarkConfig
accepted = record zero_config {
  clients = 10;
  threads = 2;
  data_import = some (codes "dump.csv");
  verify_only = true;
  data_verify = true;
  port = 7000;
  skew_level = 1;
  server_threads = 1;
  log_dir = some (codes "./latency_throughput_log");
  log_qps_file = some (codes "throughput.log");
  master_finished = true;
}

command_line : config_parse_args no_floats options zero_config ≡ go_on accepted
unfolding config_parse_args parse_options parse_option finish_args strtoul
command_line = refl

config_parse_args-IsAccepted_example : IsAccepted accepted
config_parse_args-IsAccepted_example =
    config_parse_args-IsAccepted no_floats options accepted command_line

abbrev host : Host
host = record {
  rlim_cur = 1024;
  rlim_max = 4096;
  is_root = false;
  getrlimit_succeeds = true;
  setrlimit_succeeds = true;
  server_resolves = true;
  keys_are_read = true;
  file_opens = true;
}

start-Starts_example :
    (d : BenchmarkConfig) × (config_init_defaults accepted ≡ some d)
    × IsReady d
    × Passes (IsConfigured d) (start host d)
start-Starts_example = start-Starts no_floats options accepted host command_line (omega arith)

-- --clients=65536 --threads=65536 --requests=allkeys --key-pattern=P:P
abbrev wrapped : BenchmarkConfig
wrapped = record zero_config {
  clients = 65536;
  threads = 65536;
  requests = minus_one;
  key_pattern = some (codes "P:P");
}

config_init_defaults-none_example : (config_init_defaults wrapped ≡ none) ↔ (
    (wrapped.requests ≡ minus_one)
    × ((is_named (codes "P:P") wrapped.key_pattern ≡ true) × (client_count wrapped % u32_mod ≡ 0)))
config_init_defaults-none_example = config_init_defaults-none wrapped

-- The test of the port is made on what is left of it in 16 bits.
port_wraps :
    parse_option no_floats (o_port (codes "65537")) zero_config
    ≡ go_on (record zero_config { port = 1 })
unfolding parse_option strtoul
port_wraps = refl

no_port : parse_option no_floats (o_port (codes "65536")) zero_config ≡ refused
unfolding parse_option strtoul
no_port = refl

-- Operations per second of three runs that last a second, the last of them too short to be measured
abbrev per_second : ℕ → ℕ → ℕ
per_second ops usecs = ops * 1000000

extremes-Ends_example :
    let e = extremes per_second ((30, 1) ∷ (10, 1) ∷ (20, 0) ∷ []) in
    Least (30000000 ∷ 10000000 ∷ 20000000 ∷ []) 3 e
    × Greatest (30000000 ∷ 10000000 ∷ 20000000 ∷ []) 3 e
extremes-Ends_example = extremes-Ends per_second (30, 1) ((10, 1) ∷ (20, 0) ∷ [])

abbrev mark : ℕ → ℕ → ℕ → Mark
mark sets gets time = record { set_index = sets; get_index = gets; time_stamp = time }

abbrev log_of : List ℕ → List ℕ → Mark → List Mark → Option (List (Row ℕ))
log_of get_latencies set_latencies = process_results length get_latencies set_latencies 3 2

-- --data-size-list=10:1
abbrev ten_bytes : BenchmarkConfig
ten_bytes = record accepted {
  data_size_list = record {
    item_list = record { size = 10; weight = 1 } ∷ [];
    next_size_iter = some 0;
    next_size_weight = 0;
  };
}

ten_bytes_printed : print 511 ten_bytes.data_size_list ≡ printed (codes "10:1")
unfolding print print_u
ten_bytes_printed = refl

config_print_to_json-render_example :
    (h : JsonHandler) × (es : List (Bytes × Bytes)) × (config_print_to_json ten_bytes new_handler
      ≡ some h)
    × (strip (finish h).m_json_file ≡ strip (b'{' ∷ (render (configuration es) ++ (b'}' ∷ []))))
    × ((finish h).m_nest_closer_types ≡ [])
    × (map (λ e. e.0) es ≡ option_names)
    × AreWritten ten_bytes es
config_print_to_json-render_example =
    config_print_to_json-render ten_bytes (codes "10:1") ten_bytes_printed
