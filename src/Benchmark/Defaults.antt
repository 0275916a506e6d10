-- ===== src/Benchmark/Defaults.antt =====
-- config_init_defaults of memtier_benchmark.cpp: the options that were not given.
use memtier_skewsyn.Prelude.{
  ℕ, ◌+◌, ◌-◌, ◌*◌, ◌/◌, ◌%◌, not, ◌&&◌, ◌||◌, Option, none, some, codes, ◌==◌, if◌then◌else◌,
}
use memtier_skewsyn.CLib.{u32_mod, u64_mod, to_u32, minus_one}
use memtier_skewsyn.Config.{config_ratio, ratio_is_defined, range_is_defined, list_is_defined}
use memtier_skewsyn.Benchmark.{BenchmarkConfig, is_named, is_set}

abbrev pub or_default : ℕ → ℕ → ℕ
or_default n d = if n == 0 then d else n

-- The defaults that stand on their own option, and on the address
unfoldable pub default_test : BenchmarkConfig → BenchmarkConfig
default_test c = record c {
  server =
      if not (is_set c.server) && not (is_set c.unix_socket)
      then some (codes "localhost")
      else c.server;
  port = if c.port == 0 && not (is_set c.unix_socket) then 6379 else c.port;
  protocol = if is_set c.protocol then c.protocol else some (codes "redis");
  run_count = or_default c.run_count 1;
  clients = or_default c.clients 50;
  threads = or_default c.threads 4;
  ratio = if ratio_is_defined c.ratio then c.ratio else config_ratio (codes "1:10");
  pipeline = or_default c.pipeline 1;
}

-- Those of the objects and keys
unfoldable pub default_objects : BenchmarkConfig → BenchmarkConfig
default_objects c =
    let generated = c.generate_keys || not (is_set c.data_import) in
    record c {
      data_size =
          if c.data_size == 0
            && (not (list_is_defined c.data_size_list)
                && (not (range_is_defined c.data_size_range) && not (is_set c.data_import)))
          then 32
          else c.data_size;
      key_prefix =
          if generated && not (is_set c.key_prefix) then some (codes "memtier-") else c.key_prefix;
      key_maximum = if generated && c.key_maximum == 0 then 10000000 else c.key_maximum;
      key_pattern = if is_set c.key_pattern then c.key_pattern else some (codes "R:R");
      data_size_pattern =
          if is_set c.data_size_pattern then c.data_size_pattern else some (codes "R");
    }

-- What "allkeys" stands for: the difference of two unsigned long long as an unsigned int, which is divided
-- among the clients with the key pattern P:P. `none` is a division by zero.
unfoldable pub all_keys : BenchmarkConfig → Option ℕ
all_keys c =
    let keys = to_u32 (c.key_maximum + u64_mod - c.key_minimum) in
    let parts = c.clients * c.threads % u32_mod in
    if not (is_named (codes "P:P") c.key_pattern)
    then some keys
    else if parts == 0
    then none
    else some (to_u32 (keys / parts + 1))

-- The number of requests
abbrev pub with_requests : BenchmarkConfig → ℕ → BenchmarkConfig
with_requests c n = record c { requests = if n == 0 && c.test_time == 0 then 10000 else n }

unfoldable pub default_requests : BenchmarkConfig → Option BenchmarkConfig
unfolding all_keys
default_requests c =
    if c.requests == minus_one
    then elim (all_keys c) [ none ↦ none | some n ↦ some (with_requests c n) ]
    else some (with_requests c c.requests)

unfoldable pub config_init_defaults : BenchmarkConfig → Option BenchmarkConfig
unfolding default_test default_objects default_requests
config_init_defaults c = default_requests (default_objects (default_test c))
