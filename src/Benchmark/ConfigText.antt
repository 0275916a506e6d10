-- ===== src/Benchmark/ConfigText.antt =====
-- What the object "configuration" of config_print_to_json is to hold, apart from the calls that write it.
use memtier_skewsyn.Prelude.{
  ℕ, ◌≡◌, Bool, true, false, List, [], ◌∷◌, ◌++◌, Option, none, some, Bytes, codes, if◌then◌else◌,
  All, bytes_eq,
}
use memtier_skewsyn.CLib.{print_u, c_str}
use memtier_skewsyn.Benchmark.{BenchmarkConfig}

-- The names of the options, in the order of the file
abbrev pub option_names : List Bytes
option_names =
    codes "server"
    ∷ codes "port"
    ∷ codes "unix socket"
    ∷ codes "protocol"
    ∷ codes "out_file"
    ∷ codes "client_stats"
    ∷ codes "run_count"
    ∷ codes "debug"
    ∷ codes "requests"
    ∷ codes "clients"
    ∷ codes "threads"
    ∷ codes "test_time"
    ∷ codes "ratio"
    ∷ codes "pipeline"
    ∷ codes "data_size"
    ∷ codes "data_offset"
    ∷ codes "random_data"
    ∷ codes "data_size_range"
    ∷ codes "data_size_list"
    ∷ codes "data_size_pattern"
    ∷ codes "expiry_range"
    ∷ codes "data_import"
    ∷ codes "data_verify"
    ∷ codes "verify_only"
    ∷ codes "generate_keys"
    ∷ codes "key_prefix"
    ∷ codes "key_minimum"
    ∷ codes "key_maximum"
    ∷ codes "key_pattern"
    ∷ codes "key_stddev"
    ∷ codes "key_median"
    ∷ codes "reconnect_interval"
    ∷ codes "multi_key_get"
    ∷ codes "authenticate"
    ∷ codes "select-db"
    ∷ codes "no-expiry"
    ∷ codes "wait-ratio"
    ∷ codes "num-slaves"
    ∷ codes "wait-timeout"
    ∷ []

-- The text that is written under a name
abbrev pub found_text : Bytes → List (Bytes × Bytes) → Option Bytes
found_text name [] = none
found_text name (e ∷ es) = if bytes_eq e.0 name then some e.1 else found_text name es

-- The options that are numbers, with their names
abbrev pub numbers : BenchmarkConfig → List (Bytes × ℕ)
numbers c =
    (codes "threads", c.threads)
    ∷ (codes "clients", c.clients)
    ∷ (codes "requests", c.requests)
    ∷ (codes "test_time", c.test_time)
    ∷ (codes "run_count", c.run_count)
    ∷ (codes "port", c.port)
    ∷ (codes "pipeline", c.pipeline)
    ∷ (codes "data_size", c.data_size)
    ∷ (codes "data_offset", c.data_offset)
    ∷ (codes "debug", c.debug)
    ∷ (codes "multi_key_get", c.multi_key_get)
    ∷ (codes "reconnect_interval", c.reconnect_interval)
    ∷ []

-- The options that are strings, switches and pairs of numbers, with their names
abbrev pub strings : BenchmarkConfig → List (Bytes × Option Bytes)
strings c =
    (codes "server", c.server)
    ∷ (codes "unix socket", c.unix_socket)
    ∷ (codes "protocol", c.protocol)
    ∷ (codes "out_file", c.out_file)
    ∷ (codes "client_stats", c.client_stats)
    ∷ (codes "data_size_pattern", c.data_size_pattern)
    ∷ (codes "data_import", c.data_import)
    ∷ (codes "key_prefix", c.key_prefix)
    ∷ (codes "key_pattern", c.key_pattern)
    ∷ []

abbrev pub switches : BenchmarkConfig → List (Bytes × Bool)
switches c =
    (codes "random_data", c.random_data)
    ∷ (codes "data_verify", c.data_verify)
    ∷ (codes "verify_only", c.verify_only)
    ∷ (codes "generate_keys", c.generate_keys)
    ∷ (codes "no-expiry", c.no_expiry)
    ∷ []

abbrev pub pairs : BenchmarkConfig → List (Bytes × ℕ × ℕ × ℕ)
pairs c =
    (codes "ratio", b':', c.ratio.a, c.ratio.b)
    ∷ (codes "data_size_range", b':', c.data_size_range.min, c.data_size_range.max)
    ∷ (codes "expiry_range", b':', c.expiry_range.min, c.expiry_range.max)
    ∷ (codes "wait-ratio", b':', c.wait_ratio.a, c.wait_ratio.b)
    ∷ (codes "num-slaves", b':', c.num_slaves.min, c.num_slaves.max)
    ∷ (codes "wait-timeout", b'-', c.wait_timeout.min, c.wait_timeout.max)
    ∷ []

abbrev pub in_quotes : Bytes → Bytes
in_quotes text = b'"' ∷ (text ++ (b'"' ∷ []))

-- A string up to its zero byte, or (null); a switch as true or false; and the numbers of a pair in decimal, with
-- their separator: all of them in quotes
abbrev pub string_text : Option Bytes → Bytes
string_text none = in_quotes (codes "(null)")
string_text (some s) = in_quotes (c_str s)

abbrev pub switch_text : Bool → Bytes
switch_text true = in_quotes (codes "true")
switch_text false = in_quotes (codes "false")

abbrev pub separated : ℕ × ℕ × ℕ → Bytes
separated (separator, a, b) = b'"' ∷ (print_u a ++ (separator ∷ (print_u b ++ (b'"' ∷ []))))

-- Each of these options stands under its name.
abbrev pub AreWritten : BenchmarkConfig → List (Bytes × Bytes) → Type 0
AreWritten c es =
    All (λ o. found_text o.0 es ≡ some (print_u o.1)) (numbers c)
    × All (λ o. found_text o.0 es ≡ some (string_text o.1)) (strings c)
    × All (λ o. found_text o.0 es ≡ some (switch_text o.1)) (switches c)
    × All (λ o. found_text o.0 es ≡ some (separated (o.1, o.2, o.3))) (pairs c)
