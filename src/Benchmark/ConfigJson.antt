-- ===== src/Benchmark/ConfigJson.antt =====
-- config_print_to_json of memtier_benchmark.cpp: the configuration in the file of results.
use memtier_skewsyn.Prelude.{
  ℕ, true, false, ◌-◌, ◌≡◌, refl, ap, ◌∙◌, Bool, List, [], ◌∷◌, ◌++◌, append-nil, Option, none,
  some, Bytes, codes, if◌then◌else◌, length, replicate, map, bytes_eq,
}
use memtier_skewsyn.CLib.{print_u, print_d, c_str, to_u32}
use memtier_skewsyn.Config.{printed, null, overrun, print}
use memtier_skewsyn.JsonHandler.{
  JsonHandler, nested_general, new_handler, write_obj, open_nesting, close_nesting, finish,
}
use memtier_skewsyn.JsonHandler.Tree.{
  Element, Elements, value, nest, nil, cons, emit, emit_all, render, render_all, strip,
}
use memtier_skewsyn.JsonHandler.Output.{finish-render}
use memtier_skewsyn.Benchmark.{BenchmarkConfig}
use memtier_skewsyn.Benchmark.ConfigText.{option_names, string_text, switch_text, AreWritten}

-- \"%s\" with a string that may be a null pointer; nothing in it is escaped.
abbrev quote : Bytes → Bytes
quote s = b'"' ∷ (c_str s ++ (b'"' ∷ []))

abbrev quoted : Option Bytes → Bytes
quoted none = quote (codes "(null)")
quoted (some s) = quote s

abbrev or_empty : Option Bytes → Bytes
or_empty none = []
or_empty (some s) = s

abbrev bool_text : Bool → Bytes
bool_text b = quote (if b then codes "true" else codes "false")

-- \"%u:%u\" and \"%u-%u\"
abbrev pair_text : ℕ → ℕ → ℕ → Bytes
pair_text separator a b = b'"' ∷ (print_u a ++ (separator ∷ (print_u b ++ (b'"' ∷ []))))

-- %11u, which takes an unsigned int, of an unsigned long long
abbrev key_number : ℕ → Bytes
key_number n = let digits = print_u (to_u32 n) in replicate (11 - length digits) b' ' ++ digits

-- %f of a double that is a whole number
abbrev whole : ℕ → Bytes
whole n = print_u n ++ codes ".000000"

-- The calls of write_obj: the names and texts, where `sizes` is the text of the list of sizes
unfoldable pub config_entries : BenchmarkConfig → Bytes → List (Bytes × Bytes)
config_entries c sizes =
    (codes "server", quoted c.server)
    ∷ (codes "port", print_u c.port)
    ∷ (codes "unix socket", quoted c.unix_socket)
    ∷ (codes "protocol", quoted c.protocol)
    ∷ (codes "out_file", quoted c.out_file)
    ∷ (codes "client_stats", quoted c.client_stats)
    ∷ (codes "run_count", print_u c.run_count)
    ∷ (codes "debug", print_u c.debug)
    ∷ (codes "requests", print_u c.requests)
    ∷ (codes "clients", print_u c.clients)
    ∷ (codes "threads", print_u c.threads)
    ∷ (codes "test_time", print_u c.test_time)
    ∷ (codes "ratio", pair_text b':' c.ratio.a c.ratio.b)
    ∷ (codes "pipeline", print_u c.pipeline)
    ∷ (codes "data_size", print_u c.data_size)
    ∷ (codes "data_offset", print_u c.data_offset)
    ∷ (codes "random_data", bool_text c.random_data)
    ∷ (codes "data_size_range", pair_text b':' c.data_size_range.min c.data_size_range.max)
    ∷ (codes "data_size_list", quote sizes)
    ∷ (codes "data_size_pattern", quoted c.data_size_pattern)
    ∷ (codes "expiry_range", pair_text b':' c.expiry_range.min c.expiry_range.max)
    ∷ (codes "data_import", quoted c.data_import)
    ∷ (codes "data_verify", bool_text c.data_verify)
    ∷ (codes "verify_only", bool_text c.verify_only)
    ∷ (codes "generate_keys", bool_text c.generate_keys)
    ∷ (codes "key_prefix", quoted c.key_prefix)
    ∷ (codes "key_minimum", key_number c.key_minimum)
    ∷ (codes "key_maximum", key_number c.key_maximum)
    ∷ (codes "key_pattern", quoted c.key_pattern)
    ∷ (codes "key_stddev", whole c.key_stddev)
    ∷ (codes "key_median", whole c.key_median)
    ∷ (codes "reconnect_interval", print_u c.reconnect_interval)
    ∷ (codes "multi_key_get", print_u c.multi_key_get)
    ∷ (codes "authenticate", quote (or_empty c.authenticate))
    ∷ (codes "select-db", print_d c.select_db)
    ∷ (codes "no-expiry", bool_text c.no_expiry)
    ∷ (codes "wait-ratio", pair_text b':' c.wait_ratio.a c.wait_ratio.b)
    ∷ (codes "num-slaves", pair_text b':' c.num_slaves.min c.num_slaves.max)
    ∷ (codes "wait-timeout", pair_text b'-' c.wait_timeout.min c.wait_timeout.max)
    ∷ []

abbrev write_entries : List (Bytes × Bytes) → JsonHandler → JsonHandler
write_entries [] h = h
write_entries (e ∷ es) h = write_entries es (write_obj e.0 e.1 h)

abbrev write_config : List (Bytes × Bytes) → JsonHandler → JsonHandler
write_config es h =
    close_nesting (write_entries es (open_nesting (some (codes "configuration")) nested_general h))

-- `none` is a write behind tmpbuf, of which print is told that it has 511 bytes.
unfoldable pub config_print_to_json : BenchmarkConfig → JsonHandler → Option JsonHandler
config_print_to_json c h = elim (print 511 c.data_size_list) [
  | printed sizes ↦ some (write_config (config_entries c sizes) h)
  | null ↦ some (write_config (config_entries c (codes "(null)")) h)
  | overrun ↦ none
]

-- The tree of results that holds the texts
abbrev pub values : List (Bytes × Bytes) → Elements
values [] = nil
values (e ∷ es) = cons (value e.0 e.1) (values es)

abbrev pub configuration : List (Bytes × Bytes) → Element
configuration es = nest (some (codes "configuration")) nested_general (values es)

write_entries-emit_all :
    (es : List (Bytes × Bytes)) (h : JsonHandler) → write_entries es h ≡ emit_all (values es) h
unfolding emit_all
write_entries-emit_all [] h = refl
write_entries-emit_all (e ∷ es) h = write_entries-emit_all es (write_obj e.0 e.1 h)

write_config-emit :
    (es : List (Bytes × Bytes)) (h : JsonHandler) → write_config es h ≡ emit (configuration es) h
unfolding emit
write_config-emit es h = ap close_nesting (write_entries-emit_all es _)

write_config-render :
    (es : List (Bytes × Bytes))
    → let h = finish (write_config es new_handler) in
      (strip h.m_json_file ≡ strip (b'{' ∷ (render (configuration es) ++ (b'}' ∷ []))))
      × (h.m_nest_closer_types ≡ [])
unfolding emit_all render_all
write_config-render es =
    let (text, closed) = finish-render (cons (configuration es) nil) in
    let same = ap finish (write_config-emit es new_handler) in
    (
      ap (λ h. strip h.m_json_file) same
          ∙ text
          ∙ ap (λ t. strip (b'{' ∷ (t ++ (b'}' ∷ [])))) (append-nil (render (configuration es))),
      ap (λ h. h.m_nest_closer_types) same ∙ closed,
    )

string_text_lem : (s : Option Bytes) → quoted s ≡ string_text s
string_text_lem none = refl
string_text_lem (some s) = refl

switch_text_lem : (b : Bool) → bool_text b ≡ switch_text b
switch_text_lem true = refl
switch_text_lem false = refl

config_entries-names :
    (c : BenchmarkConfig) (sizes : Bytes) → map (λ e. e.0) (config_entries c sizes) ≡ option_names
unfolding config_entries
config_entries-names c sizes = refl

config_entries-AreWritten :
    (c : BenchmarkConfig) (sizes : Bytes) → AreWritten c (config_entries c sizes)
unfolding config_entries bytes_eq
config_entries-AreWritten c sizes = (
  (
    refl,
    (refl, (refl, (refl, (refl, (refl, (refl, (refl, (refl, (refl, (refl, (refl, tt))))))))))),
  ),
  (
    ap some (string_text_lem c.server),
    (
      ap some (string_text_lem c.unix_socket),
      (
        ap some (string_text_lem c.protocol),
        (
          ap some (string_text_lem c.out_file),
          (
            ap some (string_text_lem c.client_stats),
            (
              ap some (string_text_lem c.data_size_pattern),
              (
                ap some (string_text_lem c.data_import),
                (
                  ap some (string_text_lem c.key_prefix),
                  (ap some (string_text_lem c.key_pattern), tt),
                ),
              ),
            ),
          ),
        ),
      ),
    ),
  ),
  (
    ap some (switch_text_lem c.random_data),
    (
      ap some (switch_text_lem c.data_verify),
      (
        ap some (switch_text_lem c.verify_only),
        (ap some (switch_text_lem c.generate_keys), (ap some (switch_text_lem c.no_expiry), tt)),
      ),
    ),
  ),
  (refl, (refl, (refl, (refl, (refl, (refl, tt)))))),
)

-- Where the list of sizes was printed as `sizes`, config_print_to_json makes the calls that write a tree: a run
-- that writes no more than its configuration leaves a file that is an object with the object "configuration",
-- but for line ends and tabs, and no nesting is left open. This object holds the 39 names of the options, each
-- once and in their order. Under its name stands each of these options: threads, clients, requests, test_time,
-- run_count, port, pipeline, data_size, data_offset, debug, multi_key_get and reconnect_interval in decimal; the
-- strings, apart from authenticate, in quotes; the switches as true or false in quotes; and the ratios and ranges
-- as two numbers with their separator in quotes.
pub config_print_to_json-render :
    (c : BenchmarkConfig) (sizes : Bytes)
    → print 511 c.data_size_list ≡ printed sizes
    → (h : JsonHandler) × (es : List (Bytes × Bytes)) × (config_print_to_json c new_handler
        ≡ some h)
      × (strip (finish h).m_json_file ≡ strip (b'{' ∷ (render (configuration es) ++ (b'}' ∷ []))))
      × ((finish h).m_nest_closer_types ≡ [])
      × (map (λ e. e.0) es ≡ option_names)
      × AreWritten c es
unfolding config_print_to_json
config_print_to_json-render c sizes e =
    let (text, closed) = write_config-render (config_entries c sizes) in
    (
      write_config (config_entries c sizes) new_handler,
      config_entries c sizes,
      rw (e, config_print_to_json) refl,
      text,
      closed,
      config_entries-names c sizes,
      config_entries-AreWritten c sizes,
    )
