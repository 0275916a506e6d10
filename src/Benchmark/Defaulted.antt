-- ===== src/Benchmark/Defaulted.antt =====
-- The configuration that config_init_defaults completes.
use memtier_skewsyn.Prelude.{
  ℕ, ◌*◌, ◌%◌, ◌≡◌, ◌≢◌, ◌↔◌, refl, sym, ap, ◌⊎◌, inl, inr, Bool, true, false, not, ◌&&◌, ◌||◌,
  Option, none, some, Bytes, codes, bytes_eq, bytes_eq_iff, arith, ◌==◌, if◌then◌else◌, Bool-cases,
  Option-cases,
}
use memtier_skewsyn.CLib.{first, minus_one, u32_mod, strtoul}
use memtier_skewsyn.Config.{
  ConfigRatio, config_ratio, ratio_is_defined, range_is_defined, list_is_defined,
}
use memtier_skewsyn.Benchmark.{BenchmarkConfig, is_named, is_set}
use memtier_skewsyn.Benchmark.Args.{one_of, protocols, key_pattern_fits, size_pattern_fits}
use memtier_skewsyn.Benchmark.Valid.{Fits}
use memtier_skewsyn.Benchmark.Ready.{IsAccepted}
use memtier_skewsyn.Benchmark.Defaults.{
  or_default, default_test, default_objects, all_keys, default_requests, with_requests,
  config_init_defaults,
}

-- A string that is there, and passes a test
abbrev pub Known : (Bytes → Bool) → Option Bytes → Type 0
Known test o = (s : Bytes) × (o ≡ some s) × (test s ≡ true)

pub record IsReady (c : BenchmarkConfig) : Type 0 where
  pub addressed : (is_set c.server ≡ true) ⊎ (is_set c.unix_socket ≡ true)
  pub protocol_known : Known (one_of protocols) c.protocol
  pub key_pattern_known : Known key_pattern_fits c.key_pattern
  pub size_pattern_known : Known size_pattern_fits c.data_size_pattern
  pub some_runs : c.run_count ≢ 0
  pub some_clients : c.clients ≢ 0
  pub some_threads : c.threads ≢ 0
  pub some_window : c.pipeline ≢ 0
  pub some_ratio : ratio_is_defined c.ratio ≡ true
  pub some_work : (c.requests ≢ 0) ⊎ (c.test_time ≢ 0)
  pub keyed :
      (c.generate_keys || not (is_set c.data_import)) ≡ true
      → (is_set c.key_prefix ≡ true) × (c.key_maximum ≢ 0)
  pub sized :
      is_set c.data_import ≡ false
      → (c.data_size ≢ 0)
        ⊎ ((list_is_defined c.data_size_list ≡ true) ⊎ (range_is_defined c.data_size_range ≡ true))

or_default-nonzero : (n d : ℕ) → d ≢ 0 → or_default n d ≢ 0
or_default-nonzero n d h = ground arith

default-Known :
    (test : Bytes → Bool) (o : Option Bytes) (s : Bytes)
    → Fits test o
    → test s ≡ true
    → Known test (if is_set o then o else some s)
default-Known test none s h k = (s, refl, k)
default-Known test (some t) s h k = (t, refl, h)

default_ratio : ratio_is_defined (config_ratio (codes "1:10")) ≡ true
unfolding ratio_is_defined config_ratio strtoul
default_ratio = refl

-- How many clients all threads have together
abbrev pub client_count : BenchmarkConfig → ℕ
client_count c = or_default c.clients 50 * or_default c.threads 4

all_keys-some :
    (c : BenchmarkConfig) → c.clients * c.threads % u32_mod ≢ 0 → (n : ℕ) × (all_keys c ≡ some n)
unfolding all_keys
all_keys-some c h = elim (Option-cases (all_keys c)) [
  | inl e ↦ absurd (ground (arith, e, h))
  | inr found ↦ found
]

default_requests-some :
    (c : BenchmarkConfig)
    → c.clients * c.threads % u32_mod ≢ 0
    → (n : ℕ) × (default_requests c ≡ some (with_requests c n))
unfolding default_requests
default_requests-some c h = elim (Bool-cases (c.requests == minus_one)) [
  | inr e ↦ (c.requests, rw e refl)
  | inl e ↦ let (n, k) = all_keys-some c h in (n, rw (e, k) refl)
]

redis_known : one_of protocols (codes "redis") ≡ true
redis_known = ground (arith, (bytes_eq_iff (codes "redis") (codes "redis")).1 refl)

some_requests : (n t : ℕ) → ((if n == 0 && t == 0 then 10000 else n) ≢ 0) ⊎ (t ≢ 0)
some_requests n t = ground arith

prefix_default :
    (g : Bool) (o : Option Bytes) (s : Bytes)
    → g ≡ true
    → is_set (if g && not (is_set o) then some s else o) ≡ true
prefix_default g o s h = ground arith

maximum_default : (g : Bool) (n : ℕ) → g ≡ true → (if g && n == 0 then 10000000 else n) ≢ 0
maximum_default g n h = ground arith

address_default :
    (server unix : Option Bytes) (s : Bytes)
    → (is_set (if not (is_set server) && not (is_set unix) then some s else server) ≡ true)
      ⊎ (is_set unix ≡ true)
address_default server unix s = ground arith

size_default :
    (n : ℕ) (l r i : Bool)
    → i ≡ false
    → ((if n == 0 && (not l && (not r && not i)) then 32 else n) ≢ 0) ⊎ ((l ≡ true) ⊎ (r ≡ true))
size_default n l r i h = ground arith

ratio_default :
    (b : Bool) (r d : ConfigRatio)
    → ratio_is_defined r ≡ b
    → ratio_is_defined d ≡ true
    → ratio_is_defined (if b then r else d) ≡ true
ratio_default true r d h k = h
ratio_default false r d h k = k

pub config_init_defaults-IsReady :
    (c : BenchmarkConfig)
    → IsAccepted c
    → client_count c % u32_mod ≢ 0
    → (d : BenchmarkConfig) × (config_init_defaults c ≡ some d) × IsReady d
unfolding config_init_defaults default_test default_objects
config_init_defaults-IsReady c a h =
    let (n, e) = default_requests-some (default_objects (default_test c)) h in
    (
      with_requests (default_objects (default_test c)) n,
      e,
      record {
        addressed = address_default c.server c.unix_socket (codes "localhost");
        protocol_known =
            default-Known _ c.protocol (codes "redis") a.valid.protocol_known redis_known;
        key_pattern_known =
            default-Known _ c.key_pattern (codes "R:R") a.valid.key_pattern_fit refl;
        size_pattern_known =
            default-Known _ c.data_size_pattern (codes "R") a.valid.size_pattern_fit refl;
        some_runs = or_default-nonzero c.run_count 1 (ground arith);
        some_clients = or_default-nonzero c.clients 50 (ground arith);
        some_threads = or_default-nonzero c.threads 4 (ground arith);
        some_window = or_default-nonzero c.pipeline 1 (ground arith);
        some_ratio = ratio_default _ c.ratio (config_ratio (codes "1:10")) refl default_ratio;
        some_work = some_requests n c.test_time;
        keyed = λ g. (prefix_default _ c.key_prefix _ g, maximum_default _ c.key_maximum g);
        sized = size_default c.data_size _ _ _;
      },
    )

all_keys-none :
    (c : BenchmarkConfig)
    → (all_keys c ≡ none)
      ↔ ((is_named (codes "P:P") c.key_pattern ≡ true) × (c.clients * c.threads % u32_mod ≡ 0))
unfolding all_keys
all_keys-none c = ground arith

default_requests-none :
    (c : BenchmarkConfig)
    → (default_requests c ≡ none) ↔ (
        (c.requests ≡ minus_one)
        × ((is_named (codes "P:P") c.key_pattern ≡ true) × (c.clients * c.threads % u32_mod ≡ 0)))
unfolding default_requests
default_requests-none c = ground (arith, all_keys-none c)

not_parallel : bytes_eq (codes "R:R") (codes "P:P") ≡ false
not_parallel = elim (Bool-cases (bytes_eq (codes "R:R") (codes "P:P"))) [
  | inl e ↦ absurd (omega (arith, ap first ((bytes_eq_iff (codes "R:R") (codes "P:P")).0 e)))
  | inr e ↦ e
]

named_default :
    (o : Option Bytes)
    → is_named (codes "P:P") (if is_set o then o else some (codes "R:R")) ≡ is_named (codes "P:P") o
named_default none = not_parallel
named_default (some s) = refl

-- config_init_defaults divides by zero for a count of all keys with the key pattern P:P, when the number of
-- clients wraps round to 0 in 32 bits, and in no other case.
pub config_init_defaults-none :
    (c : BenchmarkConfig)
    → (config_init_defaults c ≡ none) ↔ (
        (c.requests ≡ minus_one)
        × ((is_named (codes "P:P") c.key_pattern ≡ true) × (client_count c % u32_mod ≡ 0)))
unfolding config_init_defaults default_test default_objects
config_init_defaults-none c =
    rw (sym (named_default c.key_pattern))
      (default_requests-none (default_objects (default_test c)))
