-- ===== src/Benchmark/Ready.antt =====
-- What config_parse_args and config_init_defaults establish together.
use memtier_skewsyn.Prelude.{
  ℕ, ◌≡◌, ◌≢◌, refl, ◌⊎◌, inl, inr, true, false, not, ◌&&◌, ◌||◌, List, Option, none, some, Bytes,
  bytes_eq, codes, arith, ◌==◌, Bool-cases, if◌then◌else◌,
}
use mathlib.Core.Path.{subst}
use memtier_skewsyn.CLib.{int_lt}
use memtier_skewsyn.Config.{range_is_defined}
use memtier_skewsyn.Benchmark.{
  BenchmarkConfig, DistributionType, dist_none, dist_poisson, dist_uniform, zero_config, Opt,
  is_set,
}
use memtier_skewsyn.Benchmark.Args.{go_on, one_of, distributions}
use memtier_skewsyn.Benchmark.Parse.{
  parse_options, verify_cluster_option, check_videos, dist_of, or_else, with_skew, with_logs,
  finish_args, config_parse_args,
}
use memtier_skewsyn.Benchmark.Valid.{Fits, IsValid, Accepts, then-Accepts, parse_options-IsValid}

-- A command line that is accepted as a whole
pub record IsAccepted (c : BenchmarkConfig) : Type 0 where
  pub valid : IsValid c
  pub cluster : c.cluster_mode ≡ true → verify_cluster_option c ≡ true
  pub skewed : c.skew_level ≢ 0
  pub threaded : c.server_threads ≢ 0
  pub one_video : int_lt 0 c.num_videos ≡ true → (c.num_videos ≡ 1) × (is_set c.video_dir ≡ true)
  pub logs : (is_set c.log_dir ≡ true) × (is_set c.log_qps_file ≡ true)
  pub unscheduled : is_set c.config_file ≡ false → c.master_finished ≡ true

zero-IsValid : IsValid zero_config
unfolding range_is_defined
zero-IsValid = ground arith

check_videos-Accepts :
    (P : BenchmarkConfig → Type 0)
    → (c : BenchmarkConfig)
    → ((int_lt 0 c.num_videos ≡ true → (c.num_videos ≡ 1) × (is_set c.video_dir ≡ true)) → P c)
    → Accepts P (check_videos c)
check_videos-Accepts P c h = elim (Bool-cases (int_lt 0 c.num_videos)) [
  | inr e ↦ rw e (h (ground (arith, e)))
  | inl e ↦ elim (Bool-cases (c.num_videos == 1)) [
    | inr k ↦ rw (e, k) tt
    | inl k ↦ elim (Bool-cases (is_set c.video_dir)) [
      | inr s ↦ rw (e, k, s) tt
      | inl s ↦ rw (e, k, s) (h λ _. (ground (arith, k), s))
    ]
  ]
]

dist_of_known :
    (o : Option Bytes)
    → Fits (one_of distributions) o
    → (d : DistributionType) × (dist_of o ≡ some d)
dist_of_known none h = (dist_none, refl)
dist_of_known (some s) h = elim (Bool-cases (bytes_eq s (codes "NONE"))) [
  | inl e ↦ (dist_none, rw e refl)
  | inr e ↦ elim (Bool-cases (bytes_eq s (codes "POISSON"))) [
    | inl k ↦ (dist_poisson, rw (e, k) refl)
    | inr k ↦ (dist_uniform, rw (e, k, uniform s e k h) refl)
  ]
]
  where
    uniform :
        (s : Bytes)
        → bytes_eq s (codes "NONE") ≡ false
        → bytes_eq s (codes "POISSON") ≡ false
        → one_of distributions s ≡ true
        → bytes_eq s (codes "UNIFORM") ≡ true
    uniform s e k h = ground arith

or_else-is_set : (o : Option Bytes) (s : Bytes) → is_set (or_else o s) ≡ true
or_else-is_set o s = ground arith

not_zero : (n : ℕ) → (n == 0) ≡ false → n ≢ 0
not_zero n h = ground arith

max_not_zero : (n : ℕ) → (if int_lt 1 n then n else 1) ≢ 0
max_not_zero n = ground arith

-- What stands once the skew level is settled
record IsSettled (c : BenchmarkConfig) : Type 0 where
  valid : IsValid c
  cluster : c.cluster_mode ≡ true → verify_cluster_option c ≡ true
  skewed : c.skew_level ≢ 0
  threaded : c.server_threads ≢ 0

with_skew-IsSettled :
    (c : BenchmarkConfig)
    → IsValid c
    → (c.cluster_mode ≡ true → verify_cluster_option c ≡ true)
    → (with_skew c ≡ none) ⊎ ((d : BenchmarkConfig) × (with_skew c ≡ some d) × IsSettled d)
unfolding verify_cluster_option
with_skew-IsSettled c v k = elim (Bool-cases (c.skew_level == 0)) [
  | inl e ↦ inr (
    record c {
      skew_level = 1;
      server_threads = if int_lt 1 c.server_threads then c.server_threads else 1;
    },
    rw e refl,
    record {
      valid = v;
      cluster = k;
      skewed = not_zero 1 refl;
      threaded = max_not_zero c.server_threads;
    },
  )
  | inr e ↦ elim (Bool-cases (c.server_threads == 0)) [
    | inl t ↦ inl (rw (e, t) refl)
    | inr t ↦ inr (
      c,
      rw (e, t) refl,
      record { valid = v; cluster = k; skewed = not_zero _ e; threaded = not_zero _ t },
    )
  ]
]

unscheduled_lem :
    (c : BenchmarkConfig)
    → is_set c.config_file ≡ false
    → (not (is_set c.config_file) || c.master_finished) ≡ true
unscheduled_lem c h = rw h refl

finish_args-IsAccepted : (c : BenchmarkConfig) → IsValid c → Accepts IsAccepted (finish_args c)
unfolding finish_args
finish_args-IsAccepted c v = elim (Bool-cases (c.cluster_mode && not (verify_cluster_option c))) [
  | inl e ↦ rw e tt
  | inr e ↦ elim (with_skew-IsSettled c v (ground (arith, e))) [
    | inl k ↦ rw (e, k) tt
    | inr (d, k, s) ↦
        let (dist, t) = dist_of_known d.ir_distribution s.valid.distribution_known in
        rw (e, k, t)
          (check_videos-Accepts IsAccepted
            (with_logs (record d {
              master_finished = not (is_set d.config_file) || d.master_finished;
              dist_type = dist;
            }))
            λ one. record {
              valid = s.valid;
              cluster = s.cluster;
              skewed = s.skewed;
              threaded = s.threaded;
              one_video = one;
              logs = (
                or_else-is_set d.log_dir (codes "./latency_throughput_log"),
                or_else-is_set d.log_qps_file (codes "throughput.log"),
              );
              unscheduled = unscheduled_lem d;
            })
  ]
]

-- Whatever options config_parse_args accepts, starting from the zeroed configuration, they are valid: the
-- port fits 16 bits, the numbers of requests, clients and threads fit 32, a range of sizes starts at 1 or
-- above, the protocol, the distribution and the patterns are among those it names, --verify-only implies
-- --data-verify, --requests and --test-time exclude each other unless "allkeys" is asked for, cluster mode
-- stands with no option that it does not support, a skew level and a number of server threads are set, at
-- most one video is asked for and then with its path, the names of the logs are set, and without a schedule
-- the master has finished.
pub config_parse_args-IsAccepted :
    (strtof : Bytes → ℕ × Bytes) (os : List Opt) (c : BenchmarkConfig)
    → config_parse_args strtof os zero_config ≡ go_on c
    → IsAccepted c
unfolding config_parse_args
config_parse_args-IsAccepted strtof os c e = subst (Accepts IsAccepted) e (
    then-Accepts IsValid IsAccepted finish_args (parse_options strtof os zero_config)
      (parse_options-IsValid strtof os zero_config zero-IsValid) finish_args-IsAccepted)
