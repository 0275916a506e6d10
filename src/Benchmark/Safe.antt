-- ===== src/Benchmark/Safe.antt =====
-- The checks of main on a configuration that is ready.
use memtier_skewsyn.Prelude.{
  ℕ, ◌%◌, ◌≡◌, ◌≢◌, refl, inl, inr, Bool, true, false, not, List, ◌&&◌, ◌||◌, some, Bytes, get_or,
  ltb, arith, ◌==◌, Bool-cases,
}
use memtier_skewsyn.CLib.{first, u32_mod}
use memtier_skewsyn.Config.{range_is_defined, list_is_defined}
use memtier_skewsyn.ObjGen.{DataSize, size_unknown, size_fixed, size_range, size_list}
use memtier_skewsyn.Benchmark.{BenchmarkConfig, zero_config, Opt, is_set}
use memtier_skewsyn.Benchmark.Args.{go_on}
use memtier_skewsyn.Benchmark.Parse.{config_parse_args}
use memtier_skewsyn.Benchmark.Ready.{config_parse_args-IsAccepted}
use memtier_skewsyn.Benchmark.Defaults.{config_init_defaults}
use memtier_skewsyn.Benchmark.Defaulted.{client_count, IsReady, config_init_defaults-IsReady}
use memtier_skewsyn.Benchmark.Start.{
  Host, Failure, size_missing, Settings, Checked, passed, failed, crashed, ◌>>=◌, unless,
  check_system, check_import, check_authenticate, check_select_db, check_offset, set_size, set_keys,
  set_distribution, start,
}

-- The result satisfies P, or is a message other than the one that no size was given.
abbrev pub Passes : {A : Type 0} → (A → Type 0) → Checked A → Type 0
Passes P (passed a) = P a
Passes P (failed e) = e ≢ size_missing
Passes P crashed = ¬ Unit

bind-Passes :
    {A B : Type 0} (P : A → Type 0) (Q : B → Type 0) (m : Checked A) (f : A → Checked B)
    → Passes P m
    → ((a : A) → P a → Passes Q (f a))
    → Passes Q (m >>= f)
bind-Passes P Q (passed a) f h k = k a h
bind-Passes P Q (failed e) f h k = h
bind-Passes P Q crashed f h k = h

abbrev Any : {A : Type 0} → A → Type 0
Any a = Unit

-- The size that was asked for
abbrev pub IsAsked : BenchmarkConfig → DataSize → Type 0
IsAsked c size_unknown = ¬ Unit
IsAsked c (size_fixed n) = (n ≡ c.data_size) × (n ≢ 0)
IsAsked c (size_range a b) =
    (a ≡ c.data_size_range.min)
    × (b ≡ c.data_size_range.max)
    × (range_is_defined c.data_size_range ≡ true)
IsAsked c (size_list l) = (l ≡ c.data_size_list) × (list_is_defined c.data_size_list ≡ true)

pub record IsConfigured (c : BenchmarkConfig) (s : Settings) : Type 0 where
  pub sized : is_set c.data_import ≡ false → (d : DataSize) × (s.data_size ≡ some d) × IsAsked c d
  pub keyed :
      (not (is_set c.data_import) || c.generate_keys) ≡ true
      → (s.key_range ≡ some (c.key_minimum, c.key_maximum)) × (is_set s.key_prefix ≡ true)
  pub expiring : s.expiry_range ≡ (c.expiry_range.min, c.expiry_range.max)

check_system-Passes : (host : Host) (c : BenchmarkConfig) → Passes Any (check_system host c)
unfolding check_system
check_system-Passes host c = ground arith

check_import-Passes : (host : Host) (c : BenchmarkConfig) → Passes Any (check_import host c)
unfolding check_import
check_import-Passes host c = ground arith

check_authenticate-Passes : (c : BenchmarkConfig) → IsReady c → Passes Any (check_authenticate c)
unfolding check_authenticate
check_authenticate-Passes c r = let (p, e, _) = r.protocol_known in rw e (ground arith)

check_select_db-Passes : (c : BenchmarkConfig) → IsReady c → Passes Any (check_select_db c)
unfolding check_select_db
check_select_db-Passes c r = let (p, e, _) = r.protocol_known in rw e (ground arith)

check_offset-Passes : (c : BenchmarkConfig) → IsReady c → Passes Any (check_offset c)
unfolding check_offset
check_offset-Passes c r = let (p, e, _) = r.protocol_known in rw e (ground arith)

-- What a part of the settings says of the size, the keys and both
abbrev Sized : BenchmarkConfig → Settings → Type 0
Sized c s = is_set c.data_import ≡ false → (d : DataSize) × (s.data_size ≡ some d) × IsAsked c d

abbrev Keyed : BenchmarkConfig → Settings → Type 0
Keyed c s =
    (not (is_set c.data_import) || c.generate_keys) ≡ true
    → (s.key_range ≡ some (c.key_minimum, c.key_maximum)) × (is_set s.key_prefix ≡ true)

unless-Passes :
    {A : Type 0} (P : A → Type 0) (bad : Bool) (e : Failure) (next : Checked A)
    → e ≢ size_missing
    → Passes P next
    → Passes P (unless bad e next)
unless-Passes P true e next h k = h
unless-Passes P false e next h k = k

set_size-Passes : (c : BenchmarkConfig) (s : Settings) → IsReady c → Passes (Sized c) (set_size c s)
unfolding set_size
set_size-Passes c s r = elim (Bool-cases (c.data_size == 0)) [
  | inr e ↦ rw e (
      unless-Passes (Sized c)
        (list_is_defined c.data_size_list || range_is_defined c.data_size_range) _
        (passed (record s { data_size = some (size_fixed c.data_size) })) (ground arith)
        λ _. (size_fixed c.data_size, refl, (refl, ground (arith, e))))
  | inl e ↦ elim (Bool-cases (list_is_defined c.data_size_list)) [
    | inl l ↦
        rw (e, l)
          (unless-Passes (Sized c) (range_is_defined c.data_size_range) _
            (passed (record s { data_size = some (size_list c.data_size_list) })) (ground arith)
            λ _. (size_list c.data_size_list, refl, (refl, l)))
    | inr l ↦ elim (Bool-cases (range_is_defined c.data_size_range)) [
      | inl k ↦
          rw (e, l, k)
            λ _. (size_range c.data_size_range.min c.data_size_range.max, refl, (refl, refl, k))
      | inr k ↦ elim (Bool-cases (is_set c.data_import)) [
        | inl i ↦ rw (e, l, k, i) λ z. absurd (ground (arith, z, i))
        | inr i ↦ absurd (ground (arith, e, l, k, r.sized i))
      ]
    ]
  ]
]

set_keys-Keyed : (c : BenchmarkConfig) (s : Settings) → IsReady c → Keyed c (set_keys c s)
unfolding set_keys
set_keys-Keyed c s r h = rw h (refl, (r.keyed (ground (arith, h))).0)

set_keys-Sized : (c : BenchmarkConfig) (s : Settings) → Sized c s → Sized c (set_keys c s)
unfolding set_keys
set_keys-Sized c s h = elim (Bool-cases (not (is_set c.data_import) || c.generate_keys)) [
  | inl e ↦ rw e h
  | inr e ↦ rw e h
]

set_distribution-Passes :
    (c : BenchmarkConfig) (s : Settings)
    → IsReady c
    → Sized c s
    → Keyed c s
    → Passes (λ t. Sized c t × Keyed c t) (set_distribution c s)
unfolding set_distribution
set_distribution-Passes c s r h k =
    let (p, e, _) = r.key_pattern_known in
    elim (Bool-cases (c.key_stddev == 0 && c.key_median == 0)) [
      | inl z ↦ rw z (h, k)
      | inr z ↦
          rw (z, e)
            (unless-Passes (λ t. Sized c t × Keyed c t)
              (not (first p == b'G') && not (get_or p 2 0 == b'G')) _ _ (ground arith)
              (unless-Passes (λ t. Sized c t × Keyed c t)
                (not (c.key_median == 0)
                  && (ltb c.key_median c.key_minimum || ltb c.key_maximum c.key_median))
                _ (passed (record s { key_distribution = some (c.key_stddev, c.key_median) }))
                (ground arith) (h, k)))
    ]

start-Passes :
    (host : Host) (c : BenchmarkConfig) → IsReady c → Passes (IsConfigured c) (start host c)
unfolding start
start-Passes host c r = bind-Passes Any (IsConfigured c) _ _ (check_system-Passes host c) λ _ _.
    bind-Passes Any (IsConfigured c) _ _ (check_import-Passes host c) λ _ _.
      bind-Passes Any (IsConfigured c) _ _ (check_authenticate-Passes c r) λ _ _.
        bind-Passes Any (IsConfigured c) _ _ (check_select_db-Passes c r) λ _ _.
          bind-Passes Any (IsConfigured c) _ _ (check_offset-Passes c r) λ _ _.
            bind-Passes (Sized c) (IsConfigured c) _ _ (set_size-Passes c _ r) λ s h.
              bind-Passes (λ t. Sized c t × Keyed c t) (IsConfigured c) _ _
                (set_distribution-Passes c _ r (set_keys-Sized c s h) (set_keys-Keyed c s r))
                λ t k. record { sized = k.0; keyed = k.1; expiring = refl }

-- From a command line that is accepted, for a number of clients that does not wrap round to 0 in 32 bits,
-- main sets its defaults without a division by zero. It then reads through no null pointer and never reports
-- that no size was given, whatever the host answers; where it goes on to the runs, a size of the values as
-- it was asked for is set unless they are imported, the prefix and the range of the keys are set wherever
-- keys are generated, and the range of the expiry times is that of the option.
pub start-Starts :
    (strtof : Bytes → ℕ × Bytes) (os : List Opt) (c : BenchmarkConfig) (host : Host)
    → config_parse_args strtof os zero_config ≡ go_on c
    → client_count c % u32_mod ≢ 0
    → (d : BenchmarkConfig) × (config_init_defaults c ≡ some d)
      × IsReady d
      × Passes (IsConfigured d) (start host d)
start-Starts strtof os c host e h =
    let (d, eq, r) =
      config_init_defaults-IsReady c (config_parse_args-IsAccepted strtof os c e) h in
    (d, eq, r, start-Passes host d r)
