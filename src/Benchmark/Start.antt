-- ===== src/Benchmark/Start.antt =====
-- main of memtier_benchmark.cpp between the options and the runs: the checks of options against each other,
-- the limit on open files, and the settings of the object generator.
use memtier_skewsyn.Prelude.{
  ℕ, ◌+◌, ◌-◌, ◌*◌, ◌^◌, Bool, false, not, ◌&&◌, ◌||◌, [], ◌∷◌, Option, none, some, Bytes, codes,
  bytes_eq, ltb, ◌==◌, if◌then◌else◌, get_or,
}
use memtier_skewsyn.CLib.{to_u32, int_lt, first}
use memtier_skewsyn.Config.{range_is_defined, list_is_defined}
use memtier_skewsyn.ObjGen.{DataSize, size_fixed, size_range, size_list}
use memtier_skewsyn.Benchmark.{BenchmarkConfig, is_set}

-- What main is told from outside: the limit on open files, the user, and whether the calls of the system
-- succeed.
pub record Host : Type 0 where
  pub rlim_cur : ℕ
  pub rlim_max : ℕ
  pub is_root : Bool
  pub getrlimit_succeeds : Bool
  pub setrlimit_succeeds : Bool
  pub server_resolves : Bool
  pub keys_are_read : Bool
  pub file_opens : Bool

-- The messages behind which main exits: by exit(1), and those that show the usage.
pub data Failure : Type 0 where
  getrlimit_failed socket_and_tcp unresolved needs_root setrlimit_failed verify_needs_import :
      Failure
  expiry_needs_import size_with_import random_with_import keys_with_import unread_keys : Failure
  unopened_import : Failure
  authenticate_protocol credentials_form select_db_protocol offset_too_long offset_misused : Failure
  size_twice list_and_range size_missing distribution_without_g median_outside : Failure

-- The calls of setters on obj_gen; one that is not made is `none`.
pub record Settings : Type 0 where
  pub random_data : Option Bool
  pub data_size : Option DataSize
  pub data_size_pattern : Option Bytes
  pub key_prefix : Option Bytes
  pub key_range : Option (ℕ × ℕ)
  pub key_distribution : Option (ℕ × ℕ)
  pub expiry_range : ℕ × ℕ

abbrev pub no_settings : Settings
no_settings = record {
  random_data = none;
  data_size = none;
  data_size_pattern = none;
  key_prefix = none;
  key_range = none;
  key_distribution = none;
  expiry_range = (0, 0);
}

-- How a part of main ends: it goes on, fails with a message, or reads through a null pointer.
pub data Checked (A : Type 0) : Type 0 where
  passed : A → Checked A
  failed : Failure → Checked A
  crashed : Checked A

infix 20 ◌>>=◌
abbrev pub ◌>>=◌ : {A B : Type 0} → Checked A → (A → Checked B) → Checked B
passed a >>= f = f a
failed e >>= f = failed e
crashed >>= f = crashed

-- An error message under a test, in front of what follows
abbrev pub unless : {A : Type 0} → Bool → Failure → Checked A → Checked A
unless bad e next = if bad then failed e else next

-- The string that a pointer is read as
abbrev pub read : Option Bytes → Checked Bytes
read none = crashed
read (some s) = passed s

-- unsigned int fds_needed
unfoldable pub fds_needed : BenchmarkConfig → ℕ
fds_needed c = to_u32 (to_u32 (c.threads * c.clients) + to_u32 (c.threads * 10) + 10)

-- The limit on open files and the address
unfoldable pub check_system : Host → BenchmarkConfig → Checked Unit
unfolding fds_needed
check_system host c = unless (not host.getrlimit_succeeds) getrlimit_failed (
    unless (is_set c.unix_socket && (is_set c.server || ltb 0 c.port)) socket_and_tcp (
      unless ((is_set c.server && ltb 0 c.port) && not host.server_resolves) unresolved (
        if not (ltb host.rlim_cur (fds_needed c))
        then passed tt
        else unless (ltb host.rlim_max (fds_needed c) && not host.is_root) needs_root
            (unless (not host.setrlimit_succeeds) setrlimit_failed (passed tt)))))

-- The kind of object generator
unfoldable pub check_import : Host → BenchmarkConfig → Checked Unit
check_import host c =
    if not (is_set c.data_import)
    then unless c.data_verify verify_needs_import
        (unless c.no_expiry expiry_needs_import (passed tt))
    else unless
        (not (c.data_size == 0)
          || (list_is_defined c.data_size_list || range_is_defined c.data_size_range))
        size_with_import
        (unless c.random_data random_with_import (
          unless
            (not c.generate_keys
              && (not (c.key_maximum == 0) || (not (c.key_minimum == 0) || is_set c.key_prefix)))
            keys_with_import
            (unless (not c.generate_keys && not host.keys_are_read) unread_keys
              (unless (not host.file_opens) unopened_import (passed tt)))))

abbrev pub has_colon : Bytes → Bool
has_colon [] = false
has_colon (c ∷ cs) = c == b':' || has_colon cs

-- The options of one protocol only
unfoldable pub check_authenticate : BenchmarkConfig → Checked Unit
check_authenticate c = elim c.authenticate [
  | none ↦ passed tt
  | some credentials ↦ read c.protocol >>= λ protocol.
      unless
        (not (bytes_eq protocol (codes "redis"))
          && not (bytes_eq protocol (codes "memcache_binary")))
        authenticate_protocol
        (unless (bytes_eq protocol (codes "memcache_binary") && not (has_colon credentials))
          credentials_form (passed tt))
]

unfoldable pub check_select_db : BenchmarkConfig → Checked Unit
check_select_db c =
    if not (int_lt 0 c.select_db)
    then passed tt
    else read c.protocol >>= λ protocol.
        unless (not (bytes_eq protocol (codes "redis"))) select_db_protocol (passed tt)

unfoldable pub check_offset : BenchmarkConfig → Checked Unit
check_offset c =
    if c.data_offset == 0
    then passed tt
    else unless (ltb (2 ^ 29 - 1) c.data_offset) offset_too_long (
        if not (c.expiry_range.min == 0) || not (c.expiry_range.max == 0)
        then failed offset_misused
        else read c.protocol >>= λ protocol.
            unless (not (bytes_eq protocol (codes "redis"))) offset_misused (passed tt))

-- The size of the values
unfoldable pub set_size : BenchmarkConfig → Settings → Checked Settings
set_size c s =
    if not (c.data_size == 0)
    then unless (list_is_defined c.data_size_list || range_is_defined c.data_size_range) size_twice
        (passed (record s { data_size = some (size_fixed c.data_size) }))
    else if list_is_defined c.data_size_list
    then unless (range_is_defined c.data_size_range) list_and_range
        (passed (record s { data_size = some (size_list c.data_size_list) }))
    else if range_is_defined c.data_size_range
    then passed (record s {
      data_size = some (size_range c.data_size_range.min c.data_size_range.max);
      data_size_pattern = c.data_size_pattern;
    })
    else unless (not (is_set c.data_import)) size_missing (passed s)

-- The keys; set_key_prefix keeps the pointer.
unfoldable pub set_keys : BenchmarkConfig → Settings → Settings
set_keys c s =
    if not (is_set c.data_import) || c.generate_keys
    then record s { key_prefix = c.key_prefix; key_range = some (c.key_minimum, c.key_maximum) }
    else s

-- The distribution of the keys; the doubles are whole numbers below 2 ^ 32, so that their comparison with
-- the keys is exact.
unfoldable pub set_distribution : BenchmarkConfig → Settings → Checked Settings
set_distribution c s =
    if c.key_stddev == 0 && c.key_median == 0
    then passed s
    else read c.key_pattern >>= λ pattern.
        unless (not (first pattern == b'G') && not (get_or pattern 2 0 == b'G'))
          distribution_without_g
          (unless
            (not (c.key_median == 0)
              && (ltb c.key_median c.key_minimum || ltb c.key_maximum c.key_median))
            median_outside
            (passed (record s { key_distribution = some (c.key_stddev, c.key_median) })))

-- From the limit on open files to the settings of obj_gen
unfoldable pub start : Host → BenchmarkConfig → Checked Settings
unfolding check_system check_import check_authenticate check_select_db check_offset set_size
    set_keys set_distribution
start host c = check_system host c >>= λ _. check_import host c >>= λ _.
    check_authenticate c >>= λ _. check_select_db c >>= λ _. check_offset c >>= λ _.
    set_size c (record no_settings {
      random_data = if is_set c.data_import then none else some c.random_data;
    })
    >>= λ s. set_distribution c (set_keys c s) >>= λ s1.
        passed (record s1 { expiry_range = (c.expiry_range.min, c.expiry_range.max) })
