-- ===== src/Benchmark/Rated.antt =====
-- The schedules that parse_config_file of memtier_benchmark.cpp reads, and the rates of the clients in them.
use memtier_skewsyn.Prelude.{
  ℕ, zero, suc, ◌≡◌, refl, ap, inl, inr, List, [], ◌∷◌, ◌++◌, Option, none, some, Bytes, arith,
  if◌then◌else◌, length, length-replicate, replicate, Option-cases,
}
use mathlib.Core.Path.{subst}
use memtier_skewsyn.CLib.{int_lt}
use memtier_skewsyn.Benchmark.{BenchmarkConfig}
use memtier_skewsyn.Benchmark.Master.{
  Floats, Interval, Schedule, ConfigFile, no_file, unreadable, unset, scheduled, scan_interval,
  read_intervals, first_schedule, others, fill, set_qps, parse_lines, parse_config_file,
}

module _ (fl : Floats) where
  -- The rates that a schedule has: one for the first server thread, and one for each of the others.
  abbrev pub Rated : Schedule fl → Type 0
  Rated s = length s.qps_per_client ≡ suc (others fl s.server_threads)

  abbrev WhenScheduled : (Schedule fl → Type 0) → ConfigFile fl → Type 0
  WhenScheduled P (no_file qps) = Unit
  WhenScheduled P unreadable = Unit
  WhenScheduled P unset = Unit
  WhenScheduled P (scheduled s) = P s

  first_schedule-Rated :
      (n clients : ℕ) (is : List (Interval fl))
      → WhenScheduled Rated (first_schedule fl n clients is)
  first_schedule-Rated n clients [] = tt
  first_schedule-Rated n clients (i ∷ is) = ap suc (length-replicate (others fl n) _)

  read_intervals-Rated :
      (n : ℕ) (buffers : List Bytes) (found : List (Interval fl)) (threads clients : ℕ)
      → WhenScheduled Rated (read_intervals fl n buffers found (first_schedule fl threads clients))
  read_intervals-Rated zero buffers found threads clients =
      first_schedule-Rated threads clients found
  read_intervals-Rated (suc n) [] found threads clients = tt
  read_intervals-Rated (suc n) (b ∷ buffers) found threads clients =
      elim (Option-cases (scan_interval fl b)) [
        | inl e ↦ rw (e, WhenScheduled) tt
        | inr (i, e) ↦
            rw (e, WhenScheduled)
              (read_intervals-Rated n buffers (found ++ (i ∷ [])) threads clients)
      ]

  parse_lines-Rated :
      (lines : List Bytes) (c : BenchmarkConfig) → WhenScheduled Rated (parse_lines fl lines c)
  unfolding parse_lines
  parse_lines-Rated [] c = tt
  parse_lines-Rated (header ∷ buffers) c = read_intervals-Rated _ buffers [] _ _

  pub parse_config_file-Rated :
      (file : Option (List Bytes)) (c : BenchmarkConfig) (s : Schedule fl)
      → parse_config_file fl file c ≡ scheduled s
      → Rated s
  unfolding parse_config_file
  parse_config_file-Rated file c s e = subst (WhenScheduled Rated) e (both c.config_file file)
    where
      both :
          (name : Option Bytes) (file : Option (List Bytes))
          → WhenScheduled Rated (elim name [
            | none ↦ no_file (
                replicate
                  (if int_lt 0 c.server_threads then c.server_threads else 0)
                  fl.zero_double)
            | some _ ↦ elim file [ none ↦ unreadable | some lines ↦ parse_lines fl lines c ]
          ])
      both none file = tt
      both (some _) none = tt
      both (some _) (some lines) = parse_lines-Rated lines c

  fill-length :
      (n : ℕ) (q : fl.D) (qs : List fl.D)
      → length qs ≡ n
      → (rest : List fl.D) × (fill fl n q qs ≡ some rest) × (length rest ≡ n)
  fill-length zero q qs h = (qs, refl, h)
  fill-length (suc n) q [] h = absurd (omega (arith, h))
  fill-length (suc n) q (x ∷ qs) h =
      let (rest, e, l) = fill-length n q qs (omega (arith, h)) in (q ∷ rest, rw e refl, ap suc l)

  pub set_qps-length :
      (clients n : ℕ) (s : Schedule fl)
      → length s.qps_per_client ≡ suc (others fl n)
      → (qps : List fl.D) × (set_qps fl clients n s ≡ some qps) × (length qps ≡ suc (others fl n))
  set_qps-length clients n s h = lengths s.qps_per_client h refl
    where
      lengths :
          (qs : List fl.D)
          → length qs ≡ suc (others fl n)
          → s.qps_per_client ≡ qs
          → (qps : List fl.D) × (set_qps fl clients n s ≡ some qps)
            × (length qps ≡ suc (others fl n))
      lengths [] h e = absurd (omega (arith, h))
      lengths (q ∷ qs) h e =
          let (rest, f, l) =
            fill-length (others fl n) (fl.other_qps s.goal s.skew n clients) qs
              (omega (arith, h)) in
          (fl.first_qps s.goal s.skew n clients ∷ rest, rw (e, set_qps, f) refl, ap suc l)
