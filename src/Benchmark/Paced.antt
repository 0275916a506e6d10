-- ===== src/Benchmark/Paced.antt =====
-- The rounds of start_master: none leaves the arrays, and the last comes no sooner than the schedule is over.
use memtier_skewsyn.Prelude.{
  ℕ, zero, suc, ◌+◌, ◌^◌, ◌<◌, ◌≤◌, ◌≡◌, ◌≢◌, ==_iff, ltb→lt, refl, ap, ◌∙◌, inl, inr, false, List,
  [], ◌∷◌, Option, some, Bytes, arith, tests, ltb, ◌==◌, length, get_elem?, get_elem?-some,
  get_elem?_lt, All, Bool-cases,
}
use mathlib.Core.Path.{subst}
use memtier_skewsyn.Benchmark.{BenchmarkConfig}
use memtier_skewsyn.Benchmark.Master.{
  Floats, Interval, Schedule, scheduled, parse_config_file, Master, Round, goes_on, breaks, outside,
  master_round, Runs, starts, passes, first_state,
}
use memtier_skewsyn.Benchmark.Rated.{Rated, parse_config_file-Rated, set_qps-length}

module _ (fl : Floats) where
  -- The cycles that the first k intervals take
  abbrev pub spent : (ℕ → ℕ) → ℕ → List (Interval fl) → ℕ
  spent cycles zero is = 0
  spent cycles (suc k) [] = 0
  spent cycles (suc k) (i ∷ is) = cycles i.time_to_run + spent cycles k is

  spent-suc :
      (cycles : ℕ → ℕ) (k : ℕ) (is : List (Interval fl)) (i : Interval fl)
      → get_elem? is k ≡ some i
      → spent cycles (suc k) is ≡ spent cycles k is + cycles i.time_to_run
  spent-suc cycles k [] i e = absurd (cc)
  spent-suc cycles zero (j ∷ is) i e =
      let first : j ≡ i = cc e in
      omega (arith, ap (λ (x : Interval fl). cycles x.time_to_run) first)
  spent-suc cycles (suc k) (j ∷ is) i e = omega (arith, spent-suc cycles k is i e)

  differ : (a b : ℕ) → (a == b) ≡ false → a ≢ b
  differ a b h = ground arith

  All-get_elem? :
      (P : Interval fl → Type 0) (xs : List (Interval fl)) (k : ℕ) (x : Interval fl)
      → All P xs
      → get_elem? xs k ≡ some x
      → P x
  All-get_elem? P [] k x h e = absurd (cc)
  All-get_elem? P (y ∷ xs) zero x h e = let same : y ≡ x = cc e in subst P same h.0
  All-get_elem? P (y ∷ xs) (suc k) x h e = All-get_elem? P xs k x h.1 e

  module _ (cycles : ℕ → ℕ) (clients begin : ℕ) (is : List (Interval fl)) where
    -- Times that are far enough from the greatest uint64_t
    abbrev pub IsEarly : ℕ → Type 0
    IsEarly n = n < 2 ^ 63

    abbrev pub AreShort : Type 0
    AreShort = All (λ i. cycles i.time_to_run < 2 ^ 63) is

    record IsRunning (m : Master fl) : Type 0 where
      same : m.schedule.intervals ≡ is
      inside : m.current_interval < length is
      rated : Rated fl m.schedule
      paced : begin + spent cycles (suc m.current_interval) is ≤ m.next_interval_time

    -- The loop goes on with an interval of the schedule, or breaks when all of it is over.
    abbrev pub IsPaced : ℕ → Round fl → Type 0
    IsPaced now (goes_on m) = m.current_interval < length is
    IsPaced now (breaks m) = begin + spent cycles (length is) is < now
    IsPaced now outside = ¬ Unit

    abbrev Keeps : ℕ → Round fl → Type 0
    Keeps now (goes_on m) = IsRunning m
    Keeps now (breaks m) = begin + spent cycles (length is) is < now
    Keeps now outside = ¬ Unit

    master_round-Keeps :
        (now : ℕ) (m : Master fl)
        → AreShort
        → IsEarly now
        → IsRunning m
        → Keeps now (master_round fl cycles clients now m)
    unfolding master_round
    master_round-Keeps now m short early r = elim (Bool-cases (ltb m.next_interval_time now)) [
      | inr e ↦ rw (e, Keeps) r
      | inl e ↦ elim (Bool-cases (suc m.current_interval == length m.schedule.intervals)) [
        | inl k ↦
            rw (e, k, Keeps)
              (let over : suc m.current_interval ≡ length is =
                  omega (arith, (==_iff _ _).0 k, ap length r.same) in
                omega (
                  tests,
                  ltb→lt _ _ e,
                  subst (λ n. begin + spent cycles n is ≤ m.next_interval_time) over r.paced,
                ))
        | inr k ↦
            let next : suc m.current_interval < length is =
              omega (arith, differ _ _ k, ap length r.same, r.inside) in
            let (i, g) = get_elem?-some is (suc m.current_interval) next in
            let found : get_elem? m.schedule.intervals (suc m.current_interval) ≡ some i =
              ap (λ l. get_elem? l (suc m.current_interval)) r.same ∙ g in
            let s : Schedule fl = record m.schedule {
              goal = i.requests_per_second;
              skew = i.skew_factor;
            } in
            let (qps, f, l) = set_qps-length fl clients m.schedule.server_threads s r.rated in
            rw (e, k, found, f, Keeps)
              (record {
                same = r.same;
                inside = next;
                rated = l;
                paced = omega (
                  tests,
                  ltb→lt _ _ e,
                  r.paced,
                  spent-suc cycles (suc m.current_interval) is i g,
                  All-get_elem? _ is _ i short g,
                  early,
                );
              })
      ]
    ]

    Runs-IsRunning :
        (m n : Master fl) (clocks : List ℕ)
        → AreShort
        → All IsEarly clocks
        → IsRunning m
        → Runs fl cycles clients m clocks n
        → IsRunning n
    Runs-IsRunning _ _ [] short early r (starts m) = r
    Runs-IsRunning _ _ _ short early r (passes m n p clocks now run e) =
        subst (Keeps now) e
          (master_round-Keeps now n short early.0 (Runs-IsRunning m n clocks short early.1 r run))

    Keeps-IsPaced : (now : ℕ) (o : Round fl) → Keeps now o → IsPaced now o
    Keeps-IsPaced now (goes_on m) r = r.inside
    Keeps-IsPaced now (breaks m) h = h
    Keeps-IsPaced now outside h = h

  -- Take a schedule that parse_config_file has read and that has an interval, clocks before 2^63 cycles and
  -- intervals shorter than that. Whatever the clocks that start_master reads in the rounds of its loop, no
  -- round reads outside of the intervals or writes outside of qpsPerClient, a round that goes on is in an
  -- interval of the schedule, and the loop breaks only at a clock that lies behind its start by more than
  -- the cycles of all intervals together.
  pub start_master-IsPaced :
      (cycles : ℕ → ℕ) (clients begin : ℕ) (file : Option (List Bytes)) (c : BenchmarkConfig)
      (s : Schedule fl) (i : Interval fl) (m : Master fl) (now : ℕ) (clocks : List ℕ)
      → parse_config_file fl file c ≡ scheduled s
      → get_elem? s.intervals 0 ≡ some i
      → AreShort cycles clients begin s.intervals
      → begin < 2 ^ 63
      → All (λ t. t < 2 ^ 63) (now ∷ clocks)
      → Runs fl cycles clients (first_state fl cycles begin s i) clocks m
      → IsPaced cycles clients begin s.intervals now (master_round fl cycles clients now m)
  start_master-IsPaced cycles clients begin file c s i m now clocks e f short small (early, more)
        run =
      Keeps-IsPaced cycles clients begin s.intervals now _ (
        master_round-Keeps cycles clients begin s.intervals now m short early (
          Runs-IsRunning cycles clients begin s.intervals (first_state fl cycles begin s i) m clocks
            short more
            (record {
              same = refl;
              inside = get_elem?_lt s.intervals 0 i f;
              rated = parse_config_file-Rated fl file c s e;
              paced = omega (
                arith,
                spent-suc cycles 0 s.intervals i f,
                All-get_elem? (λ j. cycles j.time_to_run < 2 ^ 63) s.intervals 0 i short f,
                small,
              );
            })
            run))
