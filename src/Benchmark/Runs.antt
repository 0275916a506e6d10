-- ===== src/Benchmark/Runs.antt =====
-- main of memtier_benchmark.cpp behind several runs: the best run and the worst.
use memtier_skewsyn.Prelude.{
  ℕ, suc, ◌+◌, ◌<◌, ◌≤◌, ◌≡◌, refl, sym, ◌≢◌, ◌⊎◌, inl, inr, Bool, true, false, ◌||◌, List, [], ◌∷◌,
  Option, none, some, arith, tests, length, ltb, if◌then◌else◌, map, get_elem?,
}
use mathlib.Core.Path.{subst}
use memtier_skewsyn.CLib.{minus_one, to_u32}

-- min_ops_sec, max_ops_sec, and the numbers of the runs that worst and best point at
pub record Extremes : Type 0 where
  pub min_ops_sec : ℕ
  pub max_ops_sec : ℕ
  pub worst : Option ℕ
  pub best : Option ℕ

abbrev is_null : Option ℕ → Bool
is_null none = true
is_null (some _) = false

abbrev start : Extremes
start = record { min_ops_sec = minus_one; max_ops_sec = 0; worst = none; best = none }

-- One round of the loop, for the run number `run`
unfoldable pub compare_run : ℕ → ℕ → Extremes → Extremes
compare_run run ops_sec e =
    let lower = ltb ops_sec e.min_ops_sec || is_null e.worst in
    let higher = ltb e.max_ops_sec ops_sec || is_null e.best in
    record {
      min_ops_sec = if lower then ops_sec else e.min_ops_sec;
      worst = if lower then some run else e.worst;
      max_ops_sec = if higher then ops_sec else e.max_ops_sec;
      best = if higher then some run else e.best;
    }

unfoldable pub compare_runs : ℕ → List ℕ → Extremes → Extremes
compare_runs run [] e = e
compare_runs run (ops_sec ∷ rest) e = compare_runs (suc run) rest (compare_run run ops_sec e)

-- The loop over the runs, each by its operations and its duration. The rate is computed with doubles: `rate`
-- is the value of that expression, converted to unsigned int.
unfoldable pub extremes : (ℕ → ℕ → ℕ) → List (ℕ × ℕ) → Extremes
unfolding compare_runs
extremes rate runs =
    compare_runs 0 (map (λ r. to_u32 (rate r.0 (if ltb 0 r.1 then r.1 else 1))) runs) start

add_zero : (n : ℕ) → n + 0 ≡ n
add_zero n = omega arith

plus_one : (n : ℕ) → 1 + n ≡ suc n
plus_one n = omega arith

add_suc : (n k : ℕ) → n + suc k ≡ suc n + k
add_suc n k = omega arith

nat_eq_or_ne : (a b : ℕ) → (a ≡ b) ⊎ (a ≢ b)
nat_eq_or_ne a b = ground arith

-- The run `which` has the value v, and no run before the number `run` lies beyond it.
pub record IsEnd (R : ℕ → ℕ → Type 0) (all : List ℕ) (run : ℕ) (which : Option ℕ) (v : ℕ)
    : Type 0 where
  pub place : ℕ
  pub known : which ≡ some place
  pub value : get_elem? all place ≡ some v
  pub bound : (i x : ℕ) → i < run → get_elem? all i ≡ some x → R v x

-- What a round makes of one end, `b` being the test whether the run is taken for it
module _ (R : ℕ → ℕ → Type 0) (R_refl : (n : ℕ) → R n n) (all : List ℕ) (run x : ℕ)
    (here : get_elem? all run ≡ some x) where
  same_place : (i y : ℕ) → i ≡ run → get_elem? all i ≡ some y → x ≡ y
  same_place i y eq e = cc (eq, e, here)

  compared-IsEnd :
      (b : Bool) (which : Option ℕ) (v : ℕ)
      → (b ≡ true → (i y : ℕ) → i < run → get_elem? all i ≡ some y → R x y)
      → (b ≡ false → IsEnd R all run which v × R v x)
      → IsEnd R all (suc run) (if b then some run else which) (if b then x else v)
  compared-IsEnd true which v taken kept = record {
    place = run;
    known = refl;
    value = here;
    bound = λ i y lt e. elim (nat_eq_or_ne i run) [
      | inl eq ↦ subst (R x) (same_place i y eq e) (R_refl x)
      | inr ne ↦ taken refl i y (omega (arith, lt, ne)) e
    ];
  }
  compared-IsEnd false which v taken kept =
      let (end, beyond) = kept refl in
      record {
        place = end.place;
        known = end.known;
        value = end.value;
        bound = λ i y lt e. elim (nat_eq_or_ne i run) [
          | inl eq ↦ subst (R v) (same_place i y eq e) beyond
          | inr ne ↦ end.bound i y (omega (arith, lt, ne)) e
        ];
      }

abbrev pub Least : List ℕ → ℕ → Extremes → Type 0
Least all run e = IsEnd (λ v x. v ≤ x) all run e.worst e.min_ops_sec

abbrev pub Greatest : List ℕ → ℕ → Extremes → Type 0
Greatest all run e = IsEnd (λ v x. x ≤ v) all run e.best e.max_ops_sec

taken_test : (b : Bool) (o : Option ℕ) (p : ℕ) → o ≡ some p → (b || is_null o) ≡ true → b ≡ true
taken_test b o p k t = ground arith

kept_test : (b : Bool) (o : Option ℕ) → (b || is_null o) ≡ false → (b ≡ false) × (o ≢ none)
kept_test b o f = ground arith

compare_run-Least :
    (all : List ℕ) (run x : ℕ) (e : Extremes)
    → get_elem? all run ≡ some x
    → ((run ≡ 0) × (e.worst ≡ none)) ⊎ Least all run e
    → Least all (suc run) (compare_run run x e)
unfolding compare_run
compare_run-Least all run x e here h =
    compared-IsEnd (λ v y. v ≤ y) (λ n. omega arith) all run x here
      (ltb x e.min_ops_sec || is_null e.worst) e.worst e.min_ops_sec
      (λ t i y lt g. elim h [
        | inl (z, _) ↦ absurd (omega (arith, z, lt))
        | inr l ↦ omega (tests, taken_test _ e.worst l.place l.known t, l.bound i y lt g)
      ])
      λ f. elim h [
        | inl (_, n) ↦ absurd ((kept_test _ e.worst f).1 n)
        | inr l ↦ (l, ground (arith, (kept_test _ e.worst f).0))
      ]

compare_run-Greatest :
    (all : List ℕ) (run x : ℕ) (e : Extremes)
    → get_elem? all run ≡ some x
    → ((run ≡ 0) × (e.best ≡ none)) ⊎ Greatest all run e
    → Greatest all (suc run) (compare_run run x e)
unfolding compare_run
compare_run-Greatest all run x e here h =
    compared-IsEnd (λ v y. y ≤ v) (λ n. omega arith) all run x here
      (ltb e.max_ops_sec x || is_null e.best) e.best e.max_ops_sec
      (λ t i y lt g. elim h [
        | inl (z, _) ↦ absurd (omega (arith, z, lt))
        | inr l ↦ omega (tests, taken_test _ e.best l.place l.known t, l.bound i y lt g)
      ])
      λ f. elim h [
        | inl (_, n) ↦ absurd ((kept_test _ e.best f).1 n)
        | inr l ↦ (l, ground (arith, (kept_test _ e.best f).0))
      ]

-- The loop from the run number `run`, where `rest` is what is left of the list
compare_runs-Ends :
    (all rest : List ℕ) (run : ℕ) (e : Extremes)
    → ((k : ℕ) → get_elem? all (run + k) ≡ get_elem? rest k)
    → Least all run e × Greatest all run e
    → let r = compare_runs run rest e in
      Least all (run + length rest) r × Greatest all (run + length rest) r
unfolding compare_runs
compare_runs-Ends all [] run e same h = rw (add_zero run) h
compare_runs-Ends all (x ∷ rest) run e same (l, g) =
    let here : get_elem? all run ≡ some x = rw (sym (add_zero run)) (same 0) in
    rw (add_suc run (length rest)) (
      compare_runs-Ends all rest (suc run) (compare_run run x e)
        (λ k. rw (sym (add_suc run k)) (same (suc k)))
        (compare_run-Least all run x e here (inr l), compare_run-Greatest all run x e here (inr g)))

-- The rates that are compared
abbrev pub rates : (ℕ → ℕ → ℕ) → List (ℕ × ℕ) → List ℕ
rates rate runs = map (λ r. to_u32 (rate r.0 (if ltb 0 r.1 then r.1 else 1))) runs

-- Behind at least one run, worst and best point at a run each; the rate of worst is min_ops_sec, and no run
-- has a lower one; that of best is max_ops_sec, and no run has a higher one.
pub extremes-Ends :
    (rate : ℕ → ℕ → ℕ) (r : ℕ × ℕ) (runs : List (ℕ × ℕ))
    → let all = rates rate (r ∷ runs) in
      let e = extremes rate (r ∷ runs) in Least all (length all) e × Greatest all (length all) e
unfolding extremes compare_runs
extremes-Ends rate r runs =
    let all = rates rate (r ∷ runs) in
    rw (sym (plus_one (length (rates rate runs)))) (
      compare_runs-Ends all (rates rate runs) 1 (compare_run 0 _ start) (λ k. rw (plus_one k) refl)
        (
          compare_run-Least all 0 _ start refl (inl (refl, refl)),
          compare_run-Greatest all 0 _ start refl (inl (refl, refl)),
        ))
