-- ===== src/Benchmark/Latency.antt =====
-- process_results of memtier_benchmark.cpp: the latencies of each second of a run.
use memtier_skewsyn.Prelude.{
  ℕ, ◌+◌, ◌-◌, ◌%◌, ◌≤◌, ◌≡◌, ◌||◌, List, [], ◌∷◌, ◌++◌, Option, none, some, ltb, if◌then◌else◌,
  take, drop,
}
use memtier_skewsyn.CLib.{u64_mod}

-- What run_benchmark notes each second: the elements of setIndices, getIndices and timeStamps
pub record Mark : Type 0 where
  pub set_index : ℕ
  pub get_index : ℕ
  pub time_stamp : ℕ

-- A row of the log. The throughputs are written as the numbers of operations that are divided by the duration.
pub record Row (S : Type 0) : Type 0 where
  pub time : ℕ
  pub duration : ℕ
  pub get_stats : S
  pub set_stats : S
  pub get_ops : ℕ
  pub set_ops : ℕ

-- MAX_ENTRIES
abbrev pub max_entries : ℕ
max_entries = 67108864

-- The difference of two uint64_t
abbrev pub minus : ℕ → ℕ → ℕ
minus a b = (a + u64_mod - b) % u64_mod

-- The entries between two indices; one of them where nothing was recorded at all
unfoldable pub entries : ℕ → List ℕ → ℕ → ℕ → List ℕ
entries array_index latencies before now =
    take (if ltb 0 array_index then minus now before else 1) (drop before latencies)

-- computeStatistics of PerfUtils, a library that is linked, is `statistics`. The arrays are the latencies
-- recorded, with their indices.
module _ {S : Type 0} (statistics : List ℕ → S) (get_latencies set_latencies : List ℕ)
    (get_array_index set_array_index : ℕ) where
  abbrev pub row : Mark → Mark → Row S
  row before now = record {
    time = now.time_stamp;
    duration = minus now.time_stamp before.time_stamp;
    get_stats = statistics (entries get_array_index get_latencies before.get_index now.get_index);
    set_stats = statistics (entries set_array_index set_latencies before.set_index now.set_index);
    get_ops = minus now.get_index before.get_index;
    set_ops = minus now.set_index before.set_index;
  }

  -- The loop, behind its first mark
  unfoldable pub rows : Mark → List Mark → List (Row S)
  rows before [] = []
  rows before (now ∷ marks) = row before now ∷ rows now marks

  abbrev pub with_first : ℕ → List (Row S) → List (Row S)
  with_first time [] = []
  with_first time (r ∷ rs) = record r { time = time; duration = 0 } ∷ r ∷ rs

  -- The rows of the log, the first of them twice; `none` where the index is past the end of the arrays, and
  -- the program aborts.
  unfoldable pub process_results : Mark → List Mark → Option (List (Row S))
  unfolding rows
  process_results first marks =
      if ltb max_entries get_array_index || ltb max_entries set_array_index
      then none
      else some (with_first first.time_stamp (rows first marks))

abbrev pub concat : List (List ℕ) → List ℕ
concat [] = []
concat (x ∷ xs) = x ++ concat xs

-- The marks grow, and end at the index `last`.
abbrev pub Grows : (Mark → ℕ) → ℕ → List Mark → ℕ → Type 0
Grows index start [] last = start ≡ last
Grows index start (m ∷ marks) last = (start ≤ index m) × Grows index (index m) marks last

abbrev slices : ℕ → List ℕ → (Mark → ℕ) → ℕ → List Mark → List (List ℕ)
slices array_index latencies index start [] = []
slices array_index latencies index start (m ∷ marks) =
    entries array_index latencies start (index m)
    ∷ slices array_index latencies index (index m) marks

module _ {S : Type 0} (statistics : List ℕ → S) (get_latencies set_latencies : List ℕ)
    (get_array_index set_array_index : ℕ) where
  abbrev log : Mark → List Mark → List (Row S)
  log first marks =
      rows statistics get_latencies set_latencies get_array_index set_array_index first marks
