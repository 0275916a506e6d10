-- ===== src/Client/Responses/Counts.antt =====
-- What the arrays of latencies hold, and when they overrun.
use memtier_skewsyn.Prelude.{
  ℕ, zero, suc, ◌+◌, ◌-◌, ◌%◌, ◌^◌, ◌<◌, ◌≤◌, ◌≡◌, refl, sym, ap, ◌∙◌, inl, inr, true, false, List,
  [], ◌∷◌, ◌++◌, append_assoc, append-nil, some, arith, ltb, ◌==◌, Bool-cases, length, length-set,
  set, take,
}
use memtier_skewsyn.CLib.{u32_mod}
use memtier_skewsyn.Client.Responses.{Latencies, Recorded, recorded, death, overrun, record_latency}

take-set :
    {A : Type 0} (xs : List A) (i : ℕ) (v : A)
    → i < length xs
    → take (suc i) (set xs i v) ≡ take i xs ++ (v ∷ [])
take-set [] i v h = elim h [ ]
take-set (x ∷ xs) zero v h = refl
take-set (x ∷ xs) (suc i) v h = ap (◌∷◌ x) (take-set xs i v (omega arith))

module _ (max_entries : ℕ) (small : max_entries < 2 ^ 32 - 1) where
  abbrev and_all : (Latencies → Recorded) → Recorded → Recorded
  and_all f (recorded l) = f l
  and_all f death = death
  and_all f overrun = overrun

  -- The latencies of one response after the other
  unfoldable pub record_all : List ℕ → Latencies → Recorded
  record_all [] l = recorded l
  record_all (x ∷ xs) l = and_all (record_all xs) (record_latency max_entries x l)

  abbrev pub array_at : List ℕ → ℕ → Latencies
  array_at array index = record { latencies = some array; array_index = index }

  record_one :
      (array : List ℕ) (x i : ℕ)
      → length array ≡ max_entries
      → i < max_entries
      → record_latency max_entries x (array_at array i)
        ≡ recorded (array_at (set array i x) (suc i))
  unfolding record_latency
  record_one array x i e lt =
      rw
        (
          let z : ltb max_entries i ≡ false = ground arith in z,
          let z : ltb i (length array) ≡ true = ground (arith, e) in z,
          let z : (i + 1) % u32_mod ≡ suc i = omega (arith, small, lt) in z,
        )
        refl

  record_end :
      (array : List ℕ) (x : ℕ)
      → length array ≡ max_entries
      → record_latency max_entries x (array_at array max_entries) ≡ overrun
  unfolding record_latency
  record_end array x e =
      rw
        (
          let z : ltb max_entries max_entries ≡ false = ground arith in z,
          let z : ltb max_entries (length array) ≡ false = ground (arith, e) in z,
        )
        refl

  i0 : (i : ℕ) → i + 0 ≡ i
  i0 i = omega arith

  Fills : List ℕ → ℕ → List ℕ → Type 0
  Fills array i xs =
      (stored : List ℕ) × (record_all xs (array_at array i)
        ≡ recorded (array_at stored (i + length xs)))
      × (take (i + length xs) stored ≡ take i array ++ xs)

  fills :
      (array : List ℕ) (i : ℕ) (xs : List ℕ)
      → length array ≡ max_entries
      → i + length xs ≤ max_entries
      → Fills array i xs
  unfolding record_all Fills
  fills array i [] e le = (array, rw (i0 i) refl, rw (i0 i, append-nil (take i array)) refl)
  fills array i (x ∷ xs) e le =
      let (stored, all, holds) =
        fills (set array i x) (suc i) xs (length-set array i x ∙ e) (omega (arith, le)) in
      let n : suc i + length xs ≡ i + length (x ∷ xs) = omega arith in
      (
        stored,
        rw (record_one array x i e (omega (arith, le)))
            (all ∙ ap (λ k. recorded (array_at stored k)) n),
        ap (λ k. take k stored) (sym n)
            ∙ holds
            ∙ ap (λ l. l ++ xs) (take-set array i x (omega (arith, e, le)))
            ∙ append_assoc (take i array) (x ∷ []) xs,
      )

  overruns :
      (array : List ℕ) (i : ℕ) (xs : List ℕ)
      → length array ≡ max_entries
      → i ≤ max_entries
      → max_entries < i + length xs
      → record_all xs (array_at array i) ≡ overrun
  unfolding record_all
  overruns array i [] e le lt = absurd (omega arith)
  overruns array i (x ∷ xs) e le lt = elim (Bool-cases (i == max_entries)) [
    | inl f ↦ let z : i ≡ max_entries = ground arith in rw (z, record_end array x e) refl
    | inr f ↦ rw (record_one array x i e (ground arith)) (
        overruns (set array i x) (suc i) xs (length-set array i x ∙ e) (ground arith)
          (omega (arith, lt)))
  ]

  -- An array of MAX_ENTRIES latencies, fewer than the index can count, takes as many: they then stand in it from its
  -- start, in their order. Where there are more, the first that does not fit is written past the end of the array,
  -- since the guard, which is to end the program before that, lets the index MAX_ENTRIES pass.
  pub record_all-fills :
      (array xs : List ℕ)
      → length array ≡ max_entries
      → (length xs ≤ max_entries
          → (stored : List ℕ) × (record_all xs (array_at array 0)
              ≡ recorded (array_at stored (length xs)))
            × (take (length xs) stored ≡ xs))
        × (max_entries < length xs → record_all xs (array_at array 0) ≡ overrun)
  unfolding Fills
  record_all-fills array xs e =
      let n : 0 + length xs ≡ length xs = omega arith in
      (
        (λ le.
            let (stored, all, holds) = fills array 0 xs e (omega (arith, le)) in
            (
              stored,
              all ∙ ap (λ k. recorded (array_at stored k)) n,
              ap (λ k. take k stored) (sym n) ∙ holds,
            )),
        (λ lt. overruns array 0 xs e (omega arith) (omega (arith, lt))),
      )
