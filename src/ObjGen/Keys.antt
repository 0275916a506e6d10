-- ===== src/ObjGen/Keys.antt =====
-- The key iterators of object_generator.
use memtier_skewsyn.Prelude.{
  ℕ, zero, suc, ◌+◌, ◌-◌, ◌%◌, ◌<◌, ◌≤◌, ◌≡◌, ◌≢◌, ◌⊎◌, ◌*◌, true, refl, sym, ap, ◌∙◌, false, inl,
  inr, List, [], ◌∷◌, Option, none, some, arith, ltb, leb, ◌==◌, if◌then◌else◌, Bool-cases,
  turn_mod, mod-lt, mod-eq_of_lt, length, set, length-set, All,
}
use mathlib.Core.Path.{subst}
use memtier_skewsyn.CLib.{u64_mod}
use memtier_skewsyn.ObjGen.{
  Outside, Generator, Iter, key_random, key_gaussian, key_iter, key_iterators, next_key, key_after,
  random_range, get_random, get_key_index, gaussian_distribution_range, twice_median,
}
use memtier_skewsyn.ObjGen.Cycle.{get_or-set_self, get_or-set_ne, after_key, after_key_lem}

-- How many of the calls are of iterator i.
abbrev pub count_calls : ℕ → List Iter → ℕ
count_calls i [] = 0
count_calls i (key_random ∷ calls) = count_calls i calls
count_calls i (key_gaussian ∷ calls) = count_calls i calls
count_calls i (key_iter j ∷ calls) =
    if j == i then suc (count_calls i calls) else count_calls i calls

module _ (out : Outside) where
  abbrev span : Generator out → ℕ
  span g = g.m_key_max - g.m_key_min + 1

  -- The range of the keys, in an unsigned long long.
  pub record IsRange (g : Generator out) : Type 0 where
    pub ordered : g.m_key_min ≤ g.m_key_max
    pub bounded : g.m_key_max < u64_mod

  key_after_lem :
      (g : Generator out) (k c : ℕ)
      → IsRange g
      → k ≡ g.m_key_min + c % span g
      → (let n = key_after out k g in if ltb n g.m_key_min then g.m_key_min else n)
        ≡ g.m_key_min + suc c % span g
  unfolding after_key
  key_after_lem g k c r e =
      ap (after_key g.m_key_min g.m_key_max) e
      ∙ after_key_lem g.m_key_min g.m_key_max (c % span g) r.ordered r.bounded
          (mod-lt c (omega arith))
      ∙ ap (◌+◌ g.m_key_min) (turn_mod c (span g) (omega arith))

  abbrev generator_of : Option (ℕ × Generator out) → Option (Generator out)
  generator_of none = none
  generator_of (some (k, g)) = some g

  abbrev call_of : Iter → Option (Generator out) → Option (Generator out)
  call_of iter none = none
  call_of iter (some g) = generator_of (get_key_index out iter g)

  -- The generator after calls of get_key_index, the last call first in the list.
  unfoldable pub key_calls : List Iter → Generator out → Option (Generator out)
  key_calls [] g = some g
  key_calls (iter ∷ calls) g = call_of iter (key_calls calls g)

  -- Where the generator stands after the calls.
  record IsAfter (g : Generator out) (calls : List Iter) (h : Generator out) : Type 0 where
    key_min : h.m_key_min ≡ g.m_key_min
    key_max : h.m_key_max ≡ g.m_key_max
    key_median : h.m_key_median ≡ g.m_key_median
    iterators : length h.m_next_key ≡ key_iterators
    next :
        (i : ℕ) → i < key_iterators → next_key out i h ≡ g.m_key_min + count_calls i calls % span g

  -- random_range stays in its range, and does not divide by zero there.
  pub random_range-InRange :
      (r_min r_max : ℕ) (g : Generator out)
      → r_min ≤ r_max
      → r_max < u64_mod
      → r_max - r_min + 1 < u64_mod
      → (k : ℕ) × (s : out.State) × (random_range out r_min r_max g
          ≡ some (k, record g { m_random = s }))
        × (r_min ≤ k)
        × (k ≤ r_max)
  unfolding random_range
  random_range-InRange r_min r_max g h k l =
      let (rn, s) = get_random out g.m_random in
      let span = r_max - r_min + 1 in
      let wide : (r_max + u64_mod - r_min + 1) % u64_mod ≡ span = omega arith in
      let lt = mod-lt rn (let z : 0 < span = omega arith in z) in
      (
        rn % span + r_min,
        s,
        rw
            (
              wide,
              let z : (span == 0) ≡ false = ground arith in z,
              mod-eq_of_lt (let z : rn % span + r_min < u64_mod = omega (arith, lt) in z),
            )
            refl,
        omega arith,
        omega (arith, lt),
      )

  -- The ranges and medians for which normal keys can be drawn: a range of one key, the median 0 and a range
  -- of three keys at least, or a median strictly inside of the range.
  abbrev pub IsNormal : Generator out → Type 0
  IsNormal g =
      (g.m_key_min ≡ g.m_key_max)
      ⊎ ((g.m_key_median ≡ 0) × (g.m_key_min + 2 ≤ g.m_key_max))
      ⊎ ((g.m_key_min < g.m_key_median) × (g.m_key_median < g.m_key_max))

  -- The calls of get_key_index that keep its assertions.
  abbrev pub IsCall : Generator out → Iter → Type 0
  IsCall g key_random = Unit
  IsCall g key_gaussian = IsNormal g
  IsCall g (key_iter i) = i < key_iterators

  abbrev normal : Generator out → Option (ℕ × out.State)
  normal g =
      gaussian_distribution_range out g.m_key_stddev g.m_key_median g.m_key_min g.m_key_max
        g.m_random

  spread :
      (g : Generator out)
      → g.m_key_min ≢ g.m_key_max
      → 2 * g.m_key_min < twice_median out g.m_key_median g.m_key_min g.m_key_max
      → twice_median out g.m_key_median g.m_key_min g.m_key_max < 2 * g.m_key_max
      → normal g
        ≡ some (out.gaussian g.m_key_stddev g.m_key_median g.m_key_min g.m_key_max g.m_random)
  unfolding gaussian_distribution_range
  spread g ne lo hi =
      let twice = twice_median out g.m_key_median g.m_key_min g.m_key_max in
      rw
        (
          let z : (g.m_key_min == g.m_key_max) ≡ false = ground (arith, ne) in z,
          let y : ltb (2 * g.m_key_min) twice ≡ true = ground (arith, lo) in y,
          let x : ltb twice (2 * g.m_key_max) ≡ true = ground (arith, hi) in x,
        )
        refl

  -- The draw of a normal key is the only key of the range, or that of the floating point loop.
  pub normal_cases :
      (g : Generator out)
      → g.m_key_min ≤ g.m_key_max
      → g.m_key_max < u64_mod
      → IsNormal g
      → (normal g ≡ some (g.m_key_min, g.m_random))
        ⊎ (normal g
            ≡ some (out.gaussian g.m_key_stddev g.m_key_median g.m_key_min g.m_key_max g.m_random))
  normal_cases g le lt n = elim (Bool-cases (g.m_key_min == g.m_key_max)) [
    | inl one ↦ inl (unfold gaussian_distribution_range in rw one refl)
    | inr ne ↦ inr (elim n [
      | inl e ↦ absurd (ground (arith, ne, e))
      | inr m ↦ elim m [
        | inl (zero_median, wide) ↦
            let twice : twice_median out g.m_key_median g.m_key_min g.m_key_max
                ≡ g.m_key_max + g.m_key_min + 1 =
              rw zero_median (omega (arith, le, lt)) in
            spread g (ground (arith, ne)) (omega (arith, twice, wide)) (omega (arith, twice, wide))
        | inr (lo, hi) ↦
            let twice : twice_median out g.m_key_median g.m_key_min g.m_key_max
                ≡ 2 * g.m_key_median =
              ground (arith, lo) in
            spread g (ground (arith, ne)) (omega (arith, twice, lo)) (omega (arith, twice, hi))
      ]
    ])
  ]

  module _ (g : Generator out) (r : IsRange g)
      (small : g.m_key_max - g.m_key_min + 1 < u64_mod) where
    -- The range of g in the generator after the calls.
    IsRange-after : (calls : List Iter) (h : Generator out) → IsAfter g calls h → IsRange h
    IsRange-after calls h a = record {
      ordered = omega (arith, a.key_min, a.key_max, r.ordered);
      bounded = omega (arith, a.key_max, r.bounded);
    }

    IsNormal-after :
        (calls : List Iter) (h : Generator out) → IsAfter g calls h → IsNormal g → IsNormal h
    IsNormal-after calls h a n = rw (a.key_min, a.key_max, a.key_median) n

    place_after :
        (calls : List Iter) (h : Generator out)
        → IsAfter g calls h
        → (c : ℕ) → h.m_key_min + c % span h ≡ g.m_key_min + c % span g
    place_after calls h a c i = a.key_min i + c % (a.key_max i - a.key_min i + 1)

    next_same :
        (calls : List Iter) (h : Generator out) (j : ℕ)
        → IsAfter g calls h
        → j < key_iterators
        → next_key out j
            (record h { m_next_key = set h.m_next_key j (key_after out (next_key out j h) h) })
          ≡ g.m_key_min + suc (count_calls j calls) % span g
    next_same calls h j a lt =
        ap (λ n. if ltb n h.m_key_min then h.m_key_min else n)
          (get_or-set_self h.m_next_key j _ (omega (arith, a.iterators)))
        ∙ key_after_lem h (next_key out j h) (count_calls j calls) (IsRange-after calls h a)
            (a.next j lt ∙ sym (place_after calls h a (count_calls j calls)))
        ∙ place_after calls h a (suc (count_calls j calls))

    iter_call :
        (calls : List Iter) (h : Generator out) (j : ℕ)
        → IsAfter g calls h
        → j < key_iterators
        → IsAfter g
            (key_iter j ∷ calls)
            (record h { m_next_key = set h.m_next_key j (key_after out (next_key out j h) h) })
    iter_call calls h j a lt = record {
      key_min = a.key_min;
      key_max = a.key_max;
      key_median = a.key_median;
      iterators = length-set h.m_next_key j _ ∙ a.iterators;
      next = λ i li. elim (Bool-cases (j == i)) [
        | inl e ↦
            let ji : j ≡ i = ground arith in
            rw e (
              subst
                (λ n.
                  next_key out n (record h {
                    m_next_key = set h.m_next_key j (key_after out (next_key out j h) h);
                  })
                  ≡ g.m_key_min + suc (count_calls n calls) % span g)
                ji (next_same calls h j a lt))
        | inr ne ↦ rw ne (
            ap (λ n. if ltb n h.m_key_min then h.m_key_min else n)
              (get_or-set_ne h.m_next_key j i _ (let z : j ≢ i = ground arith in z))
            ∙ a.next i li)
      ];
    }

    call_lem :
        (iter : Iter) (calls : List Iter) (h : Generator out)
        → IsAfter g calls h
        → IsCall g iter
        → (h' : Generator out) × (generator_of (get_key_index out iter h) ≡ some h')
          × IsAfter g (iter ∷ calls) h'
    unfolding get_key_index
    call_lem key_random calls h a v =
        let (k, s, e, _, _) =
          random_range-InRange h.m_key_min h.m_key_max h
            (omega (arith, a.key_min, a.key_max, r.ordered)) (omega (arith, a.key_max, r.bounded))
            (omega (arith, a.key_min, a.key_max, small)) in
        (
          record h { m_random = s },
          ap generator_of e,
          record {
            key_min = a.key_min;
            key_max = a.key_max;
            key_median = a.key_median;
            iterators = a.iterators;
            next = a.next;
          },
        )
    call_lem key_gaussian calls h a v =
        let drawn : (s : out.State) → IsAfter g (key_gaussian ∷ calls) (record h { m_random = s }) =
          λ s. record {
            key_min = a.key_min;
            key_max = a.key_max;
            key_median = a.key_median;
            iterators = a.iterators;
            next = a.next;
          } in
        let in_range = IsRange-after calls h a in
        elim (normal_cases h in_range.ordered in_range.bounded (IsNormal-after calls h a v)) [
          | inl e ↦ (record h { m_random = h.m_random }, rw e refl, drawn h.m_random)
          | inr e ↦
              let s =
                (out.gaussian h.m_key_stddev h.m_key_median h.m_key_min h.m_key_max h.m_random).1 in
              (record h { m_random = s }, rw e refl, drawn s)
        ]
    call_lem (key_iter j) calls h a v = (
      _,
      rw (let z : leb key_iterators j ≡ false = ground arith in z) refl,
      iter_call calls h j a v,
    )

    module _ (fresh : g.m_next_key ≡ 0 ∷ 0 ∷ []) where
      fresh_next : (i : ℕ) → i < key_iterators → next_key out i g ≡ g.m_key_min + 0 % span g
      fresh_next zero lt = rw fresh (ground arith)
      fresh_next (suc zero) lt = rw fresh (ground arith)
      fresh_next (suc (suc i)) lt = absurd (omega (arith, lt))

      IsAfter-calls :
          (calls : List Iter)
          → All (IsCall g) calls
          → (h : Generator out) × (key_calls calls g ≡ some h) × IsAfter g calls h
      unfolding key_calls
      IsAfter-calls [] iters = (
        g,
        refl,
        record {
          key_min = refl;
          key_max = refl;
          key_median = refl;
          iterators = ap length fresh;
          next = fresh_next;
        },
      )
      IsAfter-calls (iter ∷ calls) (v, iters) =
          let (h, e, a) = IsAfter-calls calls iters in
          let (h', e', a') = call_lem iter calls h a v in (h', ap (call_of iter) e ∙ e', a')

  -- However the calls of get_key_index for the two iterators, for random and for normal keys are mixed, with
  -- any range of keys but the whole unsigned long long, none of them fails, where there is a normal key
  -- among them on the condition that the range has one key, or three at least and the median 0, or that the
  -- median lies strictly inside of the range. Afterwards iterator i hands out the key at its own number of
  -- calls, counted round the range from the least key. The arithmetic of the median is taken to be exact, as
  -- that of doubles is for keys below 2 ^ 52.
  pub get_key_index-cycles :
      (g : Generator out) (calls : List Iter) (i : ℕ)
      → IsRange g
      → g.m_key_max - g.m_key_min + 1 < u64_mod
      → g.m_next_key ≡ 0 ∷ 0 ∷ []
      → All (IsCall g) calls
      → i < key_iterators
      → (h h' : Generator out) × (key_calls calls g ≡ some h)
        × (get_key_index out (key_iter i) h
            ≡ some (g.m_key_min + count_calls i calls % (g.m_key_max - g.m_key_min + 1), h'))
  unfolding get_key_index
  get_key_index-cycles g calls i r small fresh iters lt =
      let (h, e, a) = IsAfter-calls g r small fresh calls iters in
      let h' = record h { m_next_key = set h.m_next_key i (key_after out (next_key out i h) h) } in
      (
        h,
        h',
        e,
        rw (let z : leb key_iterators i ≡ false = ground arith in z)
            (ap {B = Option (ℕ × Generator out)} (λ (k : ℕ). some (k, h')) (a.next i lt)),
      )
