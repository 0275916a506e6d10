-- ===== src/Client/Merged.antt =====
-- The seconds that run_stats::merge makes of two lists of seconds.
use memtier_skewsyn.Prelude.{
  ℕ, ◌+◌, ◌<◌, ◌≡◌, ◌≢◌, refl, inl, inr, Bool, true, false, List, [], ◌∷◌, ◌++◌, arith, ltb, ◌==◌,
  if◌then◌else◌, Bool-cases, All, All-end, ltb→lt,
}
use memtier_skewsyn.Client.Stats.{OneSecond, RunStats}
use memtier_skewsyn.Client.Merge.{
  merge_into, merge_seconds, insert_second, sort_seconds, merge_stats,
}
use memtier_skewsyn.Client.Totals.{total, total-append, IsAdditive, Ascending}

-- No two seconds of the list have the same number.
abbrev Different : List OneSecond → Type 0
Different [] = Unit
Different (s ∷ ss) = All (λ t. s.m_second ≢ t.m_second) ss × Different ss

Ascending-Different : (ss : List OneSecond) → Ascending ss → Different ss
Ascending-Different [] a = tt
Ascending-Different (s ∷ ss) a = (all-ne ss a.0, Ascending-Different ss a.1)
  where
    all-ne :
        (ts : List OneSecond)
        → All (λ t. s.m_second < t.m_second) ts
        → All (λ t. s.m_second ≢ t.m_second) ts
    all-ne [] h = tt
    all-ne (t ∷ ts) h = (omega (arith, h.0), all-ne ts h.1)

Different-end :
    (ss : List OneSecond) (x : OneSecond)
    → Different ss
    → All (λ t. t.m_second ≢ x.m_second) ss
    → Different (ss ++ (x ∷ []))
Different-end [] x d n = (tt, tt)
Different-end (s ∷ ss) x d n =
    (All-end (λ t. s.m_second ≢ t.m_second) ss x d.0 n.0, Different-end ss x d.1 n.1)

-- merge_into leaves the numbers of the seconds as they are.
merge_into-All :
    (P : ℕ → Type 0) (o : OneSecond) (ss : List OneSecond)
    → All (λ t. P t.m_second) ss
    → All (λ t. P t.m_second) (merge_into o ss).1
unfolding merge_into
merge_into-All P o [] h = tt
merge_into-All P o (s ∷ ss) h = elim (Bool-cases (s.m_second == o.m_second)) [
  | inl e ↦ rw e h
  | inr e ↦ rw e (h.0, merge_into-All P o ss h.1)
]

merge_into-Different :
    (o : OneSecond) (ss : List OneSecond) → Different ss → Different (merge_into o ss).1
unfolding merge_into
merge_into-Different o [] d = tt
merge_into-Different o (s ∷ ss) d = elim (Bool-cases (s.m_second == o.m_second)) [
  | inl e ↦ rw e d
  | inr e ↦ rw e (merge_into-All (λ n. s.m_second ≢ n) o ss d.0, merge_into-Different o ss d.1)
]

merge_into-Ascending :
    (o : OneSecond) (ss : List OneSecond) → Ascending ss → Ascending (merge_into o ss).1
unfolding merge_into
merge_into-Ascending o [] a = tt
merge_into-Ascending o (s ∷ ss) a = elim (Bool-cases (s.m_second == o.m_second)) [
  | inl e ↦ rw e a
  | inr e ↦ rw e (merge_into-All (λ n. s.m_second < n) o ss a.0, merge_into-Ascending o ss a.1)
]

-- Where nothing was merged, no second has the number of the other.
merge_into-new :
    (o : OneSecond) (ss : List OneSecond)
    → (merge_into o ss).0 ≡ false
    → All (λ t. t.m_second ≢ o.m_second) ss
unfolding merge_into
merge_into-new o [] h = tt
merge_into-new o (s ∷ ss) h = elim (Bool-cases (s.m_second == o.m_second)) [
  | inl e ↦ absurd (ground arith)
  | inr e ↦ (ground arith, merge_into-new o ss (ground arith))
]

merge_into-total :
    (f : OneSecond → ℕ) (o : OneSecond) (ss : List OneSecond)
    → IsAdditive f
    → total f (merge_into o ss).1 ≡ total f ss + (if (merge_into o ss).0 then f o else 0)
unfolding merge_into
merge_into-total f o [] h = refl
merge_into-total f o (s ∷ ss) h = elim (Bool-cases (s.m_second == o.m_second)) [
  | inl e ↦ rw e (omega (arith, h s o))
  | inr e ↦ rw e (omega (arith, merge_into-total f o ss h))
]

insert_second-total :
    (f : OneSecond → ℕ) (x : OneSecond) (ss : List OneSecond)
    → total f (insert_second x ss) ≡ f x + total f ss
unfolding insert_second
insert_second-total f x [] = refl
insert_second-total f x (s ∷ ss) = elim (Bool-cases (ltb s.m_second x.m_second)) [
  | inl e ↦ rw e (omega (arith, insert_second-total f x ss))
  | inr e ↦ rw e refl
]

sort_seconds-total :
    (f : OneSecond → ℕ) (ss : List OneSecond) → total f (sort_seconds ss) ≡ total f ss
unfolding sort_seconds
sort_seconds-total f [] = refl
sort_seconds-total f (s ∷ ss) =
    omega (arith, insert_second-total f s (sort_seconds ss), sort_seconds-total f ss)

insert_second-All :
    (P : ℕ → Type 0) (x : OneSecond) (ss : List OneSecond)
    → P x.m_second
    → All (λ t. P t.m_second) ss
    → All (λ t. P t.m_second) (insert_second x ss)
unfolding insert_second
insert_second-All P x [] p h = (p, tt)
insert_second-All P x (s ∷ ss) p h = elim (Bool-cases (ltb s.m_second x.m_second)) [
  | inl e ↦ rw e (h.0, insert_second-All P x ss p h.1)
  | inr e ↦ rw e (p, h)
]

sort_seconds-All :
    (P : ℕ → Type 0) (ss : List OneSecond)
    → All (λ t. P t.m_second) ss
    → All (λ t. P t.m_second) (sort_seconds ss)
unfolding sort_seconds
sort_seconds-All P [] h = tt
sort_seconds-All P (s ∷ ss) h =
    insert_second-All P s (sort_seconds ss) h.0 (sort_seconds-All P ss h.1)

All-lt :
    (x s : ℕ) (ss : List OneSecond)
    → x < s
    → All (λ t. s < t.m_second) ss
    → All (λ t. x < t.m_second) ss
All-lt x s [] l h = tt
All-lt x s (t ∷ ts) l h = (omega (arith, h.0), All-lt x s ts l h.1)

insert_second-Ascending :
    (x : OneSecond) (ss : List OneSecond)
    → All (λ t. x.m_second ≢ t.m_second) ss
    → Ascending ss
    → Ascending (insert_second x ss)
unfolding insert_second
insert_second-Ascending x [] n a = (tt, tt)
insert_second-Ascending x (s ∷ ss) n a = elim (Bool-cases (ltb s.m_second x.m_second)) [
  | inl e ↦ rw e (
    insert_second-All (λ m. s.m_second < m) x ss (ltb→lt s.m_second x.m_second e) a.0,
    insert_second-Ascending x ss n.1 a.1,
  )
  | inr e ↦
      let l : x.m_second < s.m_second = (let ne = n.0 in ground arith) in
      rw e ((l, All-lt x.m_second s.m_second ss l a.0), a)
]

sort_seconds-Ascending : (ss : List OneSecond) → Different ss → Ascending (sort_seconds ss)
unfolding sort_seconds
sort_seconds-Ascending [] d = tt
sort_seconds-Ascending (s ∷ ss) d =
    insert_second-Ascending s (sort_seconds ss) (sort_seconds-All (λ n. s.m_second ≢ n) ss d.0)
      (sort_seconds-Ascending ss d.1)

-- The list has no number twice, and is in order unless it is to be sorted.
Kept : Bool → List OneSecond → Type 0
Kept new_stats ss = Different ss × (new_stats ≡ false → Ascending ss)

merge_seconds-Kept :
    (b : Bool) (others ss : List OneSecond)
    → Kept b ss
    → Kept (merge_seconds b others ss).0 (merge_seconds b others ss).1
unfolding merge_seconds Kept
merge_seconds-Kept b [] ss k = k
merge_seconds-Kept b (o ∷ others) ss k = elim (Bool-cases (merge_into o ss).0) [
  | inl e ↦
      rw (e, merge_seconds)
        (merge_seconds-Kept b others (merge_into o ss).1
          (merge_into-Different o ss k.0, λ h. merge_into-Ascending o ss (k.1 h)))
  | inr e ↦
      rw (e, merge_seconds)
        (merge_seconds-Kept true others (ss ++ (o ∷ []))
          (Different-end ss o k.0 (merge_into-new o ss e), λ h. absurd (cc)))
]

merge_seconds-total :
    (f : OneSecond → ℕ) (b : Bool) (others ss : List OneSecond)
    → IsAdditive f
    → total f (merge_seconds b others ss).1 ≡ total f ss + total f others
unfolding merge_seconds
merge_seconds-total f b [] ss h = omega arith
merge_seconds-total f b (o ∷ others) ss h =
    let m = merge_into-total f o ss h in
    elim (Bool-cases (merge_into o ss).0) [
      | inl e ↦
          rw (e, merge_seconds, total)
            (omega (arith, merge_seconds-total f b others (merge_into o ss).1 h, (rw e at m)))
      | inr e ↦
          rw (e, merge_seconds, total)
            (omega (
              arith,
              merge_seconds-total f true others (ss ++ (o ∷ [])) h,
              total-append f ss (o ∷ []),
            ))
    ]

-- Merging the statistics of another client, whatever seconds those have: where the own seconds are ascending, they are
-- ascending afterwards, so that no second stands twice; every sum over the seconds that the merging of two seconds
-- adds up, such as the operations, the bytes and the latencies, is then the sum of both; and the totals of operations
-- and bytes are the sums of both totals.
pub merge_stats-merges :
    (start_time end_time : ℕ) (other s : RunStats)
    → Ascending s.m_stats
    → let r = merge_stats start_time end_time other s in
      Ascending r.m_stats
      × ((f : OneSecond → ℕ)
          → IsAdditive f
          → total f r.m_stats ≡ total f s.m_stats + total f other.m_stats)
      × (r.m_ops ≡ s.m_ops + other.m_ops)
      × (r.m_bytes ≡ s.m_bytes + other.m_bytes)
unfolding merge_stats Kept
merge_stats-merges start_time end_time other s a =
    let k =
      merge_seconds-Kept false other.m_stats s.m_stats (Ascending-Different s.m_stats a, λ h. a) in
    let ss = (merge_seconds false other.m_stats s.m_stats).1 in
    elim (Bool-cases (merge_seconds false other.m_stats s.m_stats).0) [
      | inl e ↦ rw e (
        sort_seconds-Ascending ss k.0,
        (λ f h. omega (
          arith,
          sort_seconds-total f ss,
          merge_seconds-total f false other.m_stats s.m_stats h,
        )),
        refl,
        refl,
      )
      | inr e ↦
          rw e (k.1 e, (λ f h. merge_seconds-total f false other.m_stats s.m_stats h), refl, refl)
    ]
