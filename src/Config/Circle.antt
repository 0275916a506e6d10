-- ===== src/Config/Circle.antt =====
-- The circle of sizes of a weight list: each size as often as its weight says.
use memtier_skewsyn.Prelude.{
  ℕ, zero, suc, ◌+◌, ◌≤◌, ◌<◌, ◌≡◌, refl, ap, ◌∙◌, List, [], ◌∷◌, ◌++◌, some, arith, length,
  get_elem?, replicate,
}
use memtier_skewsyn.Config.{WeightItem}

abbrev pub total : List WeightItem → ℕ
total [] = 0
total (w ∷ items) = w.weight + total items

-- The weights in front of index i.
abbrev pub before : List WeightItem → ℕ → ℕ
before items zero = 0
before [] (suc i) = 0
before (w ∷ items) (suc i) = w.weight + before items i

-- Each size as often as its weight says.
abbrev pub expand : List WeightItem → List ℕ
expand [] = []
expand (w ∷ items) = replicate w.weight w.size ++ expand items

pub get_elem?-replicate_append :
    (n a k : ℕ) (ys : List ℕ) → k < n → get_elem? (replicate n a ++ ys) k ≡ some a
get_elem?-replicate_append zero a k ys h = elim h [ ]
get_elem?-replicate_append (suc n) a zero ys h = refl
get_elem?-replicate_append (suc n) a (suc k) ys h =
    get_elem?-replicate_append n a k ys (omega arith)

pub get_elem?-replicate_skip :
    (n a k : ℕ) (ys : List ℕ) → get_elem? (replicate n a ++ ys) (n + k) ≡ get_elem? ys k
get_elem?-replicate_skip zero a k ys = ap (get_elem? ys) (omega arith)
get_elem?-replicate_skip (suc n) a k ys =
    ap (get_elem? (a ∷ (replicate n a ++ ys))) (let e : suc n + k ≡ suc (n + k) = omega arith in e)
    ∙ get_elem?-replicate_skip n a k ys

pub get_elem?-expand :
    (items : List WeightItem) (i k : ℕ) {w : WeightItem}
    → get_elem? items i ≡ some w
    → k < w.weight
    → get_elem? (expand items) (before items i + k) ≡ some w.size
get_elem?-expand [] i k e h = cc
get_elem?-expand (x ∷ items) zero k {w} e h =
    let same : x ≡ w = ground arith in
    rw same (
      ap (get_elem? (replicate w.weight w.size ++ expand items))
        (let z : 0 + k ≡ k = omega arith in z)
      ∙ get_elem?-replicate_append w.weight w.size k (expand items) h)
get_elem?-expand (x ∷ items) (suc i) k e h =
    ap (get_elem? (expand (x ∷ items)))
      (let z : x.weight + before items i + k ≡ x.weight + (before items i + k) = omega arith in z)
    ∙ get_elem?-replicate_skip x.weight x.size (before items i + k) (expand items)
    ∙ get_elem?-expand items i k e h

pub before-suc :
    (items : List WeightItem) (i : ℕ) {w : WeightItem}
    → get_elem? items i ≡ some w
    → before items (suc i) ≡ before items i + w.weight
before-suc [] i e = cc
before-suc (x ∷ items) zero e = ground arith
before-suc (x ∷ items) (suc i) e = omega (arith, before-suc items i e)

pub before-length : (items : List WeightItem) → before items (length items) ≡ total items
before-length [] = refl
before-length (x ∷ items) = omega (arith, before-length items)

pub get_elem?-lt :
    (items : List WeightItem) (i : ℕ) {w : WeightItem}
    → get_elem? items i ≡ some w
    → i < length items
get_elem?-lt [] i e = cc
get_elem?-lt (x ∷ items) zero e = omega arith
get_elem?-lt (x ∷ items) (suc i) e = omega (arith, get_elem?-lt items i e)

pub get_elem?_below :
    (items : List WeightItem) (i : ℕ)
    → i < length items
    → (w : WeightItem) × (get_elem? items i ≡ some w)
get_elem?_below [] i h = absurd (omega arith)
get_elem?_below (x ∷ items) zero h = (x, refl)
get_elem?_below (x ∷ items) (suc i) h = get_elem?_below items i (omega arith)

pub before-le : (items : List WeightItem) (i : ℕ) → before items i ≤ total items
before-le items zero = omega arith
before-le [] (suc i) = omega arith
before-le (x ∷ items) (suc i) = omega (arith, before-le items i)

pub lt-of_before :
    (items : List WeightItem) (i : ℕ) → before items i < total items → i < length items
lt-of_before [] zero h = elim h [ ]
lt-of_before [] (suc i) h = elim h [ ]
lt-of_before (x ∷ items) zero h = omega arith
lt-of_before (x ∷ items) (suc i) h = omega (arith, lt-of_before items i (omega arith))
