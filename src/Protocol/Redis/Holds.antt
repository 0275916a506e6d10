-- ===== src/Protocol/Redis/Holds.antt =====
-- What the elements that protocol_response makes of an array reply hold, read from their store.
use memtier_skewsyn.Prelude.{
  ℕ, zero, suc, ◌<◌, ◌≤◌, ◌≡◌, ◌≢◌, refl, ap, ◌∙◌, List, [], ◌∷◌, ◌++◌, none, some, arith, length,
  length-append, append_assoc, get_elem?, get_elem?_lt, get_elem?-set_self, get_elem?-set_ne, set,
  length-set,
}
use memtier_skewsyn.CLib.{u32_mod}
use memtier_skewsyn.Protocol.Base.{
  MbulkElement, MbulkLevel, Mbulk, new_array, add_mbulk_value, add_mbulk_array,
}
use memtier_skewsyn.Protocol.Base.Levels.{
  level, popped, add_mbulk_value-store, add_mbulk_array-store, add_mbulk_array-levels,
}
use memtier_skewsyn.Protocol.Redis.Reply.{
  Item, int, bulk, arr, Items, one, more, count, IsSent, AreSent, build, build_all, build-levels,
  popped_count,
}

-- The element at a place of the store stands for the item: it has the bytes of an integer or of a bulk, or the
-- places of the elements of an array, each behind the one before and behind the array.
abbrev mutual
  pub Holds : List MbulkElement → ℕ → Item → Type 0
  Holds store id (int v) =
      get_elem? store id ≡ some (record { value = some v; value_len = length v; mbulk_array = [] })
  Holds store id (bulk v) =
      get_elem? store id ≡ some (record { value = some v; value_len = length v; mbulk_array = [] })
  Holds store id (arr xs) =
      (ids : List ℕ) × (get_elem? store id
        ≡ some (record { value = none; value_len = 0; mbulk_array = ids }))
      × HoldsAll store (suc id) ids xs

  pub HoldsAll : List MbulkElement → ℕ → List ℕ → Items → Type 0
  HoldsAll store least [] xs = ⊥
  HoldsAll store least (id ∷ ids) (one x) = (least ≤ id) × Holds store id x × (ids ≡ [])
  HoldsAll store least (id ∷ ids) (more x xs) =
      (least ≤ id) × Holds store id x × HoldsAll store (suc id) ids xs

-- The elements from a place on are kept.
abbrev Keeps : ℕ → List MbulkElement → List MbulkElement → Type 0
Keeps least s t =
    (i : ℕ) (e : MbulkElement) → least ≤ i → get_elem? s i ≡ some e → get_elem? t i ≡ some e

mutual
  Holds-Keeps :
      (x : Item) (s t : List MbulkElement) (id : ℕ) → Keeps id s t → Holds s id x → Holds t id x
  Holds-Keeps (int v) s t id k h = k id _ (omega arith) h
  Holds-Keeps (bulk v) s t id k h = k id _ (omega arith) h
  Holds-Keeps (arr xs) s t id k (ids, e, all) = (
    ids,
    k id _ (omega arith) e,
    HoldsAll-Keeps xs ids s t (suc id) (λ i e le. k i e (omega (arith, le))) all,
  )

  HoldsAll-Keeps :
      (xs : Items) (ids : List ℕ) (s t : List MbulkElement) (least : ℕ)
      → Keeps least s t
      → HoldsAll s least ids xs
      → HoldsAll t least ids xs
  HoldsAll-Keeps xs [] s t least k h = absurd h
  HoldsAll-Keeps (one x) (id ∷ ids) s t least k (le, h, e) =
      (le, Holds-Keeps x s t id (λ i e l. k i e (omega (arith, le, l))) h, e)
  HoldsAll-Keeps (more x xs) (id ∷ ids) s t least k (le, h, all) = (
    le,
    Holds-Keeps x s t id (λ i e l. k i e (omega (arith, le, l))) h,
    HoldsAll-Keeps xs ids s t (suc id) (λ i e l. k i e (omega (arith, le, l))) all,
  )

pub HoldsAll-least :
    (xs : Items) (ids : List ℕ) (s : List MbulkElement) (a b : ℕ)
    → a ≤ b
    → HoldsAll s b ids xs
    → HoldsAll s a ids xs
HoldsAll-least xs [] s a b ab h = absurd h
HoldsAll-least (one x) (id ∷ ids) s a b ab (le, h, e) = (omega (arith, ab, le), h, e)
HoldsAll-least (more x xs) (id ∷ ids) s a b ab (le, h, all) = (omega (arith, ab, le), h, all)

pub get_elem?-kept :
    (xs ys : List MbulkElement) (i : ℕ) (e : MbulkElement)
    → get_elem? xs i ≡ some e
    → get_elem? (xs ++ ys) i ≡ some e
get_elem?-kept [] ys i e h = absurd (cc)
get_elem?-kept (x ∷ xs) ys zero e h = h
get_elem?-kept (x ∷ xs) ys (suc i) e h = get_elem?-kept xs ys i e h

pub get_elem?-end :
    (xs : List MbulkElement) (y : MbulkElement) → get_elem? (xs ++ (y ∷ [])) (length xs) ≡ some y
get_elem?-end [] y = refl
get_elem?-end (x ∷ xs) y = get_elem?-end xs y

abbrev grown : MbulkElement → List ℕ → MbulkElement
grown e ids = record e { mbulk_array = e.mbulk_array ++ ids }

-- A store that has more elements, of which these were added to the array at a place.
pub record Grows (s t : List MbulkElement) (parent : ℕ) (e : MbulkElement) (ids : List ℕ)
    : Type 0 where
  pub linked : get_elem? t parent ≡ some (grown e ids)
  pub others :
      (i : ℕ) (x : MbulkElement) → i ≢ parent → get_elem? s i ≡ some x → get_elem? t i ≡ some x
  pub longer : length s < length t

Grows-push :
    (s : List MbulkElement) (parent : ℕ) (e el : MbulkElement)
    → get_elem? s parent ≡ some e
    → let t = set s parent (grown e (length s ∷ [])) ++ (el ∷ []) in
      Grows s t parent e (length s ∷ []) × (get_elem? t (length s) ≡ some el)
Grows-push s parent e el at =
    let e' = grown e (length s ∷ []) in
    let same = length-set s parent e' in
    (
      record {
        linked =
            get_elem?-kept (set s parent e') (el ∷ []) parent e'
              (get_elem?-set_self s parent e' (get_elem?_lt s parent e at));
        others = λ i x ne h.
            get_elem?-kept (set s parent e') (el ∷ []) i x
              (get_elem?-set_ne s e' (λ q. ne (cc)) ∙ h);
        longer = omega (arith, same, length-append (set s parent e') (el ∷ []));
      },
      rw same at (get_elem?-end (set s parent e') el),
    )

-- An element added to the array of the last level
add-Grows :
    (m : Mbulk) (c id : ℕ) (outer : List MbulkLevel) (e el : MbulkElement)
    → m.levels ≡ level c id ∷ outer
    → get_elem? m.store id ≡ some e
    → let t = (add_mbulk_value el m).store in
      Grows m.store t id e (length m.store ∷ []) × (get_elem? t (length m.store) ≡ some el)
add-Grows m c id outer e el top at =
    rw (add_mbulk_value-store m c id outer top e at el) (Grows-push m.store id e el at)

mutual
  unfolding build build_all count

  build-Holds :
      (x : Item) (m : Mbulk) (c id : ℕ) (outer : List MbulkLevel) (e : MbulkElement)
      → IsSent x
      → m.levels ≡ level (suc c) id ∷ outer
      → suc c < u32_mod
      → get_elem? m.store id ≡ some e
      → Grows m.store (build x m).store id e (length m.store ∷ [])
        × Holds (build x m).store (length m.store) x
  build-Holds (int v) m c id outer e sent top small at = add-Grows m (suc c) id outer e _ top at
  build-Holds (bulk v) m c id outer e sent top small at = add-Grows m (suc c) id outer e _ top at
  build-Holds (arr xs) m c id outer e (fits, sent) top small at =
      let (first, new) = add-Grows m (suc c) id outer e new_array top at in
      let m' = add_mbulk_array (count xs) m in
      let same = add_mbulk_array-store m (count xs) in
      let lt = get_elem?_lt m.store id e at in
      let (ids, then, all) =
        build_all-Holds xs m' (length m.store) (popped c id outer) new_array fits sent
          (add_mbulk_array-levels m c id outer top small (count xs)) (rw same new) in
      (
        record {
          linked = then.others id _ (λ q. absurd (omega (arith, q, lt))) (rw same first.linked);
          others = λ i x ne h.
              let li = get_elem?_lt m.store i x h in
              then.others i x (λ q. absurd (omega (arith, q, li)))
                (rw same (first.others i x ne h));
          longer = omega (arith, first.longer, ap length same, then.longer);
        },
        (
          ids,
          then.linked,
          HoldsAll-least xs ids _ (suc (length m.store)) (length m'.store)
              (omega (arith, first.longer, ap length same)) all,
        ),
      )

  pub build_all-Holds :
      (xs : Items) (m : Mbulk) (id : ℕ) (outer : List MbulkLevel) (e : MbulkElement)
      → count xs < u32_mod
      → AreSent xs
      → m.levels ≡ level (count xs) id ∷ outer
      → get_elem? m.store id ≡ some e
      → (ids : List ℕ) × Grows m.store (build_all xs m).store id e ids
        × HoldsAll (build_all xs m).store (length m.store) ids xs
  build_all-Holds (one x) m id outer e fits sent top at =
      let (g, h) = build-Holds x m 0 id outer e sent top fits at in
      (length m.store ∷ [], g, (omega arith, h, refl))
  build_all-Holds (more x xs) m id outer e fits (sx, sent) top at =
      let (g, h) = build-Holds x m (count xs) id outer e sx top fits at in
      let top' = build-levels x m (count xs) id outer sx top fits ∙ popped_count xs id outer in
      let (ids, g', all) =
        build_all-Holds xs (build x m) id outer (grown e (length m.store ∷ [])) (omega arith) sent
          top' g.linked in
      let lt = get_elem?_lt m.store id e at in
      let t = (build_all xs (build x m)).store in
      (
        length m.store ∷ ids,
        record {
          linked = rw (append_assoc e.mbulk_array (length m.store ∷ []) ids) at g'.linked;
          others = λ i y ne k. g'.others i y ne (g.others i y ne k);
          longer = omega (arith, g.longer, g'.longer);
        },
        (
          omega arith,
          Holds-Keeps x (build x m).store t (length m.store)
              (λ i y le k. g'.others i y (λ q. absurd (omega (arith, q, le, lt))) k) h,
          HoldsAll-least xs ids t (suc (length m.store)) (length (build x m).store) g.longer all,
        ),
      )
